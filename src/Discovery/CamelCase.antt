-- ===== src/Discovery/CamelCase.antt =====
-- esphome.cpp, camelCase, and the object ids that applyEntitiesToDevice builds from names.
use Prim.Native.Char.{Char}
use Prim.Native.String.{String, ◌++◌ as string_append}
use homed_service_esphome.Prelude.{
  ℕ, ◌+◌, Bool, false, not, ◌&&◌, List, [], ◌∷◌, none, some, ltb, if◌then◌else◌,
}
use homed_service_esphome.Prelude.Text.{Text, is_empty}
use homed_service_esphome.Prelude.Maps.{Map, lookup, insert, text_key}
use homed_service_esphome.Qt.{Qt}
use homed_service_esphome.Entity.Info.{EntityInfo}

abbrev pub append_text : Text → Text → Text
append_text s t = string_append s t

abbrev pub append_char : Text → Char → Text
append_char s c = string_append s (String.◌∷◌ c String.[])

module _ (qt : Qt) where
  abbrev pub cased : Bool → Text → Char → Char
  cased capitalize_next result c =
      if capitalize_next && not (is_empty result) then qt.char_upper c else qt.char_lower c

  -- A separator only sets the flag; a letter or number is appended, and clears it.
  unfoldable pub camel_loop : Text → Text → Bool → Text
  camel_loop String.[] result capitalize_next = result
  camel_loop (String.◌∷◌ c text) result capitalize_next =
      camel_loop text
        (if qt.is_letter_or_number c
          then append_char result (cased capitalize_next result c)
          else result)
        (not (qt.is_letter_or_number c))

  unfoldable pub camel_case : Text → Text
  camel_case text = camel_loop text "" false

  unfoldable pub base_name : EntityInfo → Text
  base_name info = camel_case (
      if not (is_empty info.name)
      then info.name
      else if not (is_empty info.device_class)
      then info.device_class
      else info.kind)

  abbrev pub count_of : Map Text ℕ → Text → ℕ
  count_of counts base = elim (lookup base counts) [ none ↦ 1 | some n ↦ n + 1 ]

  -- The loop over the entities, with `objectIdCount`.
  unfoldable pub object_ids : Map Text ℕ → List EntityInfo → List Text
  object_ids counts [] = []
  object_ids counts (info ∷ entities) =
      let base = base_name info in
      let count = count_of counts base in
      (if ltb 1 count then append_text base (qt.number count) else base)
      ∷ object_ids (insert base count counts) entities
