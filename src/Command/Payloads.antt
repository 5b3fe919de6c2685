-- ===== src/Command/Payloads.antt =====
-- What a device decodes from the payload of a command.
use homed_service_esphome.Prelude.{
  ℕ, ◌%◌, ◌^◌, ◌≤◌, ◌<◌, ◌≡◌, refl, ap, ◌∙◌, sym, Bool, true, List, [], ◌∷◌, ◌++◌, map, Option,
  none, some, arith, Bytes, length, All, if◌then◌else◌, if_keeps,
}
use homed_service_esphome.Prelude.Text.{Text, text_eq, index_of}
use homed_service_esphome.Qt.{Qt}
use homed_service_esphome.Device.{Endpoint}
use homed_service_esphome.Proto.{
  ProtoField, done, decode, add_varint, add_float, add_bool, add_bytes,
}
use homed_service_esphome.Proto.Fields.{
  Item, varint_item, fixed32_item, bytes_item, IsItem, add_item, field_of,
}
use homed_service_esphome.Proto.RoundTrip.{encode, decode-encode}
use homed_service_esphome.Command.{
  Argument, Message, add_string, keyed, switch_payload, lock_payload, light_color_payload,
  light_payload, cover_payload, climate_choice, climate_mode_payload, climate_payload,
  command_message, wanted_on, wanted_locked, fraction, float_1, float_0, float_100, lowered,
}
use homed_service_esphome.Climate.{
  climate_mode_value, climate_fan_mode_value, climate_preset_value, mode_names, fan_mode_names,
  preset_names,
}
use homed_service_esphome.Climate.Tables.{nth-index_of}
use mathlib.Core.List.{foldl}

-- One item more at the end.
All-snoc {ℓ} :
    {A : Type ℓ} (P : A → Type 0) (l : List A) {last : A}
    → All P l
    → P last
    → All P (l ++ (last ∷ []))
All-snoc P [] before h = (h, tt)
All-snoc P (first ∷ l) before h = (before.0, All-snoc P l before.1 h)

-- The bytes are an encoding of these items, which all fit their types.
abbrev pub Encodes : Bytes → List Item → Type 0
Encodes payload is = (payload ≡ encode is) × All IsItem is

foldl_snoc :
    (is : List Item) (i : Item) (d : Bytes)
    → foldl add_item d (is ++ (i ∷ [])) ≡ add_item (foldl add_item d is) i
foldl_snoc [] i d = refl
foldl_snoc (j ∷ is) i d = foldl_snoc is i (add_item d j)

add_item-Encodes :
    (payload : Bytes) (is : List Item) (i : Item)
    → Encodes payload is
    → IsItem i
    → Encodes (add_item payload i) (is ++ (i ∷ []))
unfolding encode
add_item-Encodes payload is i (e, ok) hi =
    (ap (λ (d : Bytes). add_item d i) e ∙ sym (foldl_snoc is i []), All-snoc IsItem is ok hi)

-- An encoding whose first field is number 1, the entity's key as a fixed32.
abbrev pub Addressed : ℕ → Bytes → Type 0
Addressed key payload = (is : List Item) × Encodes payload (fixed32_item 1 key ∷ is)

module _ {key : ℕ} (payload : Bytes) (a : Addressed key payload) where
  item-Addressed : (i : Item) → IsItem i → Addressed key (add_item payload i)
  item-Addressed i hi =
      (a.0 ++ (i ∷ []), add_item-Encodes payload (fixed32_item 1 key ∷ a.0) i a.1 hi)

  add_varint-Addressed :
      (n v : ℕ) → n < 2 ^ 28 → v < 2 ^ 64 → Addressed key (add_varint payload n v)
  unfolding add_item
  add_varint-Addressed n v hn hv = item-Addressed (varint_item n v) (hn, hv)

  add_bool-Addressed : (n : ℕ) (b : Bool) → n < 2 ^ 28 → Addressed key (add_bool payload n b)
  unfolding add_bool
  add_bool-Addressed n b hn = add_varint-Addressed n (if b then 1 else 0) hn (ground arith)

  add_float-Addressed : (n v : ℕ) → n < 2 ^ 28 → v < 2 ^ 32 → Addressed key (add_float payload n v)
  unfolding add_float add_item
  add_float-Addressed n v hn hv = item-Addressed (fixed32_item n v) (hn, hv)

  add_bytes-Addressed : (n : ℕ) (bs : Bytes) → n < 2 ^ 28 → Addressed key (add_bytes payload n bs)
  unfolding add_item
  add_bytes-Addressed n bs hn = item-Addressed (bytes_item n bs) hn

-- Floats are 32-bit patterns, quotients included.
pub record FloatsFit (qt : Qt) (value : Argument) : Type 0 where
  pub quotients : (a b : ℕ) → qt.float_div a b < 2 ^ 32
  pub single : value.to_float < 2 ^ 32

module _ (qt : Qt) {Double : Type 0} (ep : Endpoint Double) (action : Text) (value : Argument)
    (fit : FloatsFit qt value) where
  abbrev key : ℕ
  key = ep.meta.key % 2 ^ 32

  keyed-Addressed : Addressed key (keyed ep)
  unfolding encode add_item
  keyed-Addressed = ([], (refl, (omega arith, tt)))

  on_flags : Addressed key (add_bool (add_bool (keyed ep) 2 true) 3 true)
  on_flags =
      add_bool-Addressed _ (add_bool-Addressed _ keyed-Addressed 2 true (omega arith)) 3 true
        (omega arith)

  light_color-Addressed :
      (floats : List ℕ) → Addressed key (light_color_payload qt ep action value floats)
  unfolding light_color_payload
  light_color-Addressed [] = keyed-Addressed
  light_color-Addressed (r ∷ []) = keyed-Addressed
  light_color-Addressed (r ∷ g ∷ []) = keyed-Addressed
  light_color-Addressed (r ∷ g ∷ b ∷ rest) =
      let rgb = add_bool-Addressed _ on_flags 6 true (omega arith) in
      let red =
        add_float-Addressed _ rgb 7 (fraction qt ep action value r) (omega arith)
          (fit.quotients _ _) in
      let green =
        add_float-Addressed _ red 8 (fraction qt ep action value g) (omega arith)
          (fit.quotients _ _) in
      add_float-Addressed _ green 9 (fraction qt ep action value b) (omega arith)
        (fit.quotients _ _)

  light-Addressed : Addressed key (light_payload qt ep action value)
  unfolding light_payload
  light-Addressed =
      let level = add_bool-Addressed _ on_flags 4 true (omega arith) in
      let temperature = add_bool-Addressed _ on_flags 12 true (omega arith) in
      let status = add_bool-Addressed _ keyed-Addressed 2 true (omega arith) in
      if_keeps (Addressed key) (text_eq action "status")
        (add_bool-Addressed _ status 3 (wanted_on qt ep action value) (omega arith))
        (if_keeps (Addressed key) (text_eq action "level")
          (add_float-Addressed _ level 5 (fraction qt ep action value value.to_float) (omega arith)
            (fit.quotients _ _))
          (if_keeps (Addressed key) (text_eq action "color") (light_color-Addressed value.to_floats)
            (if_keeps (Addressed key) (text_eq action "colorTemperature")
              (add_float-Addressed _ temperature 13 value.to_float (omega arith) fit.single)
              keyed-Addressed)))

  cover-Addressed : Addressed key (cover_payload qt ep action value)
  unfolding cover_payload
  cover-Addressed =
      let position = add_bool-Addressed _ keyed-Addressed 4 true (omega arith) in
      let open_test = text_eq (lowered qt ep action value) "open" in
      if_keeps (Addressed key) (text_eq action "cover")
        (if_keeps (Addressed key) (text_eq (lowered qt ep action value) "stop")
          (add_bool-Addressed _ keyed-Addressed 8 true (omega arith))
          (add_float-Addressed _ position 5 (if open_test then float_1 else float_0) (omega arith)
            (if_keeps (λ f. f < 2 ^ 32) open_test (omega arith) (omega arith))))
        (if_keeps (Addressed key) (text_eq action "position")
          (add_float-Addressed _ position 5 (qt.float_div value.to_float float_100) (omega arith)
            (fit.quotients _ _))
          keyed-Addressed)

  climate_choice-Addressed :
      (choice : Option ℕ) (has_flag field has_custom custom_field : ℕ)
      → ((v : ℕ) → choice ≡ some v → v < 2 ^ 64)
      → (has_flag < 2 ^ 28) × (field < 2 ^ 28) × (has_custom < 2 ^ 28) × (custom_field < 2 ^ 28)
      → Addressed key
          (climate_choice qt ep action value choice has_flag field has_custom custom_field)
  unfolding climate_choice add_string
  climate_choice-Addressed (some v) f n c m h (hf, hn, hc, hm) =
      add_varint-Addressed _ (add_bool-Addressed _ keyed-Addressed f true hf) n v hn (h v refl)
  climate_choice-Addressed none f n c m h (hf, hn, hc, hm) =
      add_bytes-Addressed _ (add_bool-Addressed _ keyed-Addressed c true hc) m _ hm

  climate_mode-Addressed :
      (choice : Option ℕ)
      → ((v : ℕ) → choice ≡ some v → v < 2 ^ 64)
      → Addressed key (climate_mode_payload qt ep action value choice)
  unfolding climate_mode_payload
  climate_mode-Addressed (some v) h =
      add_varint-Addressed _ (add_bool-Addressed _ keyed-Addressed 2 true (omega arith)) 3 v
        (omega arith) (h v refl)
  climate_mode-Addressed none h = keyed-Addressed

  small_index :
      (l : List Text) (t : Text) → length l ≤ 100 → (v : ℕ) → index_of l t ≡ some v → v < 2 ^ 64
  small_index l t h v e = omega (arith, (nth-index_of l t v e).0)

  climate-Addressed : Addressed key (climate_payload qt ep action value)
  unfolding climate_payload climate_mode_value climate_fan_mode_value climate_preset_value
  climate-Addressed =
      let target = add_bool-Addressed _ keyed-Addressed 4 true (omega arith) in
      if_keeps (Addressed key) (text_eq action "systemMode")
        (climate_mode-Addressed (climate_mode_value value.to_text)
          (small_index mode_names value.to_text (omega arith)))
        (if_keeps (Addressed key) (text_eq action "targetTemperature")
          (add_float-Addressed _ target 5 value.to_float (omega arith) fit.single)
          (if_keeps (Addressed key) (text_eq action "fanMode")
            (climate_choice-Addressed (climate_fan_mode_value value.to_text) 12 13 16 17
              (small_index fan_mode_names value.to_text (omega arith)) (omega arith))
            (if_keeps (Addressed key) (text_eq action "operationMode")
              (climate_choice-Addressed (climate_preset_value value.to_text) 18 19 20 21
                (small_index preset_names value.to_text (omega arith)) (omega arith))
              keyed-Addressed)))

  -- An optional message, the payload of which is addressed.
  abbrev AllAddressed : Option Message → Type 0
  AllAddressed none = Unit {0}
  AllAddressed (some m) = Addressed key m.payload

  command_message-AllAddressed : AllAddressed (command_message qt ep action value)
  unfolding command_message switch_payload lock_payload add_string
  command_message-AllAddressed =
      if_keeps AllAddressed (text_eq ep.meta.kind "switch")
        (add_bool-Addressed _ keyed-Addressed 2 (wanted_on qt ep action value) (omega arith))
        (if_keeps AllAddressed (text_eq ep.meta.kind "lock")
          (add_varint-Addressed _ keyed-Addressed 2
            (if wanted_locked qt ep action value then 1 else 0) (omega arith)
            (if_keeps (λ v. v < 2 ^ 64) (wanted_locked qt ep action value) (omega arith)
              (omega arith)))
          (if_keeps AllAddressed (text_eq ep.meta.kind "light") light-Addressed (
            if_keeps AllAddressed (text_eq ep.meta.kind "cover") cover-Addressed (
              if_keeps AllAddressed (text_eq ep.meta.kind "climate") climate-Addressed (
                if_keeps AllAddressed (text_eq ep.meta.kind "select")
                  (add_bytes-Addressed _ keyed-Addressed 2 _ (omega arith))
                  (if_keeps AllAddressed (text_eq ep.meta.kind "number")
                    (add_float-Addressed _ keyed-Addressed 2 value.to_float (omega arith)
                      fit.single)
                    (if_keeps AllAddressed (text_eq ep.meta.kind "button") keyed-Addressed tt)))))))

  -- Let the argument's floats and every quotient of floats be 32-bit patterns. For every kind of
  -- entity and every action: if the command has a message, and the payload
  -- is below 2 ^ 31 bytes, decoding the payload ends, and the first field that the device reads is
  -- number 1 with the key of the entity.
  pub command_message_key :
      (m : Message)
      → command_message qt ep action value ≡ some m
      → length m.payload < 2 ^ 31
      → (fields : List ProtoField) × (decode m.payload
          ≡ done (field_of (fixed32_item 1 (ep.meta.key % 2 ^ 32)) ∷ fields))
  command_message_key m e short =
      let (is, (enc, ok)) : Addressed key m.payload = rw e at command_message-AllAddressed in
      (map field_of is, rw enc (decode-encode (fixed32_item 1 key ∷ is) ok (rw enc at short)))
