-- ===== src/Discovery/Slots.antt =====
-- applyEntitiesToDevice's endpoint ids: stable numbers for special entities, kept by name in the
-- device's specialSlots, and the numbers left over for all others.
use homed_service_esphome.Prelude.{
  ℕ, zero, suc, ◌+◌, ◌%◌, ◌^◌, Bool, true, false, not, ◌&&◌, ◌||◌, List, [], ◌∷◌, ◌++◌, ◌==◌,
  if◌then◌else◌, length,
}
use homed_service_esphome.Prelude.Text.{Text, text_eq}
use homed_service_esphome.Prelude.Maps.{Map, insert, has, nat_key}
use homed_service_esphome.Entity.Info.{EntityInfo}

unfoldable pub is_special : EntityInfo → Bool
is_special info =
    text_eq info.kind "light"
    || text_eq info.kind "cover"
    || text_eq info.kind "climate"
    || text_eq info.kind "lock"
    || (text_eq info.kind "switch" && not info.toggle_category)

-- QSet<int>::contains
unfoldable pub uses : List ℕ → ℕ → Bool
uses [] n = false
uses (m ∷ used) n = if m == n then true else uses used n

-- The search by name, in the order of the numbers; 0 if there is none.
unfoldable pub slot_of : Map ℕ Text → Text → List ℕ → ℕ
slot_of [] name used = 0
slot_of ((number, value) ∷ slots) name used =
    if text_eq value name && not (uses used number) then number else slot_of slots name used

-- `while (taken(number)) number++;` A list of `n` numbers takes `n` of them at most, so with `n`
-- rounds of fuel the loop ends by its test (Fresh.next_free-IsFound).
unfoldable pub next_free : ℕ → (ℕ → Bool) → ℕ → ℕ
next_free zero taken number = number
next_free (suc fuel) taken number = elim (taken number) [
  | true ↦ next_free fuel taken (number + 1)
  | false ↦ number
]

abbrev pub taken_slot : Map ℕ Text → List ℕ → ℕ → Bool
taken_slot slots used number = has number slots || uses used number

unfoldable pub special_number : Map ℕ Text → List ℕ → Text → ℕ
special_number slots used name =
    if slot_of slots name used == 0
    then next_free (length slots + length used) (taken_slot slots used) 1
    else slot_of slots name used

pub record Numbering : Type 0 where
  pub slots : Map ℕ Text
  pub used : List ℕ
  pub ids : List ℕ

-- One round of the first loop; 0 stands for an entity that the second loop numbers.
unfoldable pub number_special : EntityInfo → Numbering → Numbering
number_special info st =
    if not (is_special info) then record st { ids = st.ids ++ (0 ∷ []) } else record {
      slots = insert (special_number st.slots st.used info.name) info.name st.slots;
      used = special_number st.slots st.used info.name ∷ st.used;
      ids = st.ids ++ (special_number st.slots st.used info.name % 2 ^ 8 ∷ []);
    }

unfoldable pub number_specials : List EntityInfo → Numbering → Numbering
number_specials [] st = st
number_specials (info ∷ entities) st = number_specials entities (number_special info st)

-- The second loop: `next` runs over the numbers that are not used.
unfoldable pub number_rest : List ℕ → List ℕ → ℕ → List ℕ
number_rest [] used next = []
number_rest (id ∷ ids) used next =
    let n = next_free (length used) (uses used) next in
    let keep = id ∷ number_rest ids used next in
    let take_next = n % 2 ^ 8 ∷ number_rest ids (n ∷ used) (n + 1) in
    if not (id == 0) then keep else take_next

abbrev pub specials_of : Map ℕ Text → List EntityInfo → Numbering
specials_of slots entities =
    number_specials entities (record { slots = slots; used = []; ids = [] })

unfoldable pub endpoint_ids : Map ℕ Text → List EntityInfo → List ℕ
endpoint_ids slots entities =
    number_rest (specials_of slots entities).ids (specials_of slots entities).used 1

unfoldable pub slots_after : Map ℕ Text → List EntityInfo → Map ℕ Text
slots_after slots entities = (specials_of slots entities).slots
