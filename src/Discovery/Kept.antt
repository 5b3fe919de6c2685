-- ===== src/Discovery/Kept.antt =====
-- The first loop over the entities, and the numbers that names have already.
use homed_service_esphome.Prelude.{
  ℕ, ◌+◌, ◌≤◌, ◌≡◌, refl, Bool, true, false, ◌&&◌, ◌||◌, List, [], ◌∷◌, ◌++◌, some, arith, ◌==◌,
  ltb, length, length-append, Bool-cases, inl, inr,
}
use homed_service_esphome.Prelude.Text.{Text}
use homed_service_esphome.Prelude.Maps.{Map, insert, lookup, lookup-insert, nat_key}
use homed_service_esphome.Entity.Info.{EntityInfo}
use homed_service_esphome.Discovery.Slots.{
  is_special, uses, slot_of, next_free, taken_slot, special_number, Numbering, number_special,
  number_specials, slots_after,
}
use homed_service_esphome.Discovery.Fresh.{count_from_le, next_free-IsFound}
use homed_service_esphome.Discovery.Numbers.{
  no_repeats, numbers, length-numbers, uses-numbers, slot_of-free,
}
use text.Mathlib.TextEquality.{eq_iff}

uses-both : (l m : List ℕ) (k : ℕ) → uses (l ++ m) k ≡ (uses l k || uses m k)
unfolding uses
uses-both [] m k = refl
uses-both (n ∷ l) m k = ground (arith, uses-both l m k)

-- The slot that is found by a name has this name.
slot_of-name :
    (slots : Map ℕ Text) (name : Text) (used : List ℕ)
    → no_repeats (numbers slots) ≡ true
    → (slot_of slots name used == 0) ≡ false
    → lookup (slot_of slots name used) slots ≡ some name
unfolding slot_of lookup
slot_of-name [] name used once found = absurd (ground arith)
slot_of-name ((n, value) ∷ slots) name used once found = ground (
  arith,
  slot_of-name slots name used,
  eq_iff value name,
  slot_of-free slots name used,
  uses-numbers slots (slot_of slots name used),
)

fresh_slot :
    (slots : Map ℕ Text) (used : List ℕ)
    → taken_slot slots used (next_free (length slots + length used) (taken_slot slots used) 1)
      ≡ false
fresh_slot slots used =
    (next_free-IsFound (length slots + length used) (taken_slot slots used) (numbers slots ++ used)
      1 (λ k t. ground (arith, uses-numbers slots k, uses-both (numbers slots) used k))
      (omega (
        arith,
        count_from_le 1 (numbers slots ++ used),
        length-append (numbers slots) used,
        length-numbers slots,
      ))).free

-- The number that an entity gets is free, or has the entity's name already.
special_number-slot :
    (slots : Map ℕ Text) (used : List ℕ) (name value : Text)
    → no_repeats (numbers slots) ≡ true
    → lookup (special_number slots used name) slots ≡ some value
    → value ≡ name
unfolding special_number
special_number-slot slots used name value once e =
    elim (Bool-cases (slot_of slots name used == 0)) [
      | inl z ↦ absurd (ground (arith, fresh_slot slots used))
      | inr z ↦ ground (arith, slot_of-name slots name used once z)
    ]

-- The keys of a QMap ascend.
abbrev pub all_above : ℕ → List ℕ → Bool
all_above n [] = true
all_above n (m ∷ l) = ltb n m && all_above n l

abbrev pub ascending : List ℕ → Bool
ascending [] = true
ascending (n ∷ l) = all_above n l && ascending l

all_above-lower : (k n : ℕ) (l : List ℕ) → k ≤ n → all_above n l ≡ true → all_above k l ≡ true
all_above-lower k n [] h a = refl
all_above-lower k n (m ∷ l) h a = ground (arith, all_above-lower k n l h)

all_above-uses : (n : ℕ) (l : List ℕ) → all_above n l ≡ true → uses l n ≡ false
unfolding uses
all_above-uses n [] a = refl
all_above-uses n (m ∷ l) a = ground (arith, all_above-uses n l)

ascending-no_repeats : (l : List ℕ) → ascending l ≡ true → no_repeats l ≡ true
ascending-no_repeats [] a = refl
ascending-no_repeats (n ∷ l) a = ground (arith, ascending-no_repeats l, all_above-uses n l)

all_above-insert :
    (n k : ℕ) (v : Text) (slots : Map ℕ Text)
    → n + 1 ≤ k
    → all_above n (numbers slots) ≡ true
    → all_above n (numbers (insert k v slots)) ≡ true
unfolding insert
all_above-insert n k v [] h a = ground arith
all_above-insert n k v ((m, value) ∷ slots) h a = ground (arith, all_above-insert n k v slots h)

ascending-insert :
    (k : ℕ) (v : Text) (slots : Map ℕ Text)
    → ascending (numbers slots) ≡ true
    → ascending (numbers (insert k v slots)) ≡ true
unfolding insert
ascending-insert k v [] h = refl
ascending-insert k v ((n, value) ∷ slots) h = ground (
  arith,
  ascending-insert k v slots,
  all_above-insert n k v slots,
  all_above-lower k n (numbers slots),
)

number_special-Kept :
    (info : EntityInfo) (st : Numbering) (k : ℕ) (name : Text)
    → ascending (numbers st.slots) ≡ true
    → lookup k st.slots ≡ some name
    → (ascending (numbers (number_special info st).slots) ≡ true)
      × (lookup k (number_special info st).slots ≡ some name)
unfolding number_special
number_special-Kept info st k name a e = elim (Bool-cases (is_special info)) [
  | inr plain ↦ ground (arith, plain)
  | inl special ↦
      let n : ℕ = special_number st.slots st.used info.name in
      let once = ascending-no_repeats (numbers st.slots) a in
      (
        ground (arith, special, ascending-insert n info.name st.slots a),
        ground (
          arith,
          special,
          lookup-insert n k info.name st.slots,
          special_number-slot st.slots st.used info.name name once,
        ),
      )
]

number_specials-Kept :
    (entities : List EntityInfo) (st : Numbering) (k : ℕ) (name : Text)
    → ascending (numbers st.slots) ≡ true
    → lookup k st.slots ≡ some name
    → lookup k (number_specials entities st).slots ≡ some name
unfolding number_specials
number_specials-Kept [] st k name a e = e
number_specials-Kept (info ∷ entities) st k name a e =
    let next = number_special-Kept info st k name a e in
    number_specials-Kept entities (number_special info st) k name next.0 next.1

-- Let the slots stand in ascending order, as in a QMap. A number that is kept for a name stays with
-- this name, whatever entities the device lists.
pub slots_after-Kept :
    (slots : Map ℕ Text) (entities : List EntityInfo) (number : ℕ) (name : Text)
    → ascending (numbers slots) ≡ true
    → lookup number slots ≡ some name
    → lookup number (slots_after slots entities) ≡ some name
unfolding slots_after
slots_after-Kept slots entities number name a e =
    number_specials-Kept entities (record { slots = slots; used = []; ids = [] }) number name a e
