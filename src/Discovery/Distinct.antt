-- ===== src/Discovery/Distinct.antt =====
-- The first loop over the entities: the range and the repetition of the numbers that it gives.
use homed_service_esphome.Prelude.{
  ℕ, ◌+◌, ◌≤◌, ◌%◌, ◌^◌, ◌≡◌, refl, true, false, ◌||◌, List, arith, ◌==◌, length, Bool-cases, inl,
  inr,
}
use homed_service_esphome.Prelude.Text.{Text}
use homed_service_esphome.Prelude.Maps.{Map, has, lookup-insert, nat_key}
use homed_service_esphome.Entity.Info.{EntityInfo}
use homed_service_esphome.Discovery.Slots.{
  is_special, uses, slot_of, next_free, taken_slot, special_number, Numbering, number_special,
}
use homed_service_esphome.Discovery.Fresh.{count_from_le, IsFound, next_free-IsFound}
use homed_service_esphome.Discovery.Numbers.{
  no_repeats, in_range, zeros, numbers, length-numbers, uses-numbers, uses-append,
  no_repeats-append, zeros-append, length-insert, slot_of-free,
}

-- The state between two rounds of the first loop, with `left` entities to come.
pub record IsNumbered (left : ℕ) (st : Numbering) : Type 0 where
  pub known : (k : ℕ) → uses st.used k ≡ true → has k st.slots ≡ true
  pub range : (k : ℕ) → has k st.slots ≡ true → in_range k ≡ true
  pub ids_used : (k : ℕ) → uses st.ids k ≡ true → (k == 0 || uses st.used k) ≡ true
  pub ids_once : no_repeats st.ids ≡ true
  pub room : length st.slots + left ≤ 255
  pub total : length st.used + zeros st.ids + left ≤ 255

module _ (slots : Map ℕ Text) (used : List ℕ) (name : Text) where
  fresh_number :
      ((k : ℕ) → uses used k ≡ true → has k slots ≡ true)
      → IsFound
          (taken_slot slots used)
          (numbers slots)
          1
          (next_free (length slots + length used) (taken_slot slots used) 1)
  fresh_number known =
      next_free-IsFound (length slots + length used) (taken_slot slots used) (numbers slots) 1
        (λ k t. ground (arith, uses-numbers slots k, known k))
        (omega (arith, count_from_le 1 (numbers slots), length-numbers slots))

  special_number-free :
      ((k : ℕ) → uses used k ≡ true → has k slots ≡ true)
      → uses used (special_number slots used name) ≡ false
  unfolding special_number
  special_number-free known =
      ground (arith, slot_of-free slots name used, (fresh_number known).free)

  special_number-in_range :
      ((k : ℕ) → uses used k ≡ true → has k slots ≡ true)
      → ((k : ℕ) → has k slots ≡ true → in_range k ≡ true)
      → length slots + 1 ≤ 255
      → in_range (special_number slots used name) ≡ true
  unfolding special_number
  special_number-in_range known range room =
      let found = fresh_number known in
      ground (
        arith,
        slot_of-free slots name used,
        range (slot_of slots name used),
        found.above,
        found.close,
        count_from_le 1 (numbers slots),
        length-numbers slots,
      )

pub number_special-IsNumbered :
    (left : ℕ) (info : EntityInfo) (st : Numbering)
    → IsNumbered (left + 1) st
    → IsNumbered left (number_special info st)
unfolding number_special uses
number_special-IsNumbered left info st i =
    let n : ℕ = special_number st.slots st.used info.name in
    let free = special_number-free st.slots st.used info.name i.known in
    let ranged =
      special_number-in_range st.slots st.used info.name i.known i.range (omega (arith, i.room)) in
    elim (Bool-cases (is_special info)) [
      | inl e ↦
          rw (number_special, e)
            (record {
              known = λ k h. ground (arith, i.known k, lookup-insert n k info.name st.slots);
              range =
                  λ k h. ground (arith, i.range k, ranged, lookup-insert n k info.name st.slots);
              ids_used =
                  λ k h. ground (arith, i.ids_used k, ranged, uses-append st.ids (n % 2 ^ 8) k);
              ids_once =
                  ground (arith, no_repeats-append st.ids n i.ids_once, ranged, i.ids_used n, free);
              room = omega (arith, i.room, length-insert n info.name st.slots);
              total = ground (arith, i.total, ranged, zeros-append st.ids (n % 2 ^ 8));
            })
      | inr e ↦
          rw (number_special, e)
            (record {
              known = i.known;
              range = i.range;
              ids_used = λ k h. ground (arith, i.ids_used k, uses-append st.ids 0 k);
              ids_once = no_repeats-append st.ids 0 i.ids_once refl;
              room = omega (arith, i.room);
              total = ground (arith, i.total, zeros-append st.ids 0);
            })
    ]
