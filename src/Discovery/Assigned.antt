-- ===== src/Discovery/Assigned.antt =====
-- The second loop over the entities, and the ids that come out of both.
use homed_service_esphome.Prelude.{
  ℕ, suc, ◌+◌, ◌≤◌, ◌%◌, ◌^◌, ◌≡◌, refl, Bool-cases, inl, inr, Bool, true, not, ◌&&◌, ◌||◌, List,
  [], ◌∷◌, arith, ◌==◌, length, length-append,
}
use homed_service_esphome.Prelude.Text.{Text}
use homed_service_esphome.Prelude.Maps.{Map, nat_key}
use homed_service_esphome.Entity.Info.{EntityInfo}
use homed_service_esphome.Discovery.Slots.{
  uses, next_free, special_number, Numbering, number_special, number_specials, number_rest,
  specials_of, endpoint_ids,
}
use homed_service_esphome.Discovery.Fresh.{
  count_from, count_from_le, count_from_mono, IsFound, next_free-IsFound,
}
use homed_service_esphome.Discovery.Numbers.{no_repeats, in_range, zeros, numbers, uses-numbers}
use homed_service_esphome.Discovery.Distinct.{IsNumbered, number_special-IsNumbered}

abbrev pub all_in_range : List ℕ → Bool
all_in_range [] = true
all_in_range (n ∷ l) = in_range n && all_in_range l

all_in_range-uses :
    (l : List ℕ) (k : ℕ) → all_in_range l ≡ true → uses l k ≡ true → in_range k ≡ true
unfolding uses
all_in_range-uses [] k h u = absurd (ground arith)
all_in_range-uses (n ∷ l) k h u = ground (arith, all_in_range-uses l k)

fewer_left : {n : ℕ} {st : Numbering} → IsNumbered (suc n) st → IsNumbered (n + 1) st
fewer_left i = record {
  known = i.known;
  range = i.range;
  ids_used = i.ids_used;
  ids_once = i.ids_once;
  room = omega (arith, i.room);
  total = omega (arith, i.total);
}

number_specials-IsNumbered :
    (entities : List EntityInfo) (st : Numbering)
    → IsNumbered (length entities) st
    → IsNumbered 0 (number_specials entities st)
unfolding number_specials
number_specials-IsNumbered [] st i = i
number_specials-IsNumbered (info ∷ entities) st i =
    number_specials-IsNumbered entities (number_special info st)
      (number_special-IsNumbered (length entities) info st (fewer_left i))

length-number_specials :
    (entities : List EntityInfo) (st : Numbering)
    → length (number_specials entities st).ids ≡ length st.ids + length entities
unfolding number_specials number_special
length-number_specials [] st = omega arith
length-number_specials (info ∷ entities) st =
    let n : ℕ = special_number st.slots st.used info.name in
    ground (
      arith,
      length-number_specials entities (number_special info st),
      length-append st.ids (0 ∷ []),
      length-append st.ids (n % 2 ^ 8 ∷ []),
    )

length-number_rest :
    (ids used : List ℕ) (next : ℕ) → length (number_rest ids used next) ≡ length ids
unfolding number_rest
length-number_rest [] used next = refl
length-number_rest (id ∷ ids) used next =
    let n : ℕ = next_free (length used) (uses used) next in
    ground (arith, length-number_rest ids used next, length-number_rest ids (n ∷ used) (n + 1))

-- What the second loop makes of the numbers of the first.
record IsAssigned (ids used r : List ℕ) : Type 0 where
  origin : (k : ℕ) → uses r k ≡ true → ((uses ids k && not (k == 0)) || not (uses used k)) ≡ true
  once : no_repeats r ≡ true
  range : all_in_range r ≡ true

next_number :
    (used : List ℕ) (next : ℕ)
    → IsFound (uses used) used next (next_free (length used) (uses used) next)
next_number used next =
    next_free-IsFound (length used) (uses used) used next (λ k h. h) (count_from_le next used)

number_rest-IsAssigned :
    (ids used : List ℕ) (next : ℕ)
    → ((k : ℕ) → uses ids k ≡ true → (k == 0 || (uses used k && in_range k)) ≡ true)
    → no_repeats ids ≡ true
    → 1 ≤ next
    → next + count_from next used + zeros ids ≤ 256
    → IsAssigned ids used (number_rest ids used next)
unfolding number_rest uses count_from
number_rest-IsAssigned [] used next known once hn bound = record {
  origin = λ k h. absurd (ground arith);
  once = refl;
  range = refl;
}
number_rest-IsAssigned (id ∷ ids) used next known once hn bound = elim (Bool-cases (id == 0)) [
  | inr e ↦
      let rest =
        number_rest-IsAssigned ids used next (λ k h. ground (arith, known k)) (ground arith) hn
          (ground arith) in
      rw (number_rest, e)
        (record {
          origin = λ k h. ground (arith, rest.origin k);
          once = ground (arith, rest.origin id, rest.once, known id);
          range = ground (arith, rest.range, known id);
        })
  | inl e ↦
      let n : ℕ = next_free (length used) (uses used) next in
      let found = next_number used next in
      let small : n ≤ 255 = ground (arith, found.close) in
      let same : n % 2 ^ 8 ≡ n = omega (arith, small) in
      let rest =
        number_rest-IsAssigned ids (n ∷ used) (n + 1) (λ k h. ground (arith, known k))
          (ground arith) (omega arith) (ground (arith, found.close, count_from_mono n used)) in
      rw (number_rest, e, same)
        (record {
          origin = λ k h. ground (arith, rest.origin k, found.free);
          once = ground (arith, rest.origin n, rest.once, known n, found.free);
          range = ground (arith, rest.range, small, found.above);
        })
]

-- Let the numbers of the slots that a device keeps be from 1 to 255, and let slots and entities be
-- 255 at most together. Then every entity gets an endpoint id from 1 to 255, and no two entities get
-- the same id.
pub endpoint_ids-Distinct :
    (slots : Map ℕ Text) (entities : List EntityInfo)
    → all_in_range (numbers slots) ≡ true
    → length slots + length entities ≤ 255
    → (length (endpoint_ids slots entities) ≡ length entities)
      × (all_in_range (endpoint_ids slots entities) ≡ true)
      × (no_repeats (endpoint_ids slots entities) ≡ true)
unfolding endpoint_ids uses
endpoint_ids-Distinct slots entities h bound =
    let st : Numbering = specials_of slots entities in
    let i =
      number_specials-IsNumbered entities (record { slots = slots; used = []; ids = [] })
        (record {
          known = λ k u. absurd (ground arith);
          range = λ k u. all_in_range-uses (numbers slots) k h (rw (uses-numbers slots k) u);
          ids_used = λ k u. absurd (ground arith);
          ids_once = refl;
          room = bound;
          total = omega (arith, bound);
        }) in
    let out =
      number_rest-IsAssigned st.ids st.used 1
        (λ k u. ground (arith, i.ids_used k, i.known k, i.range k)) i.ids_once (omega arith)
        (omega (arith, count_from_le 1 st.used, i.total)) in
    let start : Numbering = record { slots = slots; used = []; ids = [] } in
    (
      omega (arith, length-number_rest st.ids st.used 1, length-number_specials entities start),
      out.range,
      out.once,
    )
