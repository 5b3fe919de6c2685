-- ===== src/Discovery/Fresh.antt =====
-- The search for a free number, `while (taken(number)) number++;`.
use homed_service_esphome.Prelude.{
  ℕ, zero, suc, ◌+◌, ◌≤◌, ◌≡◌, Bool, true, false, List, [], ◌∷◌, arith, leb, if◌then◌else◌, length,
  Bool-cases, inl, inr,
}
use homed_service_esphome.Discovery.Slots.{uses, next_free}

-- How many of the numbers are `n` or more.
unfoldable pub count_from : ℕ → List ℕ → ℕ
count_from n [] = 0
count_from n (m ∷ l) = let rest = count_from n l in if leb n m then rest + 1 else rest

pub count_from_le : (n : ℕ) (l : List ℕ) → count_from n l ≤ length l
unfolding count_from
count_from_le n [] = omega arith
count_from_le n (m ∷ l) = ground (arith, count_from_le n l)

pub count_from_mono : (n : ℕ) (l : List ℕ) → count_from (n + 1) l ≤ count_from n l
unfolding count_from
count_from_mono n [] = omega arith
count_from_mono n (m ∷ l) = ground (arith, count_from_mono n l)

count_from-uses : (n : ℕ) (l : List ℕ) → uses l n ≡ true → count_from (n + 1) l + 1 ≤ count_from n l
unfolding count_from uses
count_from-uses n [] h = absurd (ground arith)
count_from-uses n (m ∷ l) h = ground (arith, count_from-uses n l, count_from_mono n l)

-- What the search ends with.
pub record IsFound (taken : ℕ → Bool) (l : List ℕ) (n r : ℕ) : Type 0 where
  pub free : taken r ≡ false
  pub above : n ≤ r
  pub close : r + count_from r l ≤ n + count_from n l

-- Where every taken number is in a list, there is fuel enough for the numbers of the list from the
-- start on.
pub next_free-IsFound :
    (fuel : ℕ) (taken : ℕ → Bool) (l : List ℕ) (n : ℕ)
    → ((k : ℕ) → taken k ≡ true → uses l k ≡ true)
    → count_from n l ≤ fuel
    → IsFound taken l n (next_free fuel taken n)
unfolding next_free
next_free-IsFound zero taken l n covered h = elim (Bool-cases (taken n)) [
  | inl t ↦ record {
    free = ground (arith, count_from-uses n l (covered n t));
    above = omega arith;
    close = omega arith;
  }
  | inr t ↦ record { free = t; above = omega arith; close = omega arith }
]
next_free-IsFound (suc fuel) taken l n covered h = elim (Bool-cases (taken n)) [
  | inl t ↦
      let fewer = count_from-uses n l (covered n t) in
      let r = next_free-IsFound fuel taken l (n + 1) covered (omega (arith, fewer)) in
      rw (next_free, t)
        (record {
          free = r.free;
          above = omega (arith, r.above);
          close = omega (arith, r.close, fewer);
        })
  | inr t ↦ rw (next_free, t) (record { free = t; above = omega arith; close = omega arith })
]
