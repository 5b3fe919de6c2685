-- ===== src/Discovery/Numbers.antt =====
-- Lists of numbers with and without repetition, and the numbers of a device's slots.
use homed_service_esphome.Prelude.{
  ℕ, suc, ◌+◌, ◌≤◌, ◌≡◌, refl, ap, Bool, true, not, ◌&&◌, ◌||◌, List, [], ◌∷◌, ◌++◌, arith, leb,
  ◌==◌, if◌then◌else◌, length,
}
use homed_service_esphome.Prelude.Text.{Text}
use homed_service_esphome.Prelude.Maps.{Map, insert, has, lookup, nat_key}
use homed_service_esphome.Discovery.Slots.{uses, slot_of}

-- No number but 0 stands twice in the list.
abbrev pub no_repeats : List ℕ → Bool
no_repeats [] = true
no_repeats (n ∷ l) = (n == 0 || not (uses l n)) && no_repeats l

abbrev pub in_range : ℕ → Bool
in_range n = leb 1 n && leb n 255

abbrev pub zeros : List ℕ → ℕ
zeros [] = 0
zeros (n ∷ l) = let rest = zeros l in if n == 0 then rest + 1 else rest

abbrev pub numbers : Map ℕ Text → List ℕ
numbers [] = []
numbers ((n, name) ∷ slots) = n ∷ numbers slots

pub length-numbers : (slots : Map ℕ Text) → length (numbers slots) ≡ length slots
length-numbers [] = refl
length-numbers ((n, name) ∷ slots) = ap suc (length-numbers slots)

pub uses-numbers : (slots : Map ℕ Text) (k : ℕ) → uses (numbers slots) k ≡ has k slots
unfolding uses lookup
uses-numbers [] k = refl
uses-numbers ((n, name) ∷ slots) k = ground (arith, uses-numbers slots k)

pub uses-append : (l : List ℕ) (n k : ℕ) → uses (l ++ (n ∷ [])) k ≡ (uses l k || n == k)
unfolding uses
uses-append [] n k = ground arith
uses-append (m ∷ l) n k = ground (arith, uses-append l n k)

pub no_repeats-append :
    (l : List ℕ) (n : ℕ)
    → no_repeats l ≡ true
    → (n == 0 || not (uses l n)) ≡ true
    → no_repeats (l ++ (n ∷ [])) ≡ true
unfolding uses
no_repeats-append [] n h f = ground arith
no_repeats-append (m ∷ l) n h f = ground (arith, no_repeats-append l n, uses-append l n m)

pub zeros-append :
    (l : List ℕ) (n : ℕ) → zeros (l ++ (n ∷ [])) ≡ zeros l + (if n == 0 then 1 else 0)
zeros-append [] n = ground arith
zeros-append (m ∷ l) n = ground (arith, zeros-append l n)

pub length-insert : (k : ℕ) (v : Text) (m : Map ℕ Text) → length (insert k v m) ≤ length m + 1
unfolding insert
length-insert k v [] = omega arith
length-insert k v ((j, w) ∷ m) = ground (arith, length-insert k v m)

pub slot_of-free :
    (slots : Map ℕ Text) (name : Text) (used : List ℕ)
    → (slot_of slots name used == 0
        || (has (slot_of slots name used) slots && not (uses used (slot_of slots name used))))
      ≡ true
unfolding slot_of lookup
slot_of-free [] name used = refl
slot_of-free ((n, value) ∷ slots) name used = ground (arith, slot_of-free slots name used)
