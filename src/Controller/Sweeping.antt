-- ===== src/Controller/Sweeping.antt =====
-- Lists from which elements are removed by index: what removeDevice does to the list of devices.
use homed_service_esphome.Prelude.{
  ℕ, zero, suc, ◌≡◌, refl, sym, ap, ◌∙◌, Bool, List, [], ◌∷◌, none, some, arith, ◌||◌, Bool-cases,
  inl, inr, All, ◌==◌, ==_iff, length, if◌then◌else◌,
}
use homed_service_esphome.Prelude.Maps.{text_key}
use homed_service_esphome.Device.{DeviceObject}
use homed_service_esphome.Controller.Commands.{id_at, remove_at, position}
use homed_service_esphome.Controller.Registry.{AreDistinct, HasOther}

-- The elements of which the test does not hold, in their order.
abbrev pub without : (ℕ → Bool) → List ℕ → List ℕ
without removed [] = []
without removed (id ∷ ids) =
    let rest = without removed ids in if removed id then rest else id ∷ rest

module _ (removed : ℕ → Bool) where
  -- The loop that removes by index, from the last one down.
  abbrev pub sweep_at : ℕ → List ℕ → List ℕ
  sweep_at i ids = elim (id_at i ids) [
    | none ↦ ids
    | some id ↦ if removed id then remove_at i ids else ids
  ]

  unfoldable pub sweep : ℕ → List ℕ → List ℕ
  sweep zero ids = ids
  sweep (suc i) ids = sweep i (sweep_at i ids)

  pub sweep_at-none : (i : ℕ) (ids : List ℕ) → id_at i ids ≡ none → sweep_at i ids ≡ ids
  sweep_at-none i ids e = ground (arith, e)

  pub sweep_at-some :
      (i : ℕ) (ids : List ℕ) (id : ℕ)
      → id_at i ids ≡ some id
      → sweep_at i ids ≡ (if removed id then remove_at i ids else ids)
  sweep_at-some i ids id e = ground (arith, e)

  sweep_at-suc : (i id : ℕ) (ids : List ℕ) → sweep_at (suc i) (id ∷ ids) ≡ id ∷ sweep_at i ids
  unfolding id_at remove_at
  sweep_at-suc i id ids = ground arith

  sweep-cons :
      (n id : ℕ) (ids : List ℕ)
      → sweep (suc n) (id ∷ ids) ≡ (if removed id then sweep n ids else id ∷ sweep n ids)
  unfolding sweep id_at remove_at
  sweep-cons zero id ids = ground arith
  sweep-cons (suc n) id ids =
      ap (λ l. sweep (suc n) l) (sweep_at-suc n id ids) ∙ sweep-cons n id (sweep_at n ids)

  pub sweep-without : (ids : List ℕ) → sweep (length ids) ids ≡ without removed ids
  unfolding sweep
  sweep-without [] = refl
  sweep-without (id ∷ ids) = ground (arith, sweep-cons (length ids) id ids, sweep-without ids)

-- Both tests, one after the other.
pub without-without :
    (first second : ℕ → Bool) (ids : List ℕ)
    → without second (without first ids) ≡ without (λ id. first id || second id) ids
without-without first second [] = refl
without-without first second (id ∷ ids) = ground (arith, without-without first second ids)

module _ {Double : Type 0} (objects : ℕ → DeviceObject Double) where
  without_absent :
      (id : ℕ) (ids : List ℕ)
      → All (HasOther objects (objects id).host) ids
      → without (λ j. j == id) ids ≡ ids
  without_absent id [] h = refl
  without_absent id (j ∷ ids) (other, h) =
      ground (
        arith,
        without_absent id ids h,
        other,
        text_key.same_iff (objects j).host (objects id).host,
      )

  abbrev pub unlist_first : ℕ → List ℕ → List ℕ
  unlist_first id ids = elim (position id ids) [ none ↦ ids | some i ↦ remove_at i ids ]

  -- The first object with this number is the only one.
  pub unlist_first-without :
      (id : ℕ) (ids : List ℕ)
      → AreDistinct objects ids
      → unlist_first id ids ≡ without (λ j. j == id) ids
  unfolding position remove_at
  unlist_first-without id [] h = refl
  unlist_first-without id (j ∷ ids) (first, rest) = elim (Bool-cases (j == id)) [
    | inl e ↦ ground (arith, e, without_absent id ids (rw (sym ((==_iff j id).0 e)) first))
    | inr e ↦ ground (arith, e, unlist_first-without id ids rest)
  ]
