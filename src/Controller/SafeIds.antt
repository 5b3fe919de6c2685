-- ===== src/Controller/SafeIds.antt =====
-- haSafeId: the ids in Home Assistant's discovery topics.
use Prim.Native.Char.{Char, code}
use Prim.Native.String.{String}
use homed_service_esphome.Prelude.{
  ℕ, zero, suc, ◌≡◌, refl, Bool, ◌||◌, Option, none, some, arith, ◌==◌, Bool-cases, inl, inr,
  if◌then◌else◌,
}
use homed_service_esphome.Prelude.Text.{Text}
use homed_service_esphome.Qt.{Qt}
use homed_service_esphome.Controller.Topics.{ha_safe_id, is_safe}

-- The character at a position, if the text is long enough.
abbrev pub char_at : ℕ → Text → Option Char
char_at n String.[] = none
char_at zero (String.◌∷◌ c t) = some c
char_at (suc n) (String.◌∷◌ c t) = char_at n t

module _ (qt : Qt) where
  -- A letter or a number, as Qt knows them, or one of the two other characters.
  abbrev pub is_allowed : Char → Bool
  is_allowed c = code c == code "_" || code c == code "-" || qt.is_letter_or_number c

  -- An allowed character stays, and another one becomes an underscore.
  abbrev pub kept : Option Char → Option Char
  kept none = none
  kept (some c) = some (if is_allowed c then c else "_")

  safe-allowed : (c : Char) → is_safe qt c ≡ is_allowed c
  safe-allowed c = ground arith

  underscore_kept : kept (some "_") ≡ some "_"
  underscore_kept = refl

  kept-kept : (c : Option Char) → kept (kept c) ≡ kept c
  kept-kept none = refl
  kept-kept (some c) = elim (Bool-cases (is_allowed c)) [
    | inl e ↦ rw e (rw e refl)
    | inr e ↦ rw e refl
  ]

  char_at-ha_safe_id : (t : Text) (n : ℕ) → char_at n (ha_safe_id qt t) ≡ kept (char_at n t)
  unfolding ha_safe_id
  char_at-ha_safe_id String.[] n = refl
  char_at-ha_safe_id (String.◌∷◌ c t) zero = ground (arith, safe-allowed c)
  char_at-ha_safe_id (String.◌∷◌ c t) (suc n) = elim (Bool-cases (is_safe qt c)) [
    | inl e ↦ rw e (char_at-ha_safe_id t n)
    | inr e ↦ rw e (char_at-ha_safe_id t n)
  ]

  -- haSafeId of any text, at any position: a letter or number in Qt's sense, an underscore and a dash
  -- stay as they are, every other character is an underscore, and the text ends where it did. A
  -- second haSafeId changes nothing.
  pub ha_safe_id-safe :
      (t : Text) (n : ℕ)
      → (char_at n (ha_safe_id qt t) ≡ kept (char_at n t))
        × (char_at n (ha_safe_id qt (ha_safe_id qt t)) ≡ char_at n (ha_safe_id qt t))
  ha_safe_id-safe t n = (
    char_at-ha_safe_id t n,
    rw (char_at-ha_safe_id (ha_safe_id qt t) n, char_at-ha_safe_id t n) (kept-kept (char_at n t)),
  )
