-- ===== src/Climate/Tables.antt =====
-- Each table together with its reverse.
use homed_service_esphome.Prelude.{
  ℕ, suc, ◌≤◌, ◌<◌, ◌≡◌, refl, ◌≢◌, Option, some, none, arith, true, Option-cases, inl, inr, zero,
  List, [], ◌∷◌, length, if◌then◌else◌, ◌∙◌,
}
use homed_service_esphome.Prelude.Bits.{agree_below, eq_of_agree_below}
use homed_service_esphome.Prelude.Text.{Text, text_eq, index_of}
use homed_service_esphome.Climate.{
  climate_mode_name, climate_fan_mode_name, climate_preset_name, climate_mode_value,
  climate_fan_mode_value, climate_preset_value, mode_names, fan_mode_names, preset_names,
}
use native.Mathlib.Decide.{dec_lt}
use text.Mathlib.TextEquality.{eq_iff}

-- The numbers with a name are looked up to themselves, and what is looked up has the name.
abbrev pub Inverse : (ℕ → Text) → (Text → Option ℕ) → Type 0
Inverse name value =
    ((v : ℕ) → name v ≢ "" → value (name v) ≡ some v)
    × ((t : Text) (v : ℕ) → value t ≡ some v → name v ≡ t)

abbrev code_of : Option ℕ → ℕ
code_of none = 0
code_of (some v) = suc v

code_of-some : (o : Option ℕ) (v : ℕ) → code_of o ≡ suc v → o ≡ some v
code_of-some none v e = absurd (omega arith)
code_of-some (some w) v e = ground arith

-- A table of `n` names is checked by evaluation.
value-name :
    (name : ℕ → Text) (value : Text → Option ℕ) (n : ℕ)
    → agree_below (λ v. code_of (value (name v))) suc n ≡ true
    → ((v : ℕ) → n ≤ v → name v ≡ "")
    → (v : ℕ) → name v ≢ ""
    → value (name v) ≡ some v
value-name name value n table beyond v h = elim (dec_lt v n) [
  | yes p ↦ code_of-some _ v (eq_of_agree_below (λ v. code_of (value (name v))) suc n table v p)
  | no p ↦ absurd (h (beyond v (omega arith)))
]

mode_table : agree_below (λ v. code_of (climate_mode_value (climate_mode_name v))) suc 7 ≡ true
unfolding agree_below index_of climate_mode_value climate_mode_name
mode_table = refl

fan_mode_table :
    agree_below (λ v. code_of (climate_fan_mode_value (climate_fan_mode_name v))) suc 10 ≡ true
unfolding agree_below index_of climate_fan_mode_value climate_fan_mode_name
fan_mode_table = refl

preset_table :
    agree_below (λ v. code_of (climate_preset_value (climate_preset_name v))) suc 8 ≡ true
unfolding agree_below index_of climate_preset_value climate_preset_name
preset_table = refl

mode_beyond : (v : ℕ) → 7 ≤ v → climate_mode_name v ≡ ""
unfolding climate_mode_name
mode_beyond v h = ground arith

fan_mode_beyond : (v : ℕ) → 10 ≤ v → climate_fan_mode_name v ≡ ""
unfolding climate_fan_mode_name
fan_mode_beyond v h = ground arith

preset_beyond : (v : ℕ) → 8 ≤ v → climate_preset_name v ≡ ""
unfolding climate_preset_name
preset_beyond v h = ground arith

abbrev pub nth : List Text → ℕ → Text
nth [] v = ""
nth (s ∷ l) zero = s
nth (s ∷ l) (suc v) = nth l v

pub nth-index_of :
    (l : List Text) (t : Text) (v : ℕ) → index_of l t ≡ some v → (v < length l) × (nth l v ≡ t)
unfolding index_of
nth-index_of [] t v e = cc
nth-index_of (s ∷ l) t zero e = elim (Option-cases (index_of l t)) [
  | inl miss ↦ ground (arith, eq_iff s t)
  | inr (i, hit) ↦ ground (arith, eq_iff s t)
]
nth-index_of (s ∷ l) t (suc v) e = elim (Option-cases (index_of l t)) [
  | inl miss ↦ ground (arith, eq_iff s t)
  | inr (i, hit) ↦ ground (arith, eq_iff s t, nth-index_of l t v)
]

abbrev agrees : Text → Text → ℕ
agrees s t = if text_eq s t then 1 else 0

-- A list with the names of the first numbers is checked by evaluation.
name-value :
    (name : ℕ → Text) (l : List Text)
    → agree_below (λ v. agrees (name v) (nth l v)) (λ v. 1) (length l) ≡ true
    → (t : Text) (v : ℕ) → index_of l t ≡ some v
    → name v ≡ t
name-value name l table t v e =
    let (within, found) = nth-index_of l t v e in
    let checked : agrees (name v) (nth l v) ≡ 1 =
      eq_of_agree_below (λ v. agrees (name v) (nth l v)) (λ v. 1) (length l) table v within in
    (eq_iff (name v) (nth l v)).0 (ground arith) ∙ found

mode_names_table :
    agree_below (λ v. agrees (climate_mode_name v) (nth mode_names v)) (λ v. 1) 7 ≡ true
unfolding agree_below climate_mode_name
mode_names_table = refl

fan_mode_names_table :
    agree_below (λ v. agrees (climate_fan_mode_name v) (nth fan_mode_names v)) (λ v. 1) 10 ≡ true
unfolding agree_below climate_fan_mode_name
fan_mode_names_table = refl

preset_names_table :
    agree_below (λ v. agrees (climate_preset_name v) (nth preset_names v)) (λ v. 1) 8 ≡ true
unfolding agree_below climate_preset_name
preset_names_table = refl

tables_Inverse :
    Inverse climate_mode_name climate_mode_value
    × Inverse climate_fan_mode_name climate_fan_mode_value
    × Inverse climate_preset_name climate_preset_value
unfolding climate_mode_value climate_fan_mode_value climate_preset_value
tables_Inverse = (
  (
    value-name climate_mode_name climate_mode_value 7 mode_table mode_beyond,
    name-value climate_mode_name mode_names mode_names_table,
  ),
  (
    value-name climate_fan_mode_name climate_fan_mode_value 10 fan_mode_table fan_mode_beyond,
    name-value climate_fan_mode_name fan_mode_names fan_mode_names_table,
  ),
  (
    value-name climate_preset_name climate_preset_value 8 preset_table preset_beyond,
    name-value climate_preset_name preset_names preset_names_table,
  ),
)

-- The three pairs of tables.
pub data Table : Type 0 where
  modes fan_modes presets : Table

abbrev pub name_of : Table → ℕ → Text
name_of modes = climate_mode_name
name_of fan_modes = climate_fan_mode_name
name_of presets = climate_preset_name

abbrev pub value_of : Table → Text → Option ℕ
value_of modes = climate_mode_value
value_of fan_modes = climate_fan_mode_value
value_of presets = climate_preset_value

-- For modes, fan modes and presets alike: a number that has a name is found again by its name.
pub value_of-name_of :
    (table : Table) (v : ℕ) → name_of table v ≢ "" → value_of table (name_of table v) ≡ some v
value_of-name_of modes = tables_Inverse.0.0
value_of-name_of fan_modes = tables_Inverse.1.0
value_of-name_of presets = tables_Inverse.2.0

-- For modes, fan modes and presets alike: a text that is looked up to a number is that number's
-- name.
pub name_of-value_of :
    (table : Table) (t : Text) (v : ℕ) → value_of table t ≡ some v → name_of table v ≡ t
name_of-value_of modes = tables_Inverse.0.1
name_of-value_of fan_modes = tables_Inverse.1.1
name_of-value_of presets = tables_Inverse.2.1
