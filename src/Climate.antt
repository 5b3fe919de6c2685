-- ===== src/Climate.antt =====
-- esphome.cpp, the tables of climate modes, fan modes and presets, and their reverses.
pub mod Tables
use homed_service_esphome.Prelude.{
  ℕ, ◌≡◌, Bool, true, false, not, ◌&&◌, List, [], ◌∷◌, Option, ◌==◌, if◌then◌else◌,
}
use homed_service_esphome.Prelude.Text.{Text, index_of}

-- `switch (value)`; the default is the null text.
unfoldable pub climate_mode_name : ℕ → Text
climate_mode_name value =
    if value == 0
    then "off"
    else if value == 1
    then "heat_cool"
    else if value == 2
    then "cool"
    else if value == 3
    then "heat"
    else if value == 4
    then "fan"
    else if value == 5
    then "dry"
    else if value == 6
    then "auto"
    else ""

unfoldable pub climate_fan_mode_name : ℕ → Text
climate_fan_mode_name value =
    if value == 0
    then "on"
    else if value == 1
    then "off"
    else if value == 2
    then "auto"
    else if value == 3
    then "low"
    else if value == 4
    then "medium"
    else if value == 5
    then "high"
    else if value == 6
    then "middle"
    else if value == 7
    then "focus"
    else if value == 8
    then "diffuse"
    else if value == 9
    then "quiet"
    else ""

unfoldable pub climate_preset_name : ℕ → Text
climate_preset_name value =
    if value == 0
    then "none"
    else if value == 1
    then "home"
    else if value == 2
    then "away"
    else if value == 3
    then "boost"
    else if value == 4
    then "comfort"
    else if value == 5
    then "eco"
    else if value == 6
    then "sleep"
    else if value == 7
    then "activity"
    else ""

unfoldable pub climate_action_running : ℕ → Bool
climate_action_running value = not (value == 0) && not (value == 4)

-- The static lists of names; `none` stands for the -1 of indexOf.
abbrev pub mode_names : List Text
mode_names = "off" ∷ "heat_cool" ∷ "cool" ∷ "heat" ∷ "fan" ∷ "dry" ∷ "auto" ∷ []

abbrev pub fan_mode_names : List Text
fan_mode_names =
    "on" ∷ "off" ∷ "auto" ∷ "low" ∷ "medium" ∷ "high" ∷ "middle" ∷ "focus" ∷ "diffuse" ∷ "quiet"
    ∷ []

abbrev pub preset_names : List Text
preset_names = "none" ∷ "home" ∷ "away" ∷ "boost" ∷ "comfort" ∷ "eco" ∷ "sleep" ∷ "activity" ∷ []

unfoldable pub climate_mode_value : Text → Option ℕ
climate_mode_value = index_of mode_names

unfoldable pub climate_fan_mode_value : Text → Option ℕ
climate_fan_mode_value = index_of fan_mode_names

unfoldable pub climate_preset_value : Text → Option ℕ
climate_preset_value = index_of preset_names
