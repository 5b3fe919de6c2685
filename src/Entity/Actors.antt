-- ===== src/Entity/Actors.antt =====
-- processEntityInfo's cases for switches, covers, lights, climates and locks.
use homed_service_esphome.Prelude.{
  ℕ, ◌%◌, ◌^◌, not, List, [], ◌∷◌, ◌++◌, ◌==◌, ◌||◌, leb, if◌then◌else◌,
}
use homed_service_esphome.Prelude.Text.{Text, append_new, is_empty}
use homed_service_esphome.Qt.{Qt}
use homed_service_esphome.Proto.{ProtoField, boolean, fixed32}
use homed_service_esphome.Entity.Info.{EntityInfo, holds}
use homed_service_esphome.Climate.{climate_mode_name, climate_fan_mode_name, climate_preset_name}

-- The lists of capabilities that one supported_color_mode adds to.
unfoldable pub color_mode_options : List Text → ℕ → List Text
color_mode_options options mode =
    let with_level = if leb 3 mode then append_new options "level" else options in
    let with_temperature =
      if mode == 11 || mode == 47 then append_new with_level "colorTemperature" else with_level in
    if mode == 35 || mode == 39 || mode == 47 || mode == 51
    then append_new with_temperature "color"
    else with_temperature

-- `if (!mode.isEmpty() && !modes.contains(mode)) modes.append(mode);`
abbrev pub append_named : List Text → Text → List Text
append_named modes mode = if not (is_empty mode) then append_new modes mode else modes

unfoldable pub switch_field : Qt → EntityInfo → ProtoField → EntityInfo
switch_field qt info f =
    if holds f 2 5
    then record info { key = fixed32 f }
    else if holds f 5 2
    then record info { icon = qt.from_utf8 f.raw }
    else if holds f 8 0
    then record info { toggle_category = f.varint == 1 || f.varint == 2 }
    else if holds f 9 2
    then record info { device_class = qt.from_utf8 f.raw }
    else if holds f 10 0
    then record info { device_id = f.varint % 2 ^ 32 }
    else info

unfoldable pub cover_field : Qt → EntityInfo → ProtoField → EntityInfo
cover_field qt info f =
    if holds f 2 5
    then record info { key = fixed32 f }
    else if holds f 6 0
    then record info { supports_position = boolean f }
    else if holds f 7 0
    then record info { supports_tilt = boolean f }
    else if holds f 8 2
    then record info { device_class = qt.from_utf8 f.raw }
    else if holds f 10 2
    then record info { icon = qt.from_utf8 f.raw }
    else if holds f 13 0
    then record info { device_id = f.varint % 2 ^ 32 }
    else info

unfoldable pub light_field : Qt → EntityInfo → ProtoField → EntityInfo
light_field qt info f =
    if holds f 2 5
    then record info { key = fixed32 f }
    else if holds f 9 5
    then record info { min_mireds = f.float_val }
    else if holds f 10 5
    then record info { max_mireds = f.float_val }
    else if holds f 14 2
    then record info { icon = qt.from_utf8 f.raw }
    else if holds f 16 0
    then record info { device_id = f.varint % 2 ^ 32 }
    else if holds f 12 0
    then record info { light_options = color_mode_options info.light_options f.varint }
    else info

unfoldable pub climate_field : Qt → EntityInfo → ProtoField → EntityInfo
climate_field qt info f =
    if holds f 2 5
    then record info { key = fixed32 f }
    else if holds f 19 2
    then record info { icon = qt.from_utf8 f.raw }
    else if holds f 26 0
    then record info { device_id = f.varint % 2 ^ 32 }
    else if holds f 7 0
    then record info {
      climate_modes = append_named info.climate_modes (climate_mode_name f.varint);
    }
    else if holds f 8 5
    then record info { min_value = f.float_val }
    else if holds f 9 5
    then record info { max_value = f.float_val }
    else if holds f 10 5
    then record info { step = f.float_val }
    else if holds f 12 0
    then record info { climate_supports_action = boolean f }
    else if holds f 13 0
    then record info {
      climate_fan_modes = append_named info.climate_fan_modes (climate_fan_mode_name f.varint);
    }
    else if holds f 15 2
    then record info { climate_fan_modes = info.climate_fan_modes ++ (qt.from_utf8 f.raw ∷ []) }
    else if holds f 16 0
    then record info {
      climate_presets = append_named info.climate_presets (climate_preset_name f.varint);
    }
    else if holds f 17 2
    then record info { climate_presets = info.climate_presets ++ (qt.from_utf8 f.raw ∷ []) }
    else info

unfoldable pub lock_field : Qt → EntityInfo → ProtoField → EntityInfo
lock_field qt info f =
    if holds f 2 5
    then record info { key = fixed32 f }
    else if holds f 5 2
    then record info { icon = qt.from_utf8 f.raw }
    else if holds f 12 0
    then record info { device_id = f.varint % 2 ^ 32 }
    else info
