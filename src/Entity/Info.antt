-- ===== src/Entity/Info.antt =====
-- esphome.h, struct EntityInfo. Floats are 32-bit patterns; `kind` is the field `type`.
use homed_service_esphome.Prelude.{ℕ, Bool, false, List, [], ◌==◌, ◌&&◌}
use homed_service_esphome.Prelude.Text.{Text}
use homed_service_esphome.Proto.{ProtoField}

pub record EntityInfo : Type 0 where
  pub key : ℕ
  pub device_id : ℕ
  pub kind : Text
  pub name : Text
  pub icon : Text
  pub device_class : Text
  pub unit : Text
  pub state_class : Text
  pub accuracy_decimals : ℕ
  pub min_value : ℕ
  pub max_value : ℕ
  pub step : ℕ
  pub select_options : List Text
  pub light_options : List Text
  pub min_mireds : ℕ
  pub max_mireds : ℕ
  pub supports_position : Bool
  pub supports_tilt : Bool
  pub climate_modes : List Text
  pub climate_fan_modes : List Text
  pub climate_presets : List Text
  pub climate_supports_action : Bool
  pub toggle_category : Bool

-- `EntityInfo info = {};`
abbrev pub no_info : EntityInfo
no_info = record {
  key = 0;
  device_id = 0;
  kind = "";
  name = "";
  icon = "";
  device_class = "";
  unit = "";
  state_class = "";
  accuracy_decimals = 0;
  min_value = 0;
  max_value = 0;
  step = 0;
  select_options = [];
  light_options = [];
  min_mireds = 0;
  max_mireds = 0;
  supports_position = false;
  supports_tilt = false;
  climate_modes = [];
  climate_fan_modes = [];
  climate_presets = [];
  climate_supports_action = false;
  toggle_category = false;
}

-- `f.field() == n && f.wireType() == w`
abbrev pub holds : ProtoField → ℕ → ℕ → Bool
holds f n w = f.field == n && f.wire_type == w
