-- ===== src/StateUpdate/Reading.antt =====
-- processStateUpdate up to the search for the endpoint: the loop over the fields, and the values
-- that proto3 leaves out.
use homed_service_esphome.Prelude.{ℕ, Bool, false, not, ◌&&◌, List, [], ◌==◌, if◌then◌else◌}
use homed_service_esphome.Prelude.Text.{Text, is_empty}
use homed_service_esphome.Prelude.Maps.{insert, has, text_key}
use homed_service_esphome.Qt.{Qt}
use homed_service_esphome.MsgType
use homed_service_esphome.Proto.{ProtoField, boolean, fixed32}
use homed_service_esphome.Entity.Info.{holds}
use homed_service_esphome.Climate.{
  climate_mode_name, climate_fan_mode_name, climate_preset_name, climate_action_running,
}
use homed_service_esphome.Device.{
  Value, bool_value, text_value, int_value, ulonglong_value, double_value, StateMap,
}
use mathlib.Core.List.{foldl}

pub record Reading (Double : Type 0) : Type 0 where
  pub key : ℕ
  pub state : StateMap Double

module _ (qt : Qt) where
  open qt use {Double, from_utf8, float_mul, int_of_float, double_of_float}

  abbrev pub State : Type 0
  State = StateMap Double

  abbrev on_off : Bool → Value Double
  on_off b = text_value (if b then "on" else "off")

  abbrev double_field : Text → ProtoField → State → State
  double_field key f = insert key (double_value (double_of_float f.float_val))

  -- 255.0f
  unfoldable pub light_state : ProtoField → State → State
  light_state f state =
      if holds f 2 0
      then insert "status" (on_off (boolean f)) state
      else if holds f 3 5
      then insert "level" (int_value (int_of_float (float_mul f.float_val 0x437f0000))) state
      else if holds f 4 5
      then double_field "_r" f state
      else if holds f 5 5
      then double_field "_g" f state
      else if holds f 6 5
      then double_field "_b" f state
      else if holds f 8 5
      then insert "colorTemperature" (int_value (int_of_float f.float_val)) state
      else state

  unfoldable pub cover_state : ProtoField → State → State
  cover_state f state =
      if holds f 2 0
      then insert "_legacyState" (ulonglong_value f.varint) state
      else if holds f 3 5
      then double_field "_position" f state
      else state

  -- A custom fan mode or preset that is empty is passed over.
  unfoldable pub climate_state : ProtoField → State → State
  climate_state f state =
      if holds f 2 0
      then insert "systemMode" (text_value (climate_mode_name f.varint)) state
      else if holds f 3 5
      then double_field "temperature" f state
      else if holds f 4 5
      then double_field "targetTemperature" f state
      else if holds f 8 0
      then insert "running" (bool_value (climate_action_running f.varint)) state
      else if holds f 9 0
      then insert "fanMode" (text_value (climate_fan_mode_name f.varint)) state
      else if holds f 11 2 && not (is_empty (from_utf8 f.raw))
      then insert "fanMode" (text_value (from_utf8 f.raw)) state
      else if holds f 12 0
      then insert "operationMode" (text_value (climate_preset_name f.varint)) state
      else if holds f 13 2 && not (is_empty (from_utf8 f.raw))
      then insert "operationMode" (text_value (from_utf8 f.raw)) state
      else state

  -- `switch (type)` in the loop
  unfoldable pub typed_state : ℕ → ProtoField → State → State
  typed_state type f state =
      if type == MsgType.state_switch
      then if holds f 2 0 then insert "_switchState" (on_off (boolean f)) state else state
      else if type == MsgType.state_binary
      then if holds f 2 0 then insert "_state" (bool_value (boolean f)) state else state
      else if type == MsgType.state_sensor
      then if holds f 2 5 then double_field "_state" f state else state
      else if type == MsgType.state_text_sensor
      then if holds f 2 2 then insert "_state" (text_value (from_utf8 f.raw)) state else state
      else if type == MsgType.state_light
      then light_state f state
      else if type == MsgType.state_cover
      then cover_state f state
      else if type == MsgType.state_climate
      then climate_state f state
      else if type == MsgType.state_lock
      then if holds f 2 0 then insert "status" (on_off (not (f.varint == 1))) state else state
      else if type == MsgType.state_select
      then if holds f 2 2 then insert "_state" (text_value (from_utf8 f.raw)) state else state
      else if type == MsgType.state_number
      then if holds f 2 5 then double_field "_state" f state else state
      else state

  -- One round of the loop: field 1 is the key of every message.
  unfoldable pub read_state_field : ℕ → Reading Double → ProtoField → Reading Double
  read_state_field type r f =
      if holds f 1 5
      then record r { key = fixed32 f }
      else record r { state = typed_state type f r.state }

  unfoldable pub read_state : ℕ → List ProtoField → Reading Double
  read_state type = foldl (read_state_field type) (record { key = 0; state = [] })

  abbrev default_to : Text → Value Double → State → State
  default_to key value state = if not (has key state) then insert key value state else state

  -- The values that proto3 omits. In the source this is a chain of `else if`s, the tests of which
  -- join the type and the absence of a key; the types exclude one another.
  unfoldable pub with_defaults : ℕ → State → State
  with_defaults type state =
      if type == MsgType.state_switch
      then default_to "_switchState" (text_value "off") state
      else if type == MsgType.state_binary
      then default_to "_state" (bool_value false) state
      else if type == MsgType.state_light
      then default_to "status" (text_value "off") state
      else if type == MsgType.state_lock
      then default_to "status" (text_value "off") state
      else if type == MsgType.state_climate
      then default_to "running" (bool_value false)
          (default_to "systemMode" (text_value "off") state)
      else state
