-- ===== src/Command.antt =====
-- esphome.cpp, EspHomeDevice::sendCommand: the message that a command becomes. The caller,
-- Connection.send_command, makes the tests on the connection and hands the message to sendMessage.
pub mod Payloads
use homed_service_esphome.Prelude.{
  ℕ, ◌^◌, ◌%◌, Bool, true, false, not, ◌||◌, List, [], ◌∷◌, Option, none, some, Bytes, ◌==◌,
  if◌then◌else◌,
}
use homed_service_esphome.Prelude.Text.{Text, text_eq}
use homed_service_esphome.Prelude.Maps.{lookup, text_key}
use homed_service_esphome.Qt.{Qt}
use homed_service_esphome.MsgType
use homed_service_esphome.Device.{Value, text_value, StateMap, Endpoint}
use homed_service_esphome.Proto.{add_varint, add_fixed32, add_float, add_bool, add_bytes}
use homed_service_esphome.Climate.{climate_mode_value, climate_fan_mode_value, climate_preset_value}

-- The QVariant of a command, by the conversions that the code asks of it.
pub record Argument : Type 0 where
  pub to_text : Text
  pub to_float : ℕ
  pub to_floats : List ℕ

-- 255.0f, 100.0f, 1.0f and 0.0f
abbrev pub float_255 : ℕ
float_255 = 0x437f0000

abbrev pub float_100 : ℕ
float_100 = 0x42c80000

abbrev pub float_1 : ℕ
float_1 = 0x3f800000

abbrev pub float_0 : ℕ
float_0 = 0

pub record Message : Type 0 where
  pub type : ℕ
  pub payload : Bytes

-- ProtoEncoder::addString
unfoldable pub add_string : Qt → Bytes → ℕ → Text → Bytes
add_string qt m_data field value = add_bytes m_data field (qt.to_utf8 value)

-- `ep->stateMap().value("status").toString()`; the state holds a text or nothing under this key.
unfoldable pub status_of : {Double : Type 0} → Endpoint Double → Text
status_of ep = elim (lookup "status" ep.state) [
  | none ↦ ""
  | some v ↦ elim v [ text_value t ↦ t | _ ↦ "" ]
]

-- `cmd.addFixed32(1, key)` on a fresh encoder
abbrev pub keyed : {Double : Type 0} → Endpoint Double → Bytes
keyed ep = add_fixed32 [] 1 (ep.meta.key % 2 ^ 32)

abbrev pub is_on : Text → Bool
is_on v = text_eq v "on" || text_eq v "1" || text_eq v "true"

abbrev pub is_off : Text → Bool
is_off v = text_eq v "off" || text_eq v "0" || text_eq v "false"

module _ (qt : Qt) {Double : Type 0} (ep : Endpoint Double) (action : Text) (value : Argument) where
  abbrev lowered : Text
  lowered = qt.text_lower value.to_text

  -- The new state of a switch or a light: `toggle` inverts the last known status.
  unfoldable pub wanted_on : Bool
  wanted_on = if text_eq lowered "toggle" then not (text_eq (status_of ep) "on") else is_on lowered

  unfoldable pub wanted_locked : Bool
  wanted_locked =
      if text_eq lowered "toggle" then not (text_eq (status_of ep) "off") else is_off lowered

  unfoldable pub switch_payload : Bytes
  switch_payload = add_bool (keyed ep) 2 wanted_on

  unfoldable pub lock_payload : Bytes
  lock_payload = add_varint (keyed ep) 2 (if wanted_locked then 1 else 0)

  abbrev pub fraction : ℕ → ℕ
  fraction f = qt.float_div f float_255

  unfoldable pub light_color_payload : List ℕ → Bytes
  light_color_payload (red ∷ green ∷ blue ∷ rest) =
      let cmd = add_bool (add_bool (add_bool (keyed ep) 2 true) 3 true) 6 true in
      add_float (add_float (add_float cmd 7 (fraction red)) 8 (fraction green)) 9 (fraction blue)
  light_color_payload _ = keyed ep

  unfoldable pub light_payload : Bytes
  light_payload =
      if text_eq action "status"
      then add_bool (add_bool (keyed ep) 2 true) 3 wanted_on
      else if text_eq action "level"
      then add_float (add_bool (add_bool (add_bool (keyed ep) 2 true) 3 true) 4 true) 5
          (fraction value.to_float)
      else if text_eq action "color"
      then light_color_payload value.to_floats
      else if text_eq action "colorTemperature"
      then add_float (add_bool (add_bool (add_bool (keyed ep) 2 true) 3 true) 12 true) 13
          value.to_float
      else keyed ep

  unfoldable pub cover_payload : Bytes
  cover_payload =
      if text_eq action "cover"
      then if text_eq lowered "stop"
        then add_bool (keyed ep) 8 true
        else add_float (add_bool (keyed ep) 4 true) 5
            (if text_eq lowered "open" then float_1 else float_0)
      else if text_eq action "position"
      then add_float (add_bool (keyed ep) 4 true) 5 (qt.float_div value.to_float float_100)
      else keyed ep

  -- A standard token goes out as its number, any other text as a custom name.
  unfoldable pub climate_choice : Option ℕ → ℕ → ℕ → ℕ → ℕ → Bytes
  climate_choice (some v) has_flag field has_custom custom_field =
      add_varint (add_bool (keyed ep) has_flag true) field v
  climate_choice none has_flag field has_custom custom_field =
      add_string qt (add_bool (keyed ep) has_custom true) custom_field value.to_text

  unfoldable pub climate_mode_payload : Option ℕ → Bytes
  climate_mode_payload (some mode) = add_varint (add_bool (keyed ep) 2 true) 3 mode
  climate_mode_payload none = keyed ep

  unfoldable pub climate_payload : Bytes
  climate_payload =
      if text_eq action "systemMode"
      then climate_mode_payload (climate_mode_value value.to_text)
      else if text_eq action "targetTemperature"
      then add_float (add_bool (keyed ep) 4 true) 5 value.to_float
      else if text_eq action "fanMode"
      then climate_choice (climate_fan_mode_value value.to_text) 12 13 16 17
      else if text_eq action "operationMode"
      then climate_choice (climate_preset_value value.to_text) 18 19 20 21
      else keyed ep

  -- The chain of tests on the entity's type; a type outside it sends nothing.
  unfoldable pub command_message : Option Message
  command_message =
      let type = ep.meta.kind in
      if text_eq type "switch"
      then some (record { type = MsgType.switch_command; payload = switch_payload })
      else if text_eq type "lock"
      then some (record { type = MsgType.lock_command; payload = lock_payload })
      else if text_eq type "light"
      then some (record { type = MsgType.light_command; payload = light_payload })
      else if text_eq type "cover"
      then some (record { type = MsgType.cover_command; payload = cover_payload })
      else if text_eq type "climate"
      then some (record { type = MsgType.climate_command; payload = climate_payload })
      else if text_eq type "select"
      then some (record {
        type = MsgType.select_command;
        payload = add_string qt (keyed ep) 2 value.to_text;
      })
      else if text_eq type "number"
      then some (record {
        type = MsgType.number_command;
        payload = add_float (keyed ep) 2 value.to_float;
      })
      else if text_eq type "button"
      then some (record { type = MsgType.button_command; payload = keyed ep })
      else none
