-- ===== src/Examples/Entities.antt =====
-- Entities, commands, endpoint ids, and state messages.
use homed_service_esphome.Climate.{climate_fan_mode_value}
use homed_service_esphome.Prelude.Text.{index_of}
use homed_service_esphome.Proto.Fields.{add_item}
use homed_service_esphome.Proto.{
  add_bool, add_bytes, add_fixed32, add_varint, write_tag, write_varint,
}
use homed_service_esphome.Command.{switch_payload, wanted_on}
use homed_service_esphome.Prelude.Maps.{lookup, nat_key}
use homed_service_esphome.Prelude.{
  ℕ, ◌≡◌, ◌≢◌, refl, true, false, List, [], ◌∷◌, none, some, arith, ◌%◌, ◌^◌, length,
}
use homed_service_esphome.Prelude.Text.{Text}
use text.Mathlib.TextEquality.{eq_iff}
use homed_service_esphome.Prelude.Maps.{Map}
use homed_service_esphome.MsgType
use homed_service_esphome.Proto.{ProtoField, decode, done}
use homed_service_esphome.Proto.Fields.{fixed32_item, field_of}
use homed_service_esphome.Proto.RoundTrip.{encode}
use homed_service_esphome.Climate.{climate_mode_name}
use homed_service_esphome.Climate.Tables.{
  modes, fan_modes, name_of, value_of, value_of-name_of, name_of-value_of,
}
use homed_service_esphome.Entity.{entity_fields, process_entity_info}
use homed_service_esphome.Entity.Info.{EntityInfo, no_info}
use homed_service_esphome.Entity.Capabilities.{Collected, entity_fields-Collected}
use homed_service_esphome.Entity.Decoding.{
  NumberEntity, number_items, number_info, process-number_items,
}
use homed_service_esphome.Device.{Endpoint, EndpointMeta, double_value}
use homed_service_esphome.Command.{Argument, Message, command_message}
use homed_service_esphome.Command.Payloads.{command_message_key}
use homed_service_esphome.Discovery.Slots.{endpoint_ids, slots_after}
use homed_service_esphome.Discovery.Kept.{slots_after-Kept}
use homed_service_esphome.Discovery.Numbers.{no_repeats}
use homed_service_esphome.Discovery.Assigned.{all_in_range, endpoint_ids-Distinct}
use homed_service_esphome.StateUpdate.Reading.{read_state, with_defaults}
use homed_service_esphome.StateUpdate.Writing.{final_state, update_endpoint}
use homed_service_esphome.StateUpdate.Covers.{cover_message-final, cover_result}
use homed_service_esphome.StateUpdate.Silence.{silent_sensor-stale}
use homed_service_esphome.StateUpdate.Colors.{lit, light_without_red-unjoined}
use homed_service_esphome.Prelude.Maps.{has, text_key}
use homed_service_esphome.Examples.{plain_qt}

heat_is_named : name_of modes 3 ≢ ""
unfolding climate_mode_name
heat_is_named = λ e. absurd (ground (arith, (eq_iff "heat" "").1 e))

value_of-name_of_example : value_of modes (name_of modes 3) ≡ some 3
value_of-name_of_example = value_of-name_of modes 3 heat_is_named

auto_found : value_of fan_modes "auto" ≡ some 2
unfolding climate_fan_mode_value index_of
auto_found = refl

name_of-value_of_example : name_of fan_modes 2 ≡ "auto"
name_of-value_of_example = name_of-value_of fan_modes "auto" 2 auto_found

-- A light that reports the colour modes ON_OFF and RGB, the second one twice.
abbrev color_mode : ℕ → ProtoField
color_mode mode = record { field = 12; wire_type = 0; varint = mode; float_val = 0; raw = [] }

entity_fields-Collected_example : Collected (
    entity_fields plain_qt MsgType.list_entities_light
      (color_mode 1 ∷ color_mode 35 ∷ color_mode 35 ∷ []))
entity_fields-Collected_example =
    entity_fields-Collected plain_qt MsgType.list_entities_light
      (color_mode 1 ∷ color_mode 35 ∷ color_mode 35 ∷ [])

abbrev volume : NumberEntity
volume = record {
  key = 9;
  name = 86 ∷ [];
  icon = [];
  min_value = 0;
  max_value = 100;
  step = 1;
  unit = 37 ∷ [];
  device_id = 0;
}

process-number_items_example :
    (fields : List ProtoField) × (decode (encode (number_items volume)) ≡ done fields)
    × (process_entity_info plain_qt MsgType.list_entities_number fields []
        ≡ number_info plain_qt volume ∷ [])
unfolding encode add_item add_varint write_varint write_tag add_bytes add_fixed32
process-number_items_example =
    process-number_items plain_qt volume []
      (record {
        key_set = omega arith;
        key_fits = omega arith;
        min_fits = omega arith;
        max_fits = omega arith;
        step_fits = omega arith;
        device_fits = omega arith;
      })
      (omega arith)

abbrev meta : EndpointMeta
meta = record {
  key = 513;
  kind = "switch";
  object_id = "relay";
  special = true;
  round = none;
  icon = "";
  title = "Relay";
  supports_position = true;
  climate_has_preset = false;
  climate_has_fan_mode = false;
}

abbrev endpoint : Endpoint ℕ
endpoint = record { meta = meta; exposes = []; state = ("relay", double_value 21) ∷ [] }

abbrev turn_on : Argument
turn_on = record { to_text = "on"; to_float = 0; to_floats = [] }

abbrev switch_message : Message
switch_message = record {
  type = MsgType.switch_command;
  payload = 13 ∷ 1 ∷ 2 ∷ 0 ∷ 0 ∷ 16 ∷ 1 ∷ [];
}

switch_message_made : command_message plain_qt endpoint "status" turn_on ≡ some switch_message
unfolding command_message switch_payload add_bool add_varint write_varint wanted_on write_tag
    add_fixed32
switch_message_made = refl

command_message_key_example :
    (fields : List ProtoField) × (decode switch_message.payload
      ≡ done (field_of (fixed32_item 1 (513 % 2 ^ 32)) ∷ fields))
command_message_key_example =
    command_message_key plain_qt endpoint "status" turn_on
      (record { quotients = λ a b. omega arith; single = omega arith }) switch_message
      switch_message_made (omega arith)

-- Two lights, the first of which has had the number 2, and a sensor.
abbrev entity : Text → Text → EntityInfo
entity kind name = record no_info { kind = kind; name = name }

abbrev slots : Map ℕ Text
slots = (2, "Lamp") ∷ []

abbrev entities : List EntityInfo
entities = entity "light" "Lamp" ∷ entity "sensor" "Power" ∷ entity "light" "Desk" ∷ []

endpoint_ids-Distinct_example :
    (length (endpoint_ids slots entities) ≡ 3)
    × (all_in_range (endpoint_ids slots entities) ≡ true)
    × (no_repeats (endpoint_ids slots entities) ≡ true)
endpoint_ids-Distinct_example = endpoint_ids-Distinct slots entities refl (omega arith)

lamp_has_two : lookup 2 slots ≡ some "Lamp"
unfolding lookup
lamp_has_two = refl

slots_after-Kept_example : lookup 2 (slots_after slots entities) ≡ some "Lamp"
slots_after-Kept_example = slots_after-Kept slots entities 2 "Lamp" refl lamp_has_two

-- A position of 40, after the older field.
abbrev cover_fields : List ProtoField
cover_fields =
    record { field = 2; wire_type = 0; varint = 1; float_val = 0; raw = [] }
    ∷ record { field = 3; wire_type = 5; varint = 40; float_val = 40; raw = [] }
    ∷ []

cover_message-final_example :
    final_state plain_qt MsgType.state_cover meta (
      with_defaults plain_qt MsgType.state_cover
        (read_state plain_qt MsgType.state_cover cover_fields).state)
    ≡ cover_result plain_qt true (some 1) (some 40)
cover_message-final_example = cover_message-final plain_qt meta cover_fields

-- A message with the key alone.
abbrev key_fields : List ProtoField
key_fields = record { field = 1; wire_type = 5; varint = 513; float_val = 513; raw = [] } ∷ []

silent_sensor-stale_example :
    update_endpoint plain_qt MsgType.state_sensor
      (with_defaults plain_qt MsgType.state_sensor
        (read_state plain_qt MsgType.state_sensor key_fields).state)
      endpoint
    ≡ endpoint
silent_sensor-stale_example = silent_sensor-stale plain_qt key_fields endpoint refl

-- A message with the key and a green channel.
abbrev green_fields : List ProtoField
green_fields =
    record { field = 1; wire_type = 5; varint = 513; float_val = 513; raw = [] }
    ∷ record { field = 5; wire_type = 5; varint = 9; float_val = 9; raw = [] }
    ∷ []

light_without_red-unjoined_example :
    (lookup "color" (lit plain_qt green_fields endpoint) ≡ lookup "color" endpoint.state)
    × (has "_g" (lit plain_qt green_fields endpoint) ≡ true)
    × (has "_b" (lit plain_qt green_fields endpoint) ≡ has "_b" endpoint.state)
light_without_red-unjoined_example = light_without_red-unjoined plain_qt green_fields endpoint refl
