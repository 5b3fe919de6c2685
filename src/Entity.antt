-- ===== src/Entity.antt =====
-- esphome.h and esphome.cpp: EntityInfo, and EspHomeDevice::processEntityInfo, which builds one from
-- the fields of a ListEntities message. The messages' own fields are in the children.
pub mod Info
pub mod Sensors
pub mod Actors
pub mod Capabilities
pub mod Decoding
use homed_service_esphome.Prelude.{ℕ, Bool, true, false, List, [], ◌∷◌, ◌++◌, ◌==◌, if◌then◌else◌}
use homed_service_esphome.Prelude.Text.{Text}
use homed_service_esphome.Qt.{Qt}
use homed_service_esphome.Proto.{ProtoField}
use homed_service_esphome.MsgType
use homed_service_esphome.Entity.Info.{EntityInfo, no_info, holds}
use homed_service_esphome.Entity.Sensors.{
  binary_field, sensor_field, text_sensor_field, number_field, select_field, button_field,
}
use homed_service_esphome.Entity.Actors.{
  switch_field, cover_field, light_field, climate_field, lock_field,
}
use mathlib.Core.List.{foldl}

-- `switch (type)` in the loop
unfoldable pub typed_field : Qt → ℕ → EntityInfo → ProtoField → EntityInfo
typed_field qt type info f =
    if type == MsgType.list_entities_switch
    then switch_field qt info f
    else if type == MsgType.list_entities_binary
    then binary_field qt info f
    else if type == MsgType.list_entities_cover
    then cover_field qt info f
    else if type == MsgType.list_entities_sensor
    then sensor_field qt info f
    else if type == MsgType.list_entities_text_sensor
    then text_sensor_field qt info f
    else if type == MsgType.list_entities_light
    then light_field qt info f
    else if type == MsgType.list_entities_climate
    then climate_field qt info f
    else if type == MsgType.list_entities_select
    then select_field qt info f
    else if type == MsgType.list_entities_number
    then number_field qt info f
    else if type == MsgType.list_entities_lock
    then lock_field qt info f
    else if type == MsgType.list_entities_button
    then button_field qt info f
    else info

-- One round of the loop over the fields: the name is field 3 of every message.
unfoldable pub entity_field : Qt → ℕ → EntityInfo → ProtoField → EntityInfo
entity_field qt type info f =
    if holds f 3 2 then record info { name = qt.from_utf8 f.raw } else typed_field qt type info f

-- The second `switch (type)`; an EntityInfo starts with an empty type.
unfoldable pub entity_type : ℕ → Text
entity_type type =
    if type == MsgType.list_entities_switch
    then "switch"
    else if type == MsgType.list_entities_binary
    then "binary_sensor"
    else if type == MsgType.list_entities_cover
    then "cover"
    else if type == MsgType.list_entities_sensor
    then "sensor"
    else if type == MsgType.list_entities_text_sensor
    then "text_sensor"
    else if type == MsgType.list_entities_light
    then "light"
    else if type == MsgType.list_entities_climate
    then "climate"
    else if type == MsgType.list_entities_select
    then "select"
    else if type == MsgType.list_entities_number
    then "number"
    else if type == MsgType.list_entities_lock
    then "lock"
    else if type == MsgType.list_entities_button
    then "button"
    else ""

-- The loop over the decoded fields.
unfoldable pub entity_fields : Qt → ℕ → List ProtoField → EntityInfo
entity_fields qt type = foldl (entity_field qt type) no_info

-- `m_pendingEntities` after the message with these fields.
unfoldable pub process_entity_info : Qt → ℕ → List ProtoField → List EntityInfo → List EntityInfo
process_entity_info qt type fields pending =
    let info = entity_fields qt type fields in
    if info.key == 0 then pending else pending ++ (record info { kind = entity_type type } ∷ [])
