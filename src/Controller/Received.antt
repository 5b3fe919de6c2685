-- ===== src/Controller/Received.antt =====
-- mqttReceived: which messages are commands of the service, and which are for the entities of a
-- device.
use homed_service_esphome.Prelude.{
  ℕ, ◌^◌, ◌%◌, Bool, true, false, List, [], ◌∷◌, Option, none, some, Bytes, ◌==◌, not,
  if◌then◌else◌,
}
use homed_service_esphome.Prelude.Text.{Text, text_eq, is_empty}
use homed_service_esphome.Variant.{Variant, Entries, end, entry}
use homed_service_esphome.Device.{DeviceObject}
use homed_service_esphome.Connection.Session.{Platform}
use homed_service_esphome.Manager.{route_command}
use homed_service_esphome.Controller.Homed.{Homed, Control, device_of}
use homed_service_esphome.Controller.Topics
use homed_service_esphome.Controller.Commands

module _ (p : Platform) (homed : Homed p.qt) where
  open p use {qt}
  open qt use {Double}

  abbrev pub endpoint_of : ℕ → Text → DeviceObject Double → ℕ
  endpoint_of slot key d =
      if not (slot == 0) then slot else Topics.endpoint_for_action key d.endpoints

  -- One round of the loop over the values of a message for the object `id`.
  unfoldable pub entity_command : (id slot : ℕ) → Text → Variant Double → Control p → Control p
  entity_command id slot key value s = elim (homed.argument value) [
    | none ↦ s
    | some argument ↦
        let endpoint_id = endpoint_of slot key (device_of id s) in
        if endpoint_id == 0
        then s
        else record s { manager = route_command p id endpoint_id key argument s.manager }
  ]

  unfoldable pub entity_commands : (id slot : ℕ) → Entries Double → Control p → Control p
  entity_commands id slot end s = s
  entity_commands id slot (entry key value json) s =
      entity_commands id slot json (entity_command id slot key value s)

  -- `slotEndpointId`, or none where the method returns
  unfoldable pub slot_number : Text → Option ℕ
  slot_number slot =
      if is_empty slot
      then some 0
      else elim (homed.to_uint slot) [ none ↦ none | some n ↦ some (n % 2 ^ 8) ]

  unfoldable pub device_command : List Text → Entries Double → Control p → Control p
  device_command parts json s =
      elim (Commands.device_named p homed (Topics.part_at 0 parts) s.manager.store) [
        | none ↦ s
        | some id ↦ elim (slot_number (Topics.part_at 1 parts)) [
          | none ↦ s
          | some slot ↦ entity_commands id slot json s
        ]
      ]

  -- `QString("td/%1/").arg(serviceTopic())`
  abbrev pub td_prefix : Text
  td_prefix = Topics.slashed "td" (Topics.slashed homed.service_topic "")

  -- The bytes of "online".
  abbrev pub online_message : Bytes
  online_message = 0x6f ∷ 0x6e ∷ 0x6c ∷ 0x69 ∷ 0x6e ∷ 0x65 ∷ []

  abbrev pub same_bytes : Bytes → Bytes → Bool
  same_bytes [] [] = true
  same_bytes (b ∷ bytes) (c ∷ others) = if b == c then same_bytes bytes others else false
  same_bytes _ _ = false

  -- `subTopic`
  abbrev pub sub_topic : Text → Text
  sub_topic topic = Topics.mid topic (Topics.text_length (homed.mqtt_topic ""))

  -- The message of Home Assistant's status topic.
  unfoldable pub ha_status_received : Bytes → Control p → Control p
  ha_status_received message s =
      if not (same_bytes message online_message) then s else record s { properties_timer = true }

  -- The tests on the topic, and the `parts`.
  abbrev pub is_td : Text → Bool
  is_td topic = Topics.starts_with (sub_topic topic) td_prefix

  abbrev pub is_command : Text → Bool
  is_command topic = text_eq (sub_topic topic) (Topics.slashed "command" homed.service_topic)

  abbrev pub td_parts : Text → List Text
  td_parts topic = Topics.split_slash (Topics.mid (sub_topic topic) (Topics.text_length td_prefix))

  unfoldable pub mqtt_received : Bytes → Text → Control p → Control p
  mqtt_received message topic s =
      let json = homed.from_json message in
      if is_command topic
      then Commands.service_command p homed topic json s
      else if is_td topic
      then device_command (td_parts topic) json s
      else if text_eq topic homed.ha_status
      then ha_status_received message s
      else s
