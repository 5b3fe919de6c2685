-- ===== src/Connection/Dispatch.antt =====
-- EspHomeDevice::processMessage, with the messages that it handles itself and the end of
-- processStateUpdate. `now` is the time in seconds.
use homed_service_esphome.Prelude.{
  ℕ, Bool, ◌||◌, List, [], ◌∷◌, none, some, Bytes, ◌==◌, if◌then◌else◌,
}
use homed_service_esphome.Prelude.Maps.{nat_key, lookup, insert}
use homed_service_esphome.Proto.{ProtoField}
use homed_service_esphome.MsgType
use homed_service_esphome.Entity.{process_entity_info}
use homed_service_esphome.Device.{StateMap}
use homed_service_esphome.StateUpdate.Reading.{read_state, with_defaults}
use homed_service_esphome.StateUpdate.Writing.{update_endpoint}
use homed_service_esphome.Connection.Session.{
  subscribe, Platform, Connection, emit, send_message, known_sub_devices, find_endpoint_by_key,
  disconnect_from_host, last_seen_updated, state_changed,
}
use homed_service_esphome.Connection.Messages.{
  with_fields, update_device, device_info_response, apply_discovered_entities,
}

module _ (p : Platform) where
  open p use {qt}

  -- ==================== State messages ====================

  -- The loop over the state, updateLastSeen and the signal, for an endpoint of the object `id`.
  unfoldable pub write_state :
      (now type : ℕ) → StateMap qt.Double → (id ep : ℕ) → Connection p → Connection p
  write_state now type state id ep s = elim (lookup ep (s.store.objects id).endpoints) [
    | none ↦ s
    | some endpoint ↦ emit (state_changed id ep) (
        update_device p id
          (λ d. record d {
            endpoints = insert ep (update_endpoint qt type state endpoint) d.endpoints;
            last_seen = now;
          })
          s)
  ]

  unfoldable pub state_fields : (now type : ℕ) → List ProtoField → Connection p → Connection p
  state_fields now type fields s =
      let r = read_state qt type fields in
      if r.key == 0 then s else elim (find_endpoint_by_key qt r.key s) [
        | none ↦ s
        | some (id, ep) ↦ write_state now type (with_defaults qt type r.state) id ep s
      ]

  -- ==================== PingResponse ====================

  unfoldable pub touch : ℕ → ℕ → Connection p → Connection p
  touch now id s =
      emit (last_seen_updated id) (update_device p id (λ d. record d { last_seen = now }) s)

  unfoldable pub touch_all : ℕ → List ℕ → Connection p → Connection p
  touch_all now [] s = s
  touch_all now (id ∷ ids) s = touch_all now ids (touch now id s)

  unfoldable pub ping_response : ℕ → Connection p → Connection p
  ping_response now s = let s' = touch now s.device s in touch_all now (known_sub_devices qt s') s'

  -- ==================== The switch ====================

  abbrev pub is_list_entities : ℕ → Bool
  is_list_entities type =
      type == MsgType.list_entities_binary
      || type == MsgType.list_entities_cover
      || type == MsgType.list_entities_light
      || type == MsgType.list_entities_sensor
      || type == MsgType.list_entities_switch
      || type == MsgType.list_entities_text_sensor
      || type == MsgType.list_entities_climate
      || type == MsgType.list_entities_number
      || type == MsgType.list_entities_select
      || type == MsgType.list_entities_lock
      || type == MsgType.list_entities_button

  abbrev pub is_state : ℕ → Bool
  is_state type =
      type == MsgType.state_binary
      || type == MsgType.state_cover
      || type == MsgType.state_light
      || type == MsgType.state_sensor
      || type == MsgType.state_switch
      || type == MsgType.state_text_sensor
      || type == MsgType.state_climate
      || type == MsgType.state_number
      || type == MsgType.state_select
      || type == MsgType.state_lock

  unfoldable pub entities_done : Connection p → Connection p
  entities_done s =
      send_message MsgType.subscribe_states []
        (record (apply_discovered_entities p s) { state = subscribe })

  unfoldable pub process_message : (now type : ℕ) → Bytes → Connection p → Connection p
  process_message now type payload s =
      if type == MsgType.hello_response
      then with_fields p payload (λ _. send_message MsgType.device_info_request []) s
      else if type == MsgType.device_info_response
      then with_fields p payload (device_info_response p) s
      else if is_list_entities type
      then with_fields p payload
          (λ fields s'. record s' {
            pending_entities = process_entity_info qt type fields s'.pending_entities;
          })
          s
      else if type == MsgType.list_entities_done
      then entities_done s
      else if is_state type
      then with_fields p payload (state_fields now type) s
      else if type == MsgType.ping_response
      then ping_response now s
      else if type == MsgType.disconnect_request
      then emit disconnect_from_host (send_message MsgType.disconnect_response [] s)
      else s
