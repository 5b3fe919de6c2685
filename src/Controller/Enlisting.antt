-- ===== src/Controller/Enlisting.antt =====
-- What the messages of a device do to the list of devices: sub-devices are added to it.
use homed_service_esphome.Prelude.{
  ℕ, ◌≡◌, refl, true, List, [], ◌∷◌, ◌++◌, Bytes, ◌==◌, ltb, Bool-cases, Option-cases, inl, inr,
  if_keeps,
}
use homed_service_esphome.Prelude.Text.{Text}
use homed_service_esphome.Prelude.Maps.{Map, lookup, nat_key}
use homed_service_esphome.Proto.{ProtoField, decode, done, undefined, running}
use homed_service_esphome.Entity.Info.{EntityInfo, holds}
use homed_service_esphome.MsgType
use homed_service_esphome.Discovery.{apply_entities_to_device}
use homed_service_esphome.Device.{DeviceObject, by_host, StateMap}
use homed_service_esphome.Connection.Session.{
  Effect, Platform, Connection, main_device, send_message, emit, find_endpoint_by_key,
  known_sub_devices, sub_address, entities_discovered,
}
use homed_service_esphome.StateUpdate.Reading.{read_state}
use homed_service_esphome.Connection.Messages
use homed_service_esphome.Connection.Dispatch
use homed_service_esphome.Manager.Hosts.{send_message-store}
use homed_service_esphome.Controller.Registry.{IsProper, IsProper-modify, IsProper-append_device}
use mathlib.Core.List.{foldl}

module _ (p : Platform) where
  abbrev pub IsEnlisted : Connection p → Type 0
  IsEnlisted s = IsProper s.store

  pub send_message-IsEnlisted :
      (type : ℕ) (payload : Bytes) (s : Connection p)
      → IsEnlisted s
      → IsEnlisted (send_message type payload s)
  send_message-IsEnlisted type payload s h = rw (send_message-store p type payload s) h

  pub update_device-IsEnlisted :
      (id : ℕ) (f : DeviceObject p.qt.Double → DeviceObject p.qt.Double) (s : Connection p)
      → ((d : DeviceObject p.qt.Double) → (f d).host ≡ d.host)
      → IsEnlisted s
      → IsEnlisted (Messages.update_device p id f s)
  unfolding Messages.update_device
  update_device-IsEnlisted id f s keeps h = IsProper-modify id f s.store keeps h

  with_fields-IsEnlisted :
      (payload : Bytes) (k : List ProtoField → Connection p → Connection p) (s : Connection p)
      → ((fields : List ProtoField) → IsEnlisted (k fields s))
      → IsEnlisted s
      → IsEnlisted (Messages.with_fields p payload k s)
  unfolding Messages.with_fields
  with_fields-IsEnlisted payload k s each h =
      elim (decode payload)
        as (λ d. IsEnlisted (elim d [
          | done fields ↦ k fields s
          | undefined ↦ record s { hung = true }
          | running ↦ record s { hung = true }
        ])) [ done fields ↦ each fields | undefined ↦ h | running ↦ h ]

  add_sub_device-IsEnlisted :
      (fields : List ProtoField) (s : Connection p)
      → IsEnlisted s
      → IsEnlisted (Messages.add_sub_device p fields s)
  unfolding Messages.add_sub_device
  add_sub_device-IsEnlisted fields s h =
      if_keeps IsEnlisted
        (ltb 0 (foldl (Messages.sub_field p) (record { sub_id = 0; sub_name = "" }) fields).sub_id)
        h h

  device_info_field-IsEnlisted :
      (s : Connection p) (f : ProtoField)
      → IsEnlisted s
      → IsEnlisted (Messages.device_info_field p s f)
  unfolding Messages.device_info_field
  device_info_field-IsEnlisted s f h =
      if_keeps IsEnlisted (holds f 4 2) (update_device-IsEnlisted s.device _ s (λ d. refl) h) (
        if_keeps IsEnlisted (holds f 6 2) (update_device-IsEnlisted s.device _ s (λ d. refl) h) (
          if_keeps IsEnlisted (holds f 12 2) (update_device-IsEnlisted s.device _ s (λ d. refl) h) (
            if_keeps IsEnlisted (holds f 20 2)
              (with_fields-IsEnlisted f.raw (Messages.add_sub_device p) s
                (λ fields. add_sub_device-IsEnlisted fields s h) h)
              h)))

  device_info_fields-IsEnlisted :
      (fields : List ProtoField) (s : Connection p)
      → IsEnlisted s
      → IsEnlisted (Messages.device_info_fields p fields s)
  unfolding Messages.device_info_fields
  device_info_fields-IsEnlisted [] s h = h
  device_info_fields-IsEnlisted (f ∷ fields) s h = elim (Bool-cases s.hung) [
    | inl e ↦ rw (Messages.device_info_fields, e) h
    | inr e ↦
        rw (Messages.device_info_fields, e)
          (device_info_fields-IsEnlisted fields (Messages.device_info_field p s f)
            (device_info_field-IsEnlisted s f h))
  ]

  device_info_response-IsEnlisted :
      (fields : List ProtoField) (s : Connection p)
      → IsEnlisted s
      → IsEnlisted (Messages.device_info_response p fields s)
  unfolding Messages.device_info_response Messages.request_entities
  device_info_response-IsEnlisted fields s h =
      let read : Connection p =
        Messages.device_info_fields p fields (record s { sub_device_names = [] }) in
      let kept : IsEnlisted read =
        device_info_fields-IsEnlisted fields (record s { sub_device_names = [] }) h in
      elim (Bool-cases read.hung) [
        | inl e ↦ rw (Messages.device_info_response, e) kept
        | inr e ↦
            rw (Messages.device_info_response, e)
              (send_message-IsEnlisted MsgType.list_entities_request [] _ kept)
      ]

  emit_all-IsEnlisted :
      (signal : ℕ → Effect) (ids : List ℕ) (s : Connection p)
      → IsEnlisted s
      → IsEnlisted (Messages.emit_all p signal ids s)
  unfolding Messages.emit_all
  emit_all-IsEnlisted signal [] s h = h
  emit_all-IsEnlisted signal (id ∷ ids) s h = emit_all-IsEnlisted signal ids (emit (signal id) s) h

  refresh_sub_device-IsEnlisted :
      (sub : ℕ) (name : Text) (s : Connection p)
      → IsEnlisted s
      → IsEnlisted (Messages.refresh_sub_device p sub name s)
  unfolding Messages.refresh_sub_device
  refresh_sub_device-IsEnlisted sub name s h =
      update_device-IsEnlisted sub _ _ (λ d. refl)
        (update_device-IsEnlisted sub _ _ (λ d. refl)
          (update_device-IsEnlisted sub _ s (λ d. refl) h))

  -- A sub-device is added only if no device has its host.
  sub_device-IsEnlisted :
      (id : ℕ) (s : Connection p) → IsEnlisted s → IsEnlisted (Messages.sub_device p id s).0
  unfolding Messages.sub_device Messages.new_sub_device
  sub_device-IsEnlisted id s h =
      let name : Text = Messages.sub_name_of p id s in
      elim (Option-cases (by_host (sub_address p.qt (main_device s) name) s.store)) [
        | inr (sub, e) ↦ rw (Messages.sub_device, e) (refresh_sub_device-IsEnlisted sub name s h)
        | inl e ↦
            rw (Messages.sub_device, e)
              (refresh_sub_device-IsEnlisted s.store.fresh name _
                (IsProper-append_device (Messages.new_sub_device p name s) s.store e h))
      ]

  apply_groups-IsEnlisted :
      (groups : Map ℕ (List EntityInfo)) (touched : List ℕ) (s : Connection p)
      → IsEnlisted s
      → IsEnlisted (Messages.apply_groups p groups touched s).0
  unfolding Messages.apply_groups apply_entities_to_device
  apply_groups-IsEnlisted [] touched s h = h
  apply_groups-IsEnlisted ((id, entities) ∷ groups) touched s h =
      let made : Connection p × ℕ = Messages.sub_device p id s in
      if_keeps (λ (r : Connection p × List ℕ). IsEnlisted r.0) (id == 0)
        (apply_groups-IsEnlisted groups touched s h)
        (apply_groups-IsEnlisted groups (touched ++ (made.1 ∷ [])) _ (
          update_device-IsEnlisted made.1 (apply_entities_to_device p.qt entities) made.0
            (λ d. refl) (sub_device-IsEnlisted id s h)))

  apply_discovered_entities-IsEnlisted :
      (s : Connection p) → IsEnlisted s → IsEnlisted (Messages.apply_discovered_entities p s)
  unfolding Messages.apply_discovered_entities apply_entities_to_device
  apply_discovered_entities-IsEnlisted s h = emit_all-IsEnlisted entities_discovered _ _ (
      apply_groups-IsEnlisted (Messages.group_entities p s.pending_entities []) (s.device ∷ []) _
        (update_device-IsEnlisted s.device _ s (λ d. refl) h))

  write_state-IsEnlisted :
      (now type : ℕ) (state : StateMap p.qt.Double) (id ep : ℕ) (s : Connection p)
      → IsEnlisted s
      → IsEnlisted (Dispatch.write_state p now type state id ep s)
  unfolding Dispatch.write_state
  write_state-IsEnlisted now type state id ep s h =
      elim (Option-cases (lookup ep (s.store.objects id).endpoints)) [
        | inl e ↦ rw (Dispatch.write_state, e) h
        | inr (endpoint, e) ↦
            rw (Dispatch.write_state, e) (update_device-IsEnlisted id _ s (λ d. refl) h)
      ]

  state_fields-IsEnlisted :
      (now type : ℕ) (fields : List ProtoField) (s : Connection p)
      → IsEnlisted s
      → IsEnlisted (Dispatch.state_fields p now type fields s)
  unfolding Dispatch.state_fields
  state_fields-IsEnlisted now type fields s h =
      let r = read_state p.qt type fields in
      if_keeps IsEnlisted (r.key == 0) h (elim (Option-cases (find_endpoint_by_key p.qt r.key s)) [
        | inl e ↦ rw e h
        | inr (at, e) ↦ rw e (write_state-IsEnlisted now type _ at.0 at.1 s h)
      ])

  touch_all-IsEnlisted :
      (now : ℕ) (ids : List ℕ) (s : Connection p)
      → IsEnlisted s
      → IsEnlisted (Dispatch.touch_all p now ids s)
  unfolding Dispatch.touch_all Dispatch.touch
  touch_all-IsEnlisted now [] s h = h
  touch_all-IsEnlisted now (id ∷ ids) s h =
      touch_all-IsEnlisted now ids (Dispatch.touch p now id s)
        (update_device-IsEnlisted id _ s (λ d. refl) h)

  ping_response-IsEnlisted :
      (now : ℕ) (s : Connection p) → IsEnlisted s → IsEnlisted (Dispatch.ping_response p now s)
  unfolding Dispatch.ping_response Dispatch.touch_all
  ping_response-IsEnlisted now s h =
      let s' : Connection p = Dispatch.touch p now s.device s in
      touch_all-IsEnlisted now (known_sub_devices p.qt s') s'
        (touch_all-IsEnlisted now (s.device ∷ []) s h)

  -- processMessage
  pub process_message-IsEnlisted :
      (now type : ℕ) (payload : Bytes) (s : Connection p)
      → IsEnlisted s
      → IsEnlisted (Dispatch.process_message p now type payload s)
  unfolding Dispatch.process_message Dispatch.entities_done
  process_message-IsEnlisted now type payload s h =
      if_keeps IsEnlisted (type == MsgType.hello_response)
        (with_fields-IsEnlisted payload _ s
          (λ fields. send_message-IsEnlisted MsgType.device_info_request [] s h) h)
        (if_keeps IsEnlisted (type == MsgType.device_info_response)
          (with_fields-IsEnlisted payload _ s (λ fields. device_info_response-IsEnlisted fields s h)
            h)
          (if_keeps IsEnlisted (Dispatch.is_list_entities p type)
            (with_fields-IsEnlisted payload _ s (λ fields. h) h)
            (if_keeps IsEnlisted (type == MsgType.list_entities_done)
              (send_message-IsEnlisted MsgType.subscribe_states [] _
                (apply_discovered_entities-IsEnlisted s h))
              (if_keeps IsEnlisted (Dispatch.is_state p type)
                (with_fields-IsEnlisted payload _ s
                  (λ fields. state_fields-IsEnlisted now type fields s h) h)
                (if_keeps IsEnlisted (type == MsgType.ping_response)
                  (ping_response-IsEnlisted now s h)
                  (if_keeps IsEnlisted (type == MsgType.disconnect_request)
                    (send_message-IsEnlisted MsgType.disconnect_response [] s h) h))))))
