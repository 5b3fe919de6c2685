-- ===== src/Connection/Kept.antt =====
-- Lemmas on what the operations of a connection do to the state of the Noise object and to the ping
-- timer.
use homed_service_esphome.Prelude.{
  ℕ, ◌≡◌, refl, ◌∙◌, Bool, true, false, List, [], ◌∷◌, ◌++◌, Option, none, some, Bytes, arith,
  Option-cases, Bool-cases, inl, inr,
}
use homed_service_esphome.Prelude.Maps.{Map}
use homed_service_esphome.Proto.{ProtoField, decode, done, undefined, running}
use homed_service_esphome.Entity.Info.{EntityInfo}
use homed_service_esphome.MsgType
use homed_service_esphome.Entity.{process_entity_info}
use homed_service_esphome.Discovery.{apply_entities_to_device}
use homed_service_esphome.Noise.{Noise, NoiseC, encrypt}
use homed_service_esphome.Connection.Session.{
  Effect, Platform, Connection, Conn, emit, send_message, send_raw, inner_message,
  known_sub_devices, list_entities, subscribe, entities_discovered,
}
use homed_service_esphome.Connection.Messages
use homed_service_esphome.Connection.Dispatch

-- What m_noise is: null, in its handshake, or complete.
pub data Secured : Type 0 where
  no_noise incomplete complete : Secured

abbrev pub secured_of : {c : NoiseC} → Option (Noise c) → Secured
secured_of none = no_noise
secured_of (some n) = elim n.complete [ true ↦ complete | false ↦ incomplete ]

encrypt-complete :
    {c : NoiseC} (n : Noise c) (bytes : Bytes) → (encrypt c n bytes).0.complete ≡ n.complete
unfolding encrypt
encrypt-complete n bytes = elim (Option-cases n.send_cipher) [
  | inl e ↦ rw e refl
  | inr (x, e) ↦ rw e refl
]

module _ {c : NoiseC} {Double : Type 0} where
  -- The operations keep this pair.
  abbrev pub footing : Conn c Double → Secured × Bool
  footing s = (secured_of s.noise, s.ping_timer)

  pub send_message-footing :
      (type : ℕ) (payload : Bytes) (s : Conn c Double)
      → footing (send_message type payload s) ≡ footing s
  unfolding send_message send_raw
  send_message-footing type payload s = elim (Option-cases s.noise) [
    | inl e ↦ rw e refl
    | inr (n, e) ↦ ground (arith, e, encrypt-complete n (inner_message type payload))
  ]

module _ (p : Platform) where
  pub with_fields-footing :
      (payload : Bytes) (k : List ProtoField → Connection p → Connection p) (s : Connection p)
      → ((fields : List ProtoField) → footing (k fields s) ≡ footing s)
      → footing (Messages.with_fields p payload k s) ≡ footing s
  unfolding Messages.with_fields
  with_fields-footing payload k s h =
      elim (decode payload)
        as (λ d.
          footing (elim d [
            | done fields ↦ k fields s
            | undefined ↦ record s { hung = true }
            | running ↦ record s { hung = true }
          ])
          ≡ footing s) [ done fields ↦ h fields | undefined ↦ refl | running ↦ refl ]

  device_info_field-footing :
      (s : Connection p) (f : ProtoField) → footing (Messages.device_info_field p s f) ≡ footing s
  unfolding Messages.device_info_field Messages.update_device Messages.add_sub_device
  device_info_field-footing s f =
      ground
        (arith, with_fields-footing f.raw (Messages.add_sub_device p) s (λ fields. ground arith))

  device_info_fields-footing :
      (fields : List ProtoField) (s : Connection p)
      → footing (Messages.device_info_fields p fields s) ≡ footing s
  unfolding Messages.device_info_fields
  device_info_fields-footing [] s = refl
  device_info_fields-footing (f ∷ fields) s = elim (Bool-cases s.hung) [
    | inl h ↦ ground arith
    | inr h ↦ ground (
      arith,
      device_info_fields-footing fields (Messages.device_info_field p s f),
      device_info_field-footing s f,
    )
  ]

  device_info_response-footing :
      (fields : List ProtoField) (s : Connection p)
      → footing (Messages.device_info_response p fields s) ≡ footing s
  unfolding Messages.device_info_response Messages.request_entities
  device_info_response-footing fields s =
      let s0 : Connection p = record s { sub_device_names = [] } in
      let s' : Connection p = Messages.device_info_fields p fields s0 in
      ground (
        arith,
        device_info_fields-footing fields s0,
        send_message-footing MsgType.list_entities_request []
            (record s' { pending_entities = []; state = list_entities }),
      )

  emit_all-footing :
      (signal : ℕ → Effect) (ids : List ℕ) (s : Connection p)
      → footing (Messages.emit_all p signal ids s) ≡ footing s
  unfolding Messages.emit_all
  emit_all-footing signal [] s = refl
  emit_all-footing signal (id ∷ ids) s = emit_all-footing signal ids (emit (signal id) s)

  sub_device-footing :
      (id : ℕ) (s : Connection p) → footing (Messages.sub_device p id s).0 ≡ footing s
  unfolding Messages.sub_device Messages.refresh_sub_device Messages.update_device
  sub_device-footing id s = ground arith

  apply_groups-footing :
      (groups : Map ℕ (List EntityInfo)) (touched : List ℕ) (s : Connection p)
      → footing (Messages.apply_groups p groups touched s).0 ≡ footing s
  unfolding Messages.apply_groups Messages.update_device
  apply_groups-footing [] touched s = refl
  apply_groups-footing ((id, entities) ∷ groups) touched s =
      let next : Connection p × ℕ = Messages.sub_device p id s in
      ground (
        arith,
        apply_groups-footing groups touched s,
        apply_groups-footing groups (touched ++ (next.1 ∷ []))
            (Messages.update_device p next.1 (apply_entities_to_device p.qt entities) next.0),
        sub_device-footing id s,
      )

  apply_discovered_entities-footing :
      (s : Connection p) → footing (Messages.apply_discovered_entities p s) ≡ footing s
  unfolding Messages.apply_discovered_entities Messages.update_device
  apply_discovered_entities-footing s =
      let grouped : Map ℕ (List EntityInfo) = Messages.group_entities p s.pending_entities [] in
      let s' : Connection p =
        Messages.update_device p s.device
          (apply_entities_to_device p.qt (Messages.main_entities p grouped)) s in
      let applied : Connection p × List ℕ = Messages.apply_groups p grouped (s.device ∷ []) s' in
      emit_all-footing entities_discovered applied.1 applied.0
      ∙ apply_groups-footing grouped (s.device ∷ []) s'

  state_fields-footing :
      (now type : ℕ) (fields : List ProtoField) (s : Connection p)
      → footing (Dispatch.state_fields p now type fields s) ≡ footing s
  unfolding Dispatch.state_fields Dispatch.write_state Messages.update_device
  state_fields-footing now type fields s = ground arith

  touch_all-footing :
      (now : ℕ) (ids : List ℕ) (s : Connection p)
      → footing (Dispatch.touch_all p now ids s) ≡ footing s
  unfolding Dispatch.touch_all Dispatch.touch Messages.update_device
  touch_all-footing now [] s = refl
  touch_all-footing now (id ∷ ids) s = touch_all-footing now ids (Dispatch.touch p now id s)

  ping_response-footing :
      (now : ℕ) (s : Connection p) → footing (Dispatch.ping_response p now s) ≡ footing s
  unfolding Dispatch.ping_response Dispatch.touch Messages.update_device
  ping_response-footing now s =
      let s' : Connection p = Dispatch.touch p now s.device s in
      touch_all-footing now (known_sub_devices p.qt s') s'

  pub process_message-footing :
      (now type : ℕ) (payload : Bytes) (s : Connection p)
      → footing (Dispatch.process_message p now type payload s) ≡ footing s
  unfolding Dispatch.process_message Dispatch.entities_done
  process_message-footing now type payload s = ground (
    arith,
    with_fields-footing payload (λ _. send_message MsgType.device_info_request []) s
        (λ _. send_message-footing MsgType.device_info_request [] s),
    with_fields-footing payload (Messages.device_info_response p) s
        (λ fields. device_info_response-footing fields s),
    with_fields-footing payload
        (λ fields s'. record s' {
          pending_entities = process_entity_info p.qt type fields s'.pending_entities;
        })
        s (λ _. refl),
    send_message-footing MsgType.subscribe_states []
        (record (Messages.apply_discovered_entities p s) { state = subscribe }),
    apply_discovered_entities-footing s,
    with_fields-footing payload (Dispatch.state_fields p now type) s
        (λ fields. state_fields-footing now type fields s),
    ping_response-footing now s,
    send_message-footing MsgType.disconnect_response [] s,
  )
