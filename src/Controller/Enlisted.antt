-- ===== src/Controller/Enlisted.antt =====
-- The list of devices under the events of a connection: what it receives, its timers and its calls.
use homed_service_esphome.Prelude.{
  ℕ, ◌+◌, refl, Bool, List, [], ◌∷◌, ◌++◌, some, Bytes, ◌==◌, Bool-cases, Option-cases, inl, inr,
  if_keeps, arith, length,
}
use homed_service_esphome.Prelude.Text.{Text}
use homed_service_esphome.Prelude.Maps.{lookup, nat_key}
use homed_service_esphome.Noise.{Noise, read_handshake, decrypt}
use homed_service_esphome.Frame.{read_ready}
use homed_service_esphome.Frame.Keeps.{drain_keeps}
use homed_service_esphome.MsgType
use homed_service_esphome.Command.{Argument, command_message}
use homed_service_esphome.Connection.Session.{
  Platform, Connection, emit, abort, send_raw, known_sub_devices,
}
use homed_service_esphome.Connection.Receiving
use homed_service_esphome.Connection.Events
use homed_service_esphome.Connection.Events.{Event}
use homed_service_esphome.Controller.Registry.{IsProper}
use homed_service_esphome.Controller.Enlisting.{
  IsEnlisted, send_message-IsEnlisted, update_device-IsEnlisted, process_message-IsEnlisted,
}

module _ (p : Platform) where
  adopt_name-IsEnlisted :
      (name : Text) (s : Connection p)
      → IsEnlisted p s
      → IsEnlisted p (Receiving.adopt_name p name s)
  unfolding Receiving.adopt_name
  adopt_name-IsEnlisted name s h = ground (
    arith,
    h,
    update_device-IsEnlisted p s.device (λ d. record d { name = name }) s (λ d. refl) h,
  )

  on_server_hello-IsEnlisted :
      (payload : Bytes) (s : Connection p)
      → IsEnlisted p s
      → IsEnlisted p (Receiving.on_server_hello p payload s).0
  unfolding Receiving.on_server_hello Receiving.refuse
  on_server_hello-IsEnlisted [] s h = h
  on_server_hello-IsEnlisted (first ∷ rest) s h = elim (Bool-cases (first == 0x01)) [
    | inr e ↦ rw e h
    | inl e ↦ elim (Option-cases (Receiving.server_name_bytes rest)) [
      | inl e' ↦ rw (e, e') h
      | inr (name, e') ↦
          rw (e, e') (adopt_name-IsEnlisted (p.qt.mqtt_safe (p.qt.from_utf8 name)) s h)
    ]
  ]

  noise_done-IsEnlisted :
      (now : ℕ) (s : Connection p) → IsEnlisted p s → IsEnlisted p (Receiving.noise_done p now s)
  unfolding Receiving.noise_done
  noise_done-IsEnlisted now s h =
      send_message-IsEnlisted p MsgType.hello_request (Receiving.hello_payload p) _
        (update_device-IsEnlisted p s.device _ _ (λ d. refl) h)

  on_noise_response-IsEnlisted :
      (now : ℕ) (payload : Bytes) (s : Connection p)
      → IsEnlisted p s
      → IsEnlisted p (Receiving.on_noise_response p now payload s).0
  unfolding Receiving.on_noise_response Receiving.refuse
  on_noise_response-IsEnlisted now [] s h = h
  on_noise_response-IsEnlisted now (first ∷ rest) s h = elim (Bool-cases (first == 0)) [
    | inr e ↦ rw e h
    | inl e ↦ elim (Option-cases s.noise) [
      | inl e' ↦ rw (e, e') h
      | inr (n, e') ↦ elim (Bool-cases (read_handshake p.noise_c n rest).1) [
        | inl e'' ↦ rw (e, e', e'') (noise_done-IsEnlisted now _ h)
        | inr e'' ↦ rw (e, e', e'') h
      ]
    ]
  ]

  on_plaintext-IsEnlisted :
      (now : ℕ) (plaintext : Bytes) (s : Connection p)
      → IsEnlisted p s
      → IsEnlisted p (Receiving.on_plaintext p now plaintext s).0
  unfolding Receiving.on_plaintext Receiving.refuse
  on_plaintext-IsEnlisted now [] s h = h
  on_plaintext-IsEnlisted now (b ∷ rest) s h =
      elim (Option-cases (Receiving.parse_inner (b ∷ rest))) [
        | inl e ↦ rw (Receiving.on_plaintext, e) h
        | inr (m, e) ↦ rw (Receiving.on_plaintext, e) (process_message-IsEnlisted p now m.0 m.1 s h)
      ]

  on_encrypted-IsEnlisted :
      (now : ℕ) (payload : Bytes) (s : Connection p)
      → IsEnlisted p s
      → IsEnlisted p (Receiving.on_encrypted p now payload s).0
  unfolding Receiving.on_encrypted
  on_encrypted-IsEnlisted now payload s h = elim (Option-cases s.noise) [
    | inl e ↦ rw e h
    | inr (n, e) ↦
        let d : Noise p.noise_c × Bytes = decrypt p.noise_c n payload in
        ground (arith, e, h, on_plaintext-IsEnlisted now d.1 (record s { noise = some d.0 }) h)
  ]

  on_frame-IsEnlisted :
      (now : ℕ) (s : Connection p) (payload : Bytes)
      → IsEnlisted p s
      → IsEnlisted p (Receiving.on_frame p now s payload).0
  unfolding Receiving.on_frame
  on_frame-IsEnlisted now s payload h = ground (
    arith,
    h,
    on_server_hello-IsEnlisted payload s h,
    on_noise_response-IsEnlisted now payload s h,
    on_encrypted-IsEnlisted now payload s h,
  )

  on_ready_read-IsEnlisted :
      (now : ℕ) (bytes : Bytes) (s : Connection p)
      → IsEnlisted p s
      → IsEnlisted p (Receiving.on_ready_read p now bytes s)
  unfolding Receiving.on_ready_read read_ready Receiving.on_bad
  on_ready_read-IsEnlisted now bytes s h =
      drain_keeps (Receiving.on_bad p) (Receiving.on_frame p now) (IsEnlisted p) (λ t g. g)
        (on_frame-IsEnlisted now) (length (s.rx_buf ++ bytes) + 1) s (s.rx_buf ++ bytes) h

  go_offline-IsEnlisted :
      (id : ℕ) (s : Connection p) → IsEnlisted p s → IsEnlisted p (Events.go_offline p id s)
  unfolding Events.go_offline
  go_offline-IsEnlisted id s h = update_device-IsEnlisted p id _ s (λ d. refl) h

  all_offline-IsEnlisted :
      (ids : List ℕ) (s : Connection p) → IsEnlisted p s → IsEnlisted p (Events.all_offline p ids s)
  unfolding Events.all_offline
  all_offline-IsEnlisted [] s h = h
  all_offline-IsEnlisted (id ∷ ids) s h =
      all_offline-IsEnlisted ids (Events.go_offline p id s) (go_offline-IsEnlisted id s h)

  report_offline-IsEnlisted :
      (s : Connection p) → IsEnlisted p s → IsEnlisted p (Events.report_offline p s)
  unfolding Events.report_offline
  report_offline-IsEnlisted s h =
      all_offline-IsEnlisted (known_sub_devices p.qt (Events.go_offline p s.device s)) _
        (go_offline-IsEnlisted s.device s h)

  retry_later-IsEnlisted :
      (s : Connection p) → IsEnlisted p s → IsEnlisted p (Events.retry_later p s)
  unfolding Events.retry_later
  retry_later-IsEnlisted s h = ground (arith, h)

  on_disconnected-IsEnlisted :
      (s : Connection p) → IsEnlisted p s → IsEnlisted p (Events.on_disconnected p s)
  unfolding Events.on_disconnected
  on_disconnected-IsEnlisted s h =
      retry_later-IsEnlisted _
        (if_keeps (IsEnlisted p) (Events.is_ready s.state) (report_offline-IsEnlisted _ h) h)

  connect_to_device-IsEnlisted :
      (s : Connection p) → IsEnlisted p s → IsEnlisted p (Events.connect_to_device p s)
  unfolding Events.connect_to_device
  connect_to_device-IsEnlisted s h = ground (arith, h)

  on_reconnect_timer-IsEnlisted :
      (closes : Bool) (s : Connection p)
      → IsEnlisted p s
      → IsEnlisted p (Events.on_reconnect_timer p closes s)
  unfolding Events.on_reconnect_timer
  on_reconnect_timer-IsEnlisted closes s h =
      let closed = if_keeps (IsEnlisted p) closes (on_disconnected-IsEnlisted (emit abort s) h) h in
      if_keeps (IsEnlisted p) _ (connect_to_device-IsEnlisted _ closed) closed

  send_command-IsEnlisted :
      (id endpoint_id : ℕ) (action : Text) (value : Argument) (s : Connection p)
      → IsEnlisted p s
      → IsEnlisted p (Events.send_command p id endpoint_id action value s)
  unfolding Events.send_command
  send_command-IsEnlisted id endpoint_id action value s h =
      elim (Option-cases (lookup endpoint_id (s.store.objects id).endpoints)) [
        | inl e ↦ ground (arith, e, h)
        | inr (ep, e) ↦ elim (Option-cases (command_message p.qt ep action value)) [
          | inl e' ↦ ground (arith, e, e', h)
          | inr (m, e') ↦ ground (arith, e, e', h, send_message-IsEnlisted p m.type m.payload s h)
        ]
      ]

  -- Every event that reaches a connection keeps the list of devices proper: a list in which no two
  -- devices have the same host, and every device is older than the number of the next object, is so
  -- afterwards, whatever the device sent, sub-devices that the event adds included.
  pub handle-IsEnlisted :
      (e : Event) (s : Connection p) → IsProper s.store → IsProper (Events.handle p e s).store
  unfolding Events.handle Events.disconnect_from_device Events.on_connected Events.on_error
      Events.on_ping_timer Events.on_handshake_timer send_raw
  handle-IsEnlisted Event.connect_call s h = connect_to_device-IsEnlisted s h
  handle-IsEnlisted Event.disconnect_call s h = h
  handle-IsEnlisted (Event.command_call id endpoint_id action value) s h =
      send_command-IsEnlisted id endpoint_id action value s h
  handle-IsEnlisted (Event.connected random) s h = h
  handle-IsEnlisted Event.closed s h = on_disconnected-IsEnlisted s h
  handle-IsEnlisted Event.error s h = retry_later-IsEnlisted s h
  handle-IsEnlisted (Event.ready_read now bytes) s h = on_ready_read-IsEnlisted now bytes s h
  handle-IsEnlisted Event.ping_timeout s h =
      ground (arith, h, send_message-IsEnlisted p MsgType.ping_request [] s h)
  handle-IsEnlisted Event.handshake_timeout s h = h
  handle-IsEnlisted (Event.reconnect_timeout closes) s h = on_reconnect_timer-IsEnlisted closes s h
