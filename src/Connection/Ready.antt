-- ===== src/Connection/Ready.antt =====
-- The invariant of a connection's state, its Noise object and its ping timer, event by event.
use homed_service_esphome.Prelude.{
  ℕ, ◌+◌, ◌≡◌, refl, ◌∙◌, Bool, true, false, ◌&&◌, [], ◌∷◌, ◌++◌, some, Bytes, arith, Option-cases,
  inl, inr, length,
}
use homed_service_esphome.Prelude.Text.{Text}
use homed_service_esphome.Noise.{Noise, NoiseC, decrypt, read_handshake, split_handshake}
use homed_service_esphome.Frame.{read_ready}
use homed_service_esphome.Frame.Keeps.{drain_keeps}
use homed_service_esphome.Connection.Session.{
  State, disconnected, connecting, client_hello, server_hello, noise_handshake, ready,
  list_entities, subscribe, Platform, Connection, send_message, send_raw,
}
use homed_service_esphome.MsgType
use homed_service_esphome.Device.{online}
use homed_service_esphome.Command.{Argument, command_message}
use homed_service_esphome.Prelude.Maps.{lookup, nat_key}
use homed_service_esphome.Connection.Recovery.{on_disconnected-state}
use homed_service_esphome.Connection.Messages
use homed_service_esphome.Connection.Receiving
use homed_service_esphome.Connection.Events
use homed_service_esphome.Connection.Events.{Event}
use homed_service_esphome.Connection.Kept.{
  Secured, no_noise, complete, footing, send_message-footing, process_message-footing,
}

abbrev pub is_present : Secured → Bool
is_present no_noise = false
is_present _ = true

abbrev pub is_complete : Secured → Bool
is_complete complete = true
is_complete _ = false

abbrev pub guarded : State → Secured × Bool → Bool
guarded disconnected f = true
guarded connecting f = true
guarded client_hello f = true
guarded server_hello f = is_present f.0
guarded noise_handshake f = is_present f.0
guarded ready f = is_complete f.0 && f.1
guarded list_entities f = is_complete f.0 && f.1
guarded subscribe f = is_complete f.0 && f.1

abbrev pub IsGuarded : (p : Platform) → Connection p → Type 0
IsGuarded p s = guarded s.state (footing s) ≡ true

guarded_complete : (state : State) → guarded state (complete, true) ≡ true
guarded_complete disconnected = refl
guarded_complete connecting = refl
guarded_complete client_hello = refl
guarded_complete server_hello = refl
guarded_complete noise_handshake = refl
guarded_complete ready = refl
guarded_complete list_entities = refl
guarded_complete subscribe = refl

decrypt-complete :
    {c : NoiseC} (n : Noise c) (bytes : Bytes) → (decrypt c n bytes).0.complete ≡ n.complete
unfolding decrypt
decrypt-complete n bytes = elim (Option-cases n.recv_cipher) [
  | inl e ↦ rw e refl
  | inr (x, e) ↦ rw e refl
]

-- A handshake that ends well is complete.
read_handshake-complete :
    {c : NoiseC} (n : Noise c) (bytes : Bytes)
    → (read_handshake c n bytes).1 ≡ true
    → (read_handshake c n bytes).0.complete ≡ true
unfolding read_handshake split_handshake
read_handshake-complete n bytes h = ground arith

module _ (p : Platform) where
  on_plaintext-footing :
      (now : ℕ) (plaintext : Bytes) (s : Connection p)
      → footing (Receiving.on_plaintext p now plaintext s).0 ≡ footing s
  unfolding Receiving.on_plaintext Receiving.refuse
  on_plaintext-footing now [] s = refl
  on_plaintext-footing now (b ∷ rest) s = elim (Option-cases (Receiving.parse_inner (b ∷ rest))) [
    | inl e ↦ ground (arith, e)
    | inr (m, e) ↦ ground (arith, e, process_message-footing p now m.0 m.1 s)
  ]

  on_encrypted-footing :
      (now : ℕ) (payload : Bytes) (s : Connection p)
      → footing (Receiving.on_encrypted p now payload s).0 ≡ footing s
  unfolding Receiving.on_encrypted
  on_encrypted-footing now payload s = elim (Option-cases s.noise) [
    | inl e ↦ rw e refl
    | inr (n, e) ↦
        let d : Noise p.noise_c × Bytes = decrypt p.noise_c n payload in
        ground (
          arith,
          e,
          decrypt-complete n payload,
          on_plaintext-footing now d.1 (record s { noise = some d.0 }),
        )
  ]

  IsGuarded-by :
      (s : Connection p) (f : Secured × Bool)
      → is_complete f.0 && f.1 ≡ true
      → footing s ≡ f
      → IsGuarded p s
  IsGuarded-by s f h e = ground (arith, guarded_complete s.state)

  on_server_hello-IsGuarded :
      (payload : Bytes) (s : Connection p)
      → IsGuarded p s
      → is_present (footing s).0 ≡ true
      → IsGuarded p (Receiving.on_server_hello p payload s).0
  unfolding Receiving.on_server_hello Receiving.refuse Receiving.adopt_name Messages.update_device
  on_server_hello-IsGuarded [] s g h = g
  on_server_hello-IsGuarded (first ∷ rest) s g h = ground arith

  noise_done-IsGuarded :
      (now : ℕ) (s : Connection p)
      → is_complete (footing s).0 ≡ true
      → IsGuarded p (Receiving.noise_done p now s)
  unfolding Receiving.noise_done Messages.update_device
  noise_done-IsGuarded now s h =
      let s' : Connection p =
        Messages.update_device p s.device (λ d. record d { last_seen = now; availability = online })
          (record s { state = ready; handshake_timer = false; ping_timer = true }) in
      IsGuarded-by (Receiving.noise_done p now s) (complete, true) refl
        (send_message-footing MsgType.hello_request (Receiving.hello_payload p) s' ∙ ground arith)

  on_noise_response-IsGuarded :
      (now : ℕ) (payload : Bytes) (s : Connection p)
      → s.state ≡ noise_handshake
      → IsGuarded p s
      → IsGuarded p (Receiving.on_noise_response p now payload s).0
  unfolding Receiving.on_noise_response Receiving.refuse
  on_noise_response-IsGuarded now [] s e g = g
  on_noise_response-IsGuarded now (first ∷ rest) s e g = elim (Option-cases s.noise) [
    | inl none_eq ↦ ground arith
    | inr (n, some_eq) ↦
        let r : Noise p.noise_c × Bool = read_handshake p.noise_c n rest in
        ground (
          arith,
          e,
          some_eq,
          read_handshake-complete n rest,
          noise_done-IsGuarded now (record s { noise = some r.0 }),
        )
  ]

  on_frame-IsGuarded :
      (now : ℕ) (s : Connection p) (payload : Bytes)
      → IsGuarded p s
      → IsGuarded p (Receiving.on_frame p now s payload).0
  unfolding Receiving.on_frame
  on_frame-IsGuarded now s payload h = ground (
    arith,
    on_server_hello-IsGuarded payload s,
    on_noise_response-IsGuarded now payload s,
    IsGuarded-by (Receiving.on_encrypted p now payload s).0 (footing s),
    on_encrypted-footing now payload s,
  )

  on_ready_read-IsGuarded :
      (now : ℕ) (bytes : Bytes) (s : Connection p)
      → IsGuarded p s
      → IsGuarded p (Receiving.on_ready_read p now bytes s)
  unfolding Receiving.on_ready_read read_ready Receiving.on_bad
  on_ready_read-IsGuarded now bytes s h =
      drain_keeps (Receiving.on_bad p) (Receiving.on_frame p now) (IsGuarded p) (λ t g. g)
        (on_frame-IsGuarded now) (length (s.rx_buf ++ bytes) + 1) s (s.rx_buf ++ bytes) h

  send_message-state :
      (type : ℕ) (payload : Bytes) (s : Connection p)
      → (send_message type payload s).state ≡ s.state
  unfolding send_message send_raw
  send_message-state type payload s = ground arith

  send_message-IsGuarded :
      (type : ℕ) (payload : Bytes) (s : Connection p)
      → IsGuarded p s
      → IsGuarded p (send_message type payload s)
  send_message-IsGuarded type payload s h =
      rw (send_message-state type payload s, send_message-footing type payload s) h

  send_command-IsGuarded :
      (id endpoint_id : ℕ) (action : Text) (value : Argument) (s : Connection p)
      → IsGuarded p s
      → IsGuarded p (Events.send_command p id endpoint_id action value s)
  unfolding Events.send_command
  send_command-IsGuarded id endpoint_id action value s h =
      elim (Option-cases (lookup endpoint_id (s.store.objects id).endpoints)) [
        | inl e ↦ ground (arith, e)
        | inr (ep, e) ↦ elim (Option-cases (command_message p.qt ep action value)) [
          | inl e' ↦ ground (arith, e, e')
          | inr (m, e') ↦ ground (arith, e, e', send_message-IsGuarded m.type m.payload s)
        ]
      ]

  -- Every event keeps this: a connection that waits for the server's hello or for its handshake has
  -- a Noise object, and one that is ready has a complete Noise object and a running ping timer.
  pub handle-IsGuarded :
      (e : Event) (s : Connection p) → IsGuarded p s → IsGuarded p (Events.handle p e s)
  unfolding Events.handle Events.connect_to_device Events.disconnect_from_device Events.on_connected
      Events.on_error Events.on_ping_timer Events.on_reconnect_timer Events.on_handshake_timer
      Events.retry_later send_raw
  handle-IsGuarded Event.connect_call s h = ground arith
  handle-IsGuarded Event.disconnect_call s h = refl
  handle-IsGuarded (Event.command_call id endpoint_id action value) s h =
      send_command-IsGuarded id endpoint_id action value s h
  handle-IsGuarded (Event.connected random) s h = ground arith
  handle-IsGuarded Event.closed s h = ground (arith, on_disconnected-state p s)
  handle-IsGuarded Event.error s h = ground arith
  handle-IsGuarded (Event.ready_read now bytes) s h = on_ready_read-IsGuarded now bytes s h
  handle-IsGuarded Event.ping_timeout s h =
      ground (arith, send_message-IsGuarded MsgType.ping_request [] s)
  handle-IsGuarded Event.handshake_timeout s h = h
  handle-IsGuarded (Event.reconnect_timeout closes) s h = ground arith
