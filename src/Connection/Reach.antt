-- ===== src/Connection/Reach.antt =====
-- The connections that a sequence of events leads to, from the one that the constructor of
-- EspHomeDevice makes.
use homed_service_esphome.Prelude.{
  ℕ, ◌≡◌, refl, Bool, true, false, [], ◌∷◌, ◌++◌, none, some, Bytes, arith, Option-cases, inl, inr,
}
use homed_service_esphome.MsgType
use homed_service_esphome.Device.{Store, online}
use homed_service_esphome.Noise.{Noise, encrypt, read_handshake}
use homed_service_esphome.Frame.{frame}
use homed_service_esphome.Connection.Session.{
  disconnected, noise_handshake, ready, write, Platform, Connection, send_message, send_raw,
  inner_message,
}
use homed_service_esphome.Connection.Messages
use homed_service_esphome.Connection.Receiving
use homed_service_esphome.Connection.Events.{Event, handle, is_ready}
use homed_service_esphome.Connection.Ready.{IsGuarded, handle-IsGuarded}

-- The constructor.
unfoldable pub new_connection : (p : Platform) → ℕ → Store p.qt.Double → Connection p
new_connection p device store = record {
  device = device;
  store = store;
  state = disconnected;
  noise = none;
  rx_buf = [];
  noise_handshake_state = 0;
  ping_timer = false;
  reconnect_timer = false;
  handshake_timer = false;
  sub_device_names = [];
  pending_entities = [];
  out = [];
  hung = false;
}

-- A hung connection handles no event.
pub data Reachable (p : Platform) : Connection p → Type 0 where
  made : (device : ℕ) (store : Store p.qt.Double) → Reachable p (new_connection p device store)
  handled :
      (s : Connection p) (e : Event) → Reachable p s → s.hung ≡ false → Reachable p (handle p e s)
  -- Other connections and the controller change the shared objects.
  changed :
      (s : Connection p) (store : Store p.qt.Double)
      → Reachable p s
      → Reachable p (record s { store = store })

module _ (p : Platform) where
  pub Reachable-IsGuarded : (s : Connection p) → Reachable p s → IsGuarded p s
  unfolding new_connection
  Reachable-IsGuarded s (made device store) = refl
  Reachable-IsGuarded s (handled s' e r running) =
      handle-IsGuarded p e s' (Reachable-IsGuarded s' r)
  Reachable-IsGuarded s (changed s' store r) = Reachable-IsGuarded s' r

  send_message-hung :
      (type : ℕ) (payload : Bytes) (s : Connection p) → (send_message type payload s).hung ≡ s.hung
  unfolding send_message send_raw
  send_message-hung type payload s = ground arith

  noise_done-hung : (now : ℕ) (s : Connection p) → (Receiving.noise_done p now s).hung ≡ s.hung
  unfolding Receiving.noise_done Messages.update_device
  noise_done-hung now s = send_message-hung MsgType.hello_request (Receiving.hello_payload p) (
      Messages.update_device p s.device (λ d. record d { last_seen = now; availability = online })
        (record s { state = ready; handshake_timer = false; ping_timer = true }))

  -- A reachable connection that has not hung and waits for the handshake's response calls readHandshake on a Noise
  -- object, never on a null pointer: no frame makes it hang.
  pub on_frame-handshake_safe :
      (now : ℕ) (s : Connection p) (payload : Bytes)
      → Reachable p s
      → s.hung ≡ false
      → s.state ≡ noise_handshake
      → (Receiving.on_frame p now s payload).0.hung ≡ false
  unfolding Receiving.on_frame Receiving.on_noise_response Receiving.refuse
  on_frame-handshake_safe now s [] r running e = rw e running
  on_frame-handshake_safe now s (first ∷ rest) r running e =
      let g : IsGuarded p s = Reachable-IsGuarded s r in
      elim (Option-cases s.noise) [
        | inl none_eq ↦ ground (arith, e, none_eq, g)
        | inr (n, some_eq) ↦
            let h : Noise p.noise_c × Bool = read_handshake p.noise_c n rest in
            ground (arith, e, some_eq, noise_done-hung now (record s { noise = some h.0 }))
      ]

  -- In a reachable connection that is ready, sendMessage never drops the message: it hands the
  -- socket one frame, around what the cipher makes of type, length and payload. The ping timer runs.
  pub send_message-written :
      (s : Connection p) (type : ℕ) (payload : Bytes)
      → Reachable p s
      → is_ready s.state ≡ true
      → (s.ping_timer ≡ true)
        × (n : Noise p.noise_c) × ((s.noise ≡ some n)
            × ((send_message type payload s).out
                ≡ s.out
                  ++ (write (frame (encrypt p.noise_c n (inner_message type payload)).1) ∷ [])))
  unfolding send_message send_raw
  send_message-written s type payload r h =
      let g : IsGuarded p s = Reachable-IsGuarded s r in
      elim (Option-cases s.noise) [
        | inl e ↦ ground arith
        | inr (n, e) ↦ (ground (arith, g), n, (e, ground (arith, e, g)))
      ]
