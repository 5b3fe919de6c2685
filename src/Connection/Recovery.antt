-- ===== src/Connection/Recovery.antt =====
-- onDisconnected, onError and onReconnectTimer: the way back to a connection.
use homed_service_esphome.Prelude.{
  ℕ, ◌≡◌, refl, ◌∙◌, Bool, true, false, List, [], ◌∷◌, ◌++◌, arith, none,
}
use homed_service_esphome.Device.{modify}
use homed_service_esphome.Connection.Session.{
  disconnected, connecting, Effect, Platform, Connection, emit, main_device, known_sub_devices,
  connect_to_host, abort,
}
use homed_service_esphome.Connection.Messages
use homed_service_esphome.Connection.Events

module _ (p : Platform) where
  -- What the connection needs of its device in order to connect again.
  record SameTarget (s t : Connection p) : Type 0 where
    state : t.state ≡ s.state
    active : (main_device t).active ≡ (main_device s).active
    host : (main_device t).host ≡ (main_device s).host
    port : (main_device t).port ≡ (main_device s).port

  go_offline-SameTarget : (id : ℕ) (s : Connection p) → SameTarget s (Events.go_offline p id s)
  unfolding Events.go_offline Messages.update_device modify
  go_offline-SameTarget id s = record {
    state = refl;
    active = ground arith;
    host = ground arith;
    port = ground arith;
  }

  all_offline-SameTarget :
      (ids : List ℕ) (s : Connection p) → SameTarget s (Events.all_offline p ids s)
  unfolding Events.all_offline
  all_offline-SameTarget [] s = record { state = refl; active = refl; host = refl; port = refl }
  all_offline-SameTarget (id ∷ ids) s =
      let step = go_offline-SameTarget id s in
      let rest = all_offline-SameTarget ids (Events.go_offline p id s) in
      record {
        state = rest.state ∙ step.state;
        active = rest.active ∙ step.active;
        host = rest.host ∙ step.host;
        port = rest.port ∙ step.port;
      }

  report_offline-SameTarget : (s : Connection p) → SameTarget s (Events.report_offline p s)
  unfolding Events.report_offline
  report_offline-SameTarget s =
      let s' : Connection p = Events.go_offline p s.device s in
      let step = go_offline-SameTarget s.device s in
      let rest = all_offline-SameTarget (known_sub_devices p.qt s') s' in
      record {
        state = rest.state ∙ step.state;
        active = rest.active ∙ step.active;
        host = rest.host ∙ step.host;
        port = rest.port ∙ step.port;
      }

  abbrev closed : Connection p → Connection p
  closed s = record s {
    ping_timer = false;
    handshake_timer = false;
    rx_buf = [];
    noise_handshake_state = 0;
    state = disconnected;
    noise = none;
  }

  on_disconnected-SameTarget :
      (s : Connection p) → SameTarget (closed s) (Events.on_disconnected p s)
  unfolding Events.on_disconnected Events.retry_later
  on_disconnected-SameTarget s =
      let r = report_offline-SameTarget (closed s) in
      record {
        state = ground (arith, r.state);
        active = ground (arith, r.active);
        host = ground (arith, r.host);
        port = ground (arith, r.port);
      }

  pub on_disconnected-state : (s : Connection p) → (Events.on_disconnected p s).state ≡ disconnected
  on_disconnected-state s = (on_disconnected-SameTarget s).state

  -- When the connection of an active device is lost, or an attempt fails, the reconnect timer runs
  -- afterwards, and after the loss the device is still active and the connection is disconnected.
  pub lost-retries :
      (s : Connection p)
      → (main_device s).active ≡ true
      → ((Events.on_disconnected p s).reconnect_timer ≡ true)
        × ((main_device (Events.on_disconnected p s)).active ≡ true)
        × ((Events.on_disconnected p s).state ≡ disconnected)
        × ((Events.on_error p s).reconnect_timer ≡ true)
  unfolding Events.on_disconnected Events.on_error Events.retry_later
  lost-retries s h =
      let same = report_offline-SameTarget (closed s) in
      (
        ground (arith, same.active),
        (on_disconnected-SameTarget s).active ∙ h,
        on_disconnected-state s,
        ground arith,
      )

  -- When the reconnect timer of an active device runs out, whatever state the connection is in and
  -- whether or not abort() reports the old connection closed, the connection ends in `connecting`
  -- with an empty buffer, and the last thing it does is to call connectToHost for the device's host
  -- and port.
  pub on_reconnect_timer-connects :
      (closes : Bool) (s : Connection p)
      → (main_device s).active ≡ true
      → ((Events.on_reconnect_timer p closes s).state ≡ connecting)
        × ((Events.on_reconnect_timer p closes s).rx_buf ≡ [])
        × ((before : List Effect) × ((Events.on_reconnect_timer p closes s).out
              ≡ before ++ (connect_to_host (main_device s).host (main_device s).port ∷ [])))
  unfolding Events.on_reconnect_timer Events.connect_to_device
  on_reconnect_timer-connects false s h = rw h (refl, refl, (_, refl))
  on_reconnect_timer-connects true s h =
      let same = on_disconnected-SameTarget (emit abort s) in
      rw (same.active, same.host, same.port, h) (refl, refl, (_, refl))
