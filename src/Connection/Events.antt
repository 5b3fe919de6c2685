-- ===== src/Connection/Events.antt =====
-- The other slots of EspHomeDevice, its public calls, and the events that reach it. `random` is what
-- noise-c draws for a connection.
use homed_service_esphome.Prelude.{
  ℕ, Bool, true, false, List, [], ◌∷◌, ◌++◌, none, some, Bytes, if◌then◌else◌,
}
use homed_service_esphome.Prelude.Text.{Text}
use homed_service_esphome.Prelude.Maps.{nat_key, lookup}
use homed_service_esphome.MsgType
use homed_service_esphome.Device.{offline}
use homed_service_esphome.Noise.{new_noise, write_handshake}
use homed_service_esphome.Frame.{frame}
use homed_service_esphome.Command.{Argument, command_message}
use homed_service_esphome.Connection.Session.{
  State, disconnected, connecting, server_hello, ready, list_entities, subscribe, Platform,
  Connection, emit, main_device, send_message, send_raw, known_sub_devices, disconnect_from_host,
  connect_to_host, abort, availability_changed,
}
use homed_service_esphome.Connection.Messages.{update_device}
use homed_service_esphome.Connection.Receiving.{on_ready_read}

abbrev pub is_disconnected : State → Bool
is_disconnected disconnected = true
is_disconnected _ = false

-- `wasReady`
abbrev pub is_ready : State → Bool
is_ready ready = true
is_ready list_entities = true
is_ready subscribe = true
is_ready _ = false

module _ (p : Platform) where
  open p use {qt, noise_c}

  unfoldable pub connect_to_device : Connection p → Connection p
  connect_to_device s = elim (is_disconnected s.state) [
    | false ↦ s
    | true ↦
        emit (connect_to_host (main_device s).host (main_device s).port)
          (record s { state = connecting; rx_buf = []; noise_handshake_state = 0 })
  ]

  unfoldable pub disconnect_from_device : Connection p → Connection p
  disconnect_from_device s = emit disconnect_from_host (record s {
    ping_timer = false;
    reconnect_timer = false;
    handshake_timer = false;
    state = disconnected;
  })

  -- The empty client hello, and the first Noise message with a zero byte in front.
  unfoldable pub on_connected : Bytes → Connection p → Connection p
  on_connected random s =
      let (n, handshake_data) =
        write_handshake noise_c (new_noise noise_c random (main_device s).encryption_key) in
      send_raw (frame [] ++ frame (0x00 ∷ handshake_data)) (record s {
        reconnect_timer = false;
        handshake_timer = true;
        noise = some n;
        state = server_hello;
        noise_handshake_state = 0;
      })

  unfoldable pub go_offline : ℕ → Connection p → Connection p
  go_offline id s =
      emit (availability_changed id)
        (update_device p id (λ d. record d { availability = offline }) s)

  unfoldable pub all_offline : List ℕ → Connection p → Connection p
  all_offline [] s = s
  all_offline (id ∷ ids) s = all_offline ids (go_offline id s)

  -- `if (m_device->active()) m_reconnectTimer->start();`
  unfoldable pub retry_later : Connection p → Connection p
  retry_later s = if (main_device s).active then record s { reconnect_timer = true } else s

  -- The device itself, and then its sub-devices.
  unfoldable pub report_offline : Connection p → Connection p
  report_offline s = let s' = go_offline s.device s in all_offline (known_sub_devices qt s') s'

  unfoldable pub on_disconnected : Connection p → Connection p
  on_disconnected s =
      let closed = record s {
        ping_timer = false;
        handshake_timer = false;
        rx_buf = [];
        noise_handshake_state = 0;
        state = disconnected;
        noise = none;
      } in
      retry_later (if is_ready s.state then report_offline closed else closed)

  unfoldable pub on_error : Connection p → Connection p
  on_error s = retry_later s

  unfoldable pub on_ping_timer : Connection p → Connection p
  on_ping_timer s = elim s.state [
    | ready ↦ send_message MsgType.ping_request [] s
    | subscribe ↦ send_message MsgType.ping_request [] s
    | _ ↦ s
  ]

  -- `closes`: abort() calls onDisconnected before it returns.
  unfoldable pub on_reconnect_timer : Bool → Connection p → Connection p
  on_reconnect_timer closes s =
      let aborted = emit abort s in
      let s' = record (if closes then on_disconnected aborted else aborted) {
        reconnect_timer = false;
        state = disconnected;
      } in
      if (main_device s').active then connect_to_device s' else s'

  -- A single-shot timer, which has stopped.
  unfoldable pub on_handshake_timer : Connection p → Connection p
  on_handshake_timer s = emit abort (record s { handshake_timer = false })

  -- sendCommand, for the object `id` of a device.
  unfoldable pub send_command : (id endpoint_id : ℕ) → Text → Argument → Connection p → Connection p
  send_command id endpoint_id action value s = elim s.state [
    | subscribe ↦ elim (lookup endpoint_id (s.store.objects id).endpoints) [
      | none ↦ s
      | some ep ↦ elim (command_message qt ep action value) [
        | none ↦ s
        | some m ↦ send_message m.type m.payload s
      ]
    ]
    | _ ↦ s
  ]

-- What reaches a connection: its public calls, the signals of its socket and its timers.
pub data Event : Type 0 where
  connect_call disconnect_call : Event
  command_call : (id endpoint_id : ℕ) → Text → Argument → Event
  connected : Bytes → Event
  closed error : Event
  ready_read : ℕ → Bytes → Event
  ping_timeout handshake_timeout : Event
  reconnect_timeout : Bool → Event

unfoldable pub handle : (p : Platform) → Event → Connection p → Connection p
handle p connect_call s = connect_to_device p s
handle p disconnect_call s = disconnect_from_device p s
handle p (command_call id endpoint_id action value) s = send_command p id endpoint_id action value s
handle p (connected random) s = on_connected p random s
handle p closed s = on_disconnected p s
handle p error s = on_error p s
handle p (ready_read now bytes) s = on_ready_read p now bytes s
handle p ping_timeout s = on_ping_timer p s
handle p handshake_timeout s = on_handshake_timer p s
handle p (reconnect_timeout closes) s = on_reconnect_timer p closes s
