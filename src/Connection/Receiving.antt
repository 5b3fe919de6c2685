-- ===== src/Connection/Receiving.antt =====
-- EspHomeDevice::onReadyRead: what the loop of Frame.drain does with one frame, by the state of the
-- connection. disconnectFromHost and abort are effects; the onDisconnected that follows them is an
-- event of its own (Connection.Events).
use homed_service_esphome.Prelude.{
  ℕ, ◌+◌, true, false, not, ◌&&◌, [], ◌∷◌, Option, none, some, Bytes, ltb, ◌==◌, if◌then◌else◌,
  take,
}
use homed_service_esphome.Prelude.Text.{Text, text_eq, is_empty}
use homed_service_esphome.MsgType
use homed_service_esphome.Device.{online}
use homed_service_esphome.Proto.{add_varint}
use homed_service_esphome.Command.{add_string}
use homed_service_esphome.Noise.{read_handshake, decrypt}
use homed_service_esphome.Frame.{Verdict, proceed, leave, read_size, read_ready}
use homed_service_esphome.Connection.Session.{
  disconnected, connecting, client_hello, server_hello, noise_handshake, ready, list_entities,
  subscribe, Platform, Connection, emit, main_device, send_message, address, disconnect_from_host,
}
use homed_service_esphome.Connection.Messages.{update_device}
use homed_service_esphome.Connection.Dispatch.{process_message}

-- `framePayload.indexOf('\x00')`
unfoldable pub index_of_zero : Bytes → Option ℕ
index_of_zero [] = none
index_of_zero (b ∷ rest) = elim (index_of_zero rest) [
  | none ↦ if b == 0 then some 0 else none
  | some i ↦ if b == 0 then some 0 else some (i + 1)
]

-- The bytes of the name in a server hello, behind its first byte; a name is not empty.
unfoldable pub server_name_bytes : Bytes → Option Bytes
server_name_bytes rest = elim (index_of_zero rest) [
  | none ↦ none
  | some n ↦ if ltb 0 n then some (take n rest) else none
]

-- A message as it comes out of the cipher: its type, and `plaintext.mid(4, dataLen)`.
unfoldable pub parse_inner : Bytes → Option (ℕ × Bytes)
parse_inner (t1 ∷ t0 ∷ l1 ∷ l0 ∷ rest) = some (read_size t1 t0, take (read_size l1 l0) rest)
parse_inner _ = none

module _ (p : Platform) where
  open p use {qt, noise_c}

  unfoldable pub refuse : Connection p → Connection p × Verdict
  refuse s = (emit disconnect_from_host s, leave)

  unfoldable pub adopt_name : Text → Connection p → Connection p
  adopt_name server_name s =
      if not (is_empty server_name) && text_eq (main_device s).name (address qt (main_device s))
      then update_device p s.device (λ d. record d { name = server_name }) s
      else s

  unfoldable pub on_server_hello : Bytes → Connection p → Connection p × Verdict
  on_server_hello [] s = refuse s
  on_server_hello (first ∷ rest) s = if not (first == 0x01) then refuse s else (
    record (elim (server_name_bytes rest) [
      | none ↦ s
      | some name ↦ adopt_name (qt.mqtt_safe (qt.from_utf8 name)) s
    ]) { state = noise_handshake },
    proceed,
  )

  -- The payload of HelloRequest.
  abbrev pub hello_payload : Bytes
  hello_payload = add_varint (add_varint (add_string qt [] 1 "homed-esphome") 2 1) 3 14

  unfoldable pub noise_done : ℕ → Connection p → Connection p
  noise_done now s = send_message MsgType.hello_request hello_payload (
      update_device p s.device (λ d. record d { last_seen = now; availability = online })
        (record s { state = ready; handshake_timer = false; ping_timer = true }))

  -- A handshake without a Noise object would be a null pointer; there is one in this state
  -- (Connection.Ready).
  unfoldable pub on_noise_response : ℕ → Bytes → Connection p → Connection p × Verdict
  on_noise_response now [] s = refuse s
  on_noise_response now (first ∷ noise_data) s =
      if not (first == 0) then refuse s else elim s.noise [
        | none ↦ (record s { hung = true }, leave)
        | some n ↦
            let (n', success) = read_handshake noise_c n noise_data in
            let s' = record s { noise = some n' } in
            elim success [ true ↦ (noise_done now s', proceed) | false ↦ refuse s' ]
      ]

  -- A hung call does not return to the loop.
  abbrev pub verdict_of : Connection p → Verdict
  verdict_of s = if s.hung then leave else proceed

  unfoldable pub on_plaintext : ℕ → Bytes → Connection p → Connection p × Verdict
  on_plaintext now [] s = refuse s
  on_plaintext now (b ∷ rest) s = elim (parse_inner (b ∷ rest)) [
    | none ↦ (s, proceed)
    | some (type, msg_data) ↦ let s' = process_message p now type msg_data s in (s', verdict_of s')
  ]

  unfoldable pub on_encrypted : ℕ → Bytes → Connection p → Connection p × Verdict
  on_encrypted now payload s = elim s.noise [
    | none ↦ (s, leave)
    | some n ↦ elim n.complete [
      | false ↦ (s, leave)
      | true ↦
          let (n', plaintext) = decrypt noise_c n payload in
          on_plaintext now plaintext (record s { noise = some n' })
    ]
  ]

  -- One frame. In a state that expects none, the frame is dropped.
  unfoldable pub on_frame : ℕ → Connection p → Bytes → Connection p × Verdict
  on_frame now s payload = elim s.state [
    | disconnected ↦ (s, proceed)
    | connecting ↦ (s, proceed)
    | client_hello ↦ (s, proceed)
    | server_hello ↦ on_server_hello payload s
    | noise_handshake ↦ on_noise_response now payload s
    | ready ↦ on_encrypted now payload s
    | list_entities ↦ on_encrypted now payload s
    | subscribe ↦ on_encrypted now payload s
  ]

  unfoldable pub on_bad : Connection p → Connection p
  on_bad s = emit disconnect_from_host s

  unfoldable pub on_ready_read : ℕ → Bytes → Connection p → Connection p
  on_ready_read now bytes s =
      let d = read_ready on_bad (on_frame now) s s.rx_buf bytes in
      record d.device { rx_buf = d.rx_buf }
