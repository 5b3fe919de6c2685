-- ===== src/Frame.antt =====
-- esphome.cpp, the framing of EspHomeDevice::onReadyRead, onConnected and sendMessage: a frame is
-- the byte 0x01, a 16-bit size with its high byte first, and that many bytes.
-- The loop is generic over what the device does with a frame (Connection.on_frame).
pub mod Chunks
pub mod Inverse
pub mod Keeps
use homed_service_esphome.Prelude.{
  ℕ, zero, suc, ◌+◌, ◌*◌, ◌/◌, ◌%◌, ◌^◌, bit_or, Bool, true, false, List, [], ◌∷◌, ◌++◌, Bytes, ltb,
  ◌==◌, if◌then◌else◌, length, take, drop, not,
}

-- `static_cast<quint16>(size)`, then `(x >> 8) & 0xFF` and `x & 0xFF`.
abbrev pub quint16 : ℕ → ℕ
quint16 x = x % 2 ^ 16

abbrev pub size_bytes : ℕ → Bytes
size_bytes x = x / 2 ^ 8 % 2 ^ 8 ∷ x % 2 ^ 8 ∷ []

-- The frame that sendMessage (around encrypted data) and onConnected write.
unfoldable pub frame : Bytes → Bytes
frame payload = 0x01 ∷ (size_bytes (quint16 (length payload)) ++ payload)

abbrev pub read_size : ℕ → ℕ → ℕ
read_size hi lo = bit_or (hi * 2 ^ 8) lo

-- How a round of the loop in onReadyRead begins: it returns for want of bytes, it finds a bad
-- indicator, or it cuts a frame off the buffer.
pub data Next : Type 0 where
  wait : Next
  bad_indicator : Next
  cut : Bytes → Bytes → Next

unfoldable pub cut_sized : ℕ → Bytes → Next
cut_sized frame_size body =
    if ltb (length body) frame_size then wait else cut (take frame_size body) (drop frame_size body)

unfoldable pub next_frame : Bytes → Next
next_frame [] = wait
next_frame (indicator ∷ []) = wait
next_frame (indicator ∷ hi ∷ []) = wait
next_frame (indicator ∷ hi ∷ lo ∷ body) =
    if not (indicator == 0x01) then bad_indicator else cut_sized (read_size hi lo) body

-- Whether the handler of a frame lets the loop go on, or returns from onReadyRead.
pub data Verdict : Type 0 where
  proceed leave : Verdict

-- What onReadyRead leaves behind: the device, `m_rxBuf`, and whether it returned early.
pub record Drained (S : Type 0) : Type 0 where
  pub device : S
  pub rx_buf : Bytes
  pub left : Bool

module _ {S : Type 0} (on_bad : S → S) (on_frame : S → Bytes → S × Verdict) where
  -- The loop; each frame takes three bytes at least, so the length of the buffer is fuel enough.
  unfoldable pub drain : ℕ → S → Bytes → Drained S
  drain zero s buf = record { device = s; rx_buf = buf; left = false }
  drain (suc fuel) s buf = elim (next_frame buf) [
    | wait ↦ record { device = s; rx_buf = buf; left = false }
    | bad_indicator ↦ record { device = on_bad s; rx_buf = buf; left = true }
    | cut payload rest ↦ elim ((on_frame s payload).1) [
      | proceed ↦ drain fuel (on_frame s payload).0 rest
      | leave ↦ record { device = (on_frame s payload).0; rx_buf = rest; left = true }
    ]
  ]

  -- `m_rxBuf.append(m_socket->readAll())`, and the loop.
  unfoldable pub read_ready : S → Bytes → Bytes → Drained S
  read_ready s rx_buf bytes = drain (length (rx_buf ++ bytes) + 1) s (rx_buf ++ bytes)
