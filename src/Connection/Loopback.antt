-- ===== src/Connection/Loopback.antt =====
-- sendMessage and onReadyRead against each other.
use homed_service_esphome.Prelude.{
  ℕ, ◌<◌, ◌^◌, ◌≡◌, ◌∙◌, true, [], ◌∷◌, ◌++◌, some, Bytes, arith, length, take-length-append,
}
use mathlib.Core.List.{append-nil}
use homed_service_esphome.Noise.{Noise, encrypt, decrypt}
use homed_service_esphome.Frame.{frame, next_frame, cut, Verdict}
use homed_service_esphome.Frame.Inverse.{next_frame-frame, read_size_bytes}
use homed_service_esphome.Connection.Session.{
  write, Platform, Connection, send_message, send_raw, inner_message,
}
use homed_service_esphome.Connection.Dispatch.{process_message}
use homed_service_esphome.Connection.Receiving.{
  parse_inner, on_frame, on_plaintext, on_encrypted, verdict_of,
}
use homed_service_esphome.Connection.Events.{is_ready}

-- What a ready connection does with a message of this type and payload that came encrypted.
abbrev pub received :
    (p : Platform) (now type : ℕ) (payload sealed : Bytes) (t : Connection p) (m : Noise p.noise_c)
    → Connection p × Verdict
received p now type payload sealed t m =
    let t' =
      process_message p now type payload
        (record t { noise = some (decrypt p.noise_c m sealed).0 }) in
    (t', verdict_of p t')

-- A message of which type and length fit 16 bits is read back whole.
pub parse_inner-inner_message :
    (type : ℕ) (payload : Bytes)
    → type < 2 ^ 16
    → length payload < 2 ^ 16
    → parse_inner (inner_message type payload) ≡ some (type, payload)
unfolding parse_inner inner_message
parse_inner-inner_message type payload ht hp = ground (
  arith,
  read_size_bytes type,
  read_size_bytes (length payload),
  take-length-append payload [],
  append-nil payload,
)

on_plaintext-inner_message :
    (p : Platform) (now type : ℕ) (payload : Bytes) (t : Connection p)
    → type < 2 ^ 16
    → length payload < 2 ^ 16
    → on_plaintext p now (inner_message type payload) t
      ≡ (process_message p now type payload t, verdict_of p (process_message p now type payload t))
unfolding on_plaintext inner_message
on_plaintext-inner_message p now type payload t ht hp =
    ground (arith, parse_inner-inner_message type payload ht hp)

on_encrypted_ready :
    (p : Platform) (now : ℕ) (sealed : Bytes) (t : Connection p) (m : Noise p.noise_c)
    → t.noise ≡ some m
    → m.complete ≡ true
    → on_encrypted p now sealed t
      ≡ on_plaintext p now
          (decrypt p.noise_c m sealed).1
          (record t { noise = some (decrypt p.noise_c m sealed).0 })
unfolding on_encrypted
on_encrypted_ready p now sealed t m tn mc = ground (arith, tn, mc)

on_frame_ready :
    (p : Platform) (now : ℕ) (sealed : Bytes) (t : Connection p)
    → is_ready t.state ≡ true
    → on_frame p now t sealed ≡ on_encrypted p now sealed t
unfolding on_frame
on_frame_ready p now sealed t tr = ground arith

-- Let the type and the length of a message fit 16 bits. Let a connection with a complete Noise
-- object encrypt the message to fewer than 2 ^ 16 bytes, and
-- let the receiving end, which is ready, decrypt these to what was encrypted. Then sendMessage hands
-- the socket one frame; a reader cuts the encrypted bytes off whatever stream starts with it; and
-- the receiver's onReadyRead calls processMessage with the type and the payload that were sent.
pub send_message-on_frame :
    (p : Platform) (now type : ℕ) (payload sealed rest : Bytes) (s t : Connection p)
    (n m : Noise p.noise_c)
    → type < 2 ^ 16
    → length payload < 2 ^ 16
    → length sealed < 2 ^ 16
    → s.noise ≡ some n
    → n.complete ≡ true
    → (encrypt p.noise_c n (inner_message type payload)).1 ≡ sealed
    → t.noise ≡ some m
    → m.complete ≡ true
    → is_ready t.state ≡ true
    → (decrypt p.noise_c m sealed).1 ≡ inner_message type payload
    → ((send_message type payload s).out ≡ s.out ++ (write (frame sealed) ∷ []))
      × (next_frame (frame sealed ++ rest) ≡ cut sealed rest)
      × (on_frame p now t sealed ≡ received p now type payload sealed t m)
unfolding send_message send_raw
send_message-on_frame p now type payload sealed rest s t n m ht hp hs sn nc se tn mc tr de = (
  ground (arith, sn, nc, se),
  next_frame-frame sealed rest hs,
  on_frame_ready p now sealed t tr
      ∙ on_encrypted_ready p now sealed t m tn mc
      ∙ rw de (
          on_plaintext-inner_message p now type payload
            (record t { noise = some (decrypt p.noise_c m sealed).0 }) ht hp),
)
