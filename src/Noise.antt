-- ===== src/Noise.antt =====
-- noise.h and noise.cpp: the initiator of a Noise handshake, over the noise-c library.
use homed_service_esphome.Prelude.{
  ℕ, ◌+◌, Bool, true, false, [], ◌∷◌, Option, none, some, Bytes, length,
}

-- noise_handshakestate_get_action
pub data Action : Type 0 where
  write_action read_action split_action other_action : Action

-- noise-c, which the repository does not contain. A call that fails returns no result, but may have
-- changed the state that it was handed. The bytes given to `new_by_name` are the random ones that
-- the library draws for the connection.
pub record NoiseC : Type 1 where
  pub HandshakeState : Type 0
  pub CipherState : Type 0
  pub new_by_name : Bytes → Option HandshakeState
  pub set_prologue : HandshakeState → Bytes → HandshakeState
  pub set_pre_shared_key : HandshakeState → Bytes → HandshakeState
  pub start : HandshakeState → Option HandshakeState
  pub get_action : HandshakeState → Action
  pub write_message : HandshakeState → ℕ → HandshakeState × Option Bytes
  pub read_message : HandshakeState → Bytes → HandshakeState × Bool
  pub split : HandshakeState → HandshakeState × Option (CipherState × CipherState)
  pub get_mac_length : CipherState → ℕ
  pub encrypt_with_ad : CipherState → Bytes → ℕ → CipherState × Option Bytes
  pub decrypt_with_ad : CipherState → Bytes → CipherState × Option Bytes

-- "NoiseAPIInit" and two zero bytes
abbrev pub noise_prologue : Bytes
noise_prologue =
    b'N' ∷ b'o' ∷ b'i' ∷ b's' ∷ b'e' ∷ b'A' ∷ b'P' ∷ b'I' ∷ b'I' ∷ b'n' ∷ b'i' ∷ b't' ∷ 0 ∷ 0 ∷ []

abbrev pub is_write : Action → Bool
is_write write_action = true
is_write _ = false

abbrev pub is_read : Action → Bool
is_read read_action = true
is_read _ = false

abbrev pub is_split : Action → Bool
is_split split_action = true
is_split _ = false

pub record Noise (c : NoiseC) : Type 0 where
  pub handshake : Option c.HandshakeState
  pub send_cipher : Option c.CipherState
  pub recv_cipher : Option c.CipherState
  pub complete : Bool

module _ (c : NoiseC) where
  open c use {
    HandshakeState, CipherState, new_by_name, set_prologue, set_pre_shared_key, start, get_action,
    write_message, read_message, split, get_mac_length, encrypt_with_ad, decrypt_with_ad,
  }

  abbrev with_handshake : Option HandshakeState → Noise c
  with_handshake h = record {
    handshake = h;
    send_cipher = none;
    recv_cipher = none;
    complete = false;
  }

  -- The constructor; `start` that fails leaves no handshake.
  unfoldable pub new_noise : Bytes → Bytes → Noise c
  new_noise random psk = elim (new_by_name random) [
    | none ↦ with_handshake none
    | some h ↦ with_handshake (start (set_pre_shared_key (set_prologue h noise_prologue) psk))
  ]

  -- writeHandshake; an empty message on every failure.
  unfoldable pub write_handshake : Noise c → Noise c × Bytes
  write_handshake n = elim n.handshake [
    | none ↦ (n, [])
    | some h ↦ elim (is_write (get_action h)) [
      | false ↦ (n, [])
      | true ↦ elim (write_message h 128).1 [
        | none ↦ (record n { handshake = some (write_message h 128).0 }, [])
        | some message ↦ (record n { handshake = some (write_message h 128).0 }, message)
      ]
    ]
  ]

  -- The end of readHandshake: the two ciphers, and no handshake state any more.
  unfoldable pub split_handshake : Noise c → HandshakeState → Noise c × Bool
  split_handshake n h = elim (split h).1 [
    | none ↦ (record n { handshake = some (split h).0 }, false)
    | some (send, recv) ↦ (
      record {
        handshake = none;
        send_cipher = some send;
        recv_cipher = some recv;
        complete = true;
      },
      true,
    )
  ]

  unfoldable pub read_handshake : Noise c → Bytes → Noise c × Bool
  read_handshake n message = elim n.handshake [
    | none ↦ (n, false)
    | some h ↦ elim (is_read (get_action h)) [
      | false ↦ (n, false)
      | true ↦
          let h' = (read_message h message).0 in
          elim (read_message h message).1 [
            | false ↦ (record n { handshake = some h' }, false)
            | true ↦ elim (is_split (get_action h')) [
              | false ↦ (record n { handshake = some h' }, false)
              | true ↦ split_handshake (record n { handshake = some h' }) h'
            ]
          ]
    ]
  ]

  unfoldable pub encrypt : Noise c → Bytes → Noise c × Bytes
  encrypt n plaintext = elim n.send_cipher [
    | none ↦ (n, [])
    | some s ↦
        let (s', out) = encrypt_with_ad s plaintext (length plaintext + get_mac_length s) in
        (record n { send_cipher = some s' }, elim out [ none ↦ [] | some bytes ↦ bytes ])
  ]

  unfoldable pub decrypt : Noise c → Bytes → Noise c × Bytes
  decrypt n ciphertext = elim n.recv_cipher [
    | none ↦ (n, [])
    | some r ↦
        let (r', out) = decrypt_with_ad r ciphertext in
        (record n { recv_cipher = some r' }, elim out [ none ↦ [] | some bytes ↦ bytes ])
  ]
