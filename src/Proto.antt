-- ===== src/Proto.antt =====
-- proto.h and proto.cpp: the protobuf encoder and decoder of ESPHome messages.
-- An encoder is the bytes in `m_data`; a decoder is the data with the position `m_pos`.
-- A float is its 32-bit pattern, which `memcpy` carries over unchanged.
pub mod Varint
pub mod Fields
pub mod RoundTrip
pub mod Bounds
pub mod Forward
use homed_service_esphome.Prelude.{
  ℕ, zero, suc, ◌+◌, ◌-◌, ◌*◌, ◌/◌, ◌%◌, ◌^◌, ◌≤◌, ◌<◌, bit_and, bit_or, Bool, true, false, not,
  List, [], ◌∷◌, ◌++◌, Option, none, some, arith, Bytes, ltb, leb, ◌==◌, if◌then◌else◌, length,
  take, drop,
}
use homed_service_esphome.Prelude.Order.{lt_wf}
use mathlib.Core.Logic.{dite}
use mathlib.Core.WellFounded.{Acc}
use native.Mathlib.Decide.{dec_le}

-- ==================== Encoder ====================

-- `value & 0x7F` is `value % 2 ^ 7`, `value >>= 7` is `value / 2 ^ 7`.
unfoldable pub write_varint_loop : Bytes → (value : ℕ) → Acc ◌<◌ value → Bytes
write_varint_loop m_data value (Acc.intro _ smaller) =
    dite (dec_le 0x80 value)
      (λ h.
        write_varint_loop (m_data ++ (bit_or (value % 2 ^ 7) 0x80 ∷ [])) (value / 2 ^ 7)
          (smaller _ (omega arith)))
      (λ _. m_data ++ (value % 2 ^ 7 ∷ []))

unfoldable pub write_varint : Bytes → ℕ → Bytes
unfolding write_varint_loop lt_wf dec_le
write_varint m_data value = write_varint_loop m_data value (lt_wf.apply value)

-- `field` is a non-negative int below 2 ^ 28, so the shift does not overflow.
unfoldable pub write_tag : Bytes → ℕ → ℕ → Bytes
write_tag m_data field wire_type = write_varint m_data (bit_or (field * 2 ^ 3) wire_type)

unfoldable pub add_varint : Bytes → ℕ → ℕ → Bytes
add_varint m_data field value = write_varint (write_tag m_data field 0) value

-- `(value >> k) & 0xFF` is `value / 2 ^ k % 2 ^ 8`.
unfoldable pub add_fixed32 : Bytes → ℕ → ℕ → Bytes
add_fixed32 m_data field value =
    write_tag m_data field 5
    ++ (value % 2 ^ 8
        ∷ value / 2 ^ 8 % 2 ^ 8
        ∷ value / 2 ^ 16 % 2 ^ 8
        ∷ value / 2 ^ 24 % 2 ^ 8
        ∷ [])

-- `bits` is the pattern that `memcpy` reads from the float.
unfoldable pub add_float : Bytes → ℕ → ℕ → Bytes
add_float m_data field bits = add_fixed32 m_data field bits

unfoldable pub add_bool : Bytes → ℕ → Bool → Bytes
add_bool m_data field value = add_varint m_data field (if value then 1 else 0)

unfoldable pub add_bytes : Bytes → ℕ → Bytes → Bytes
add_bytes m_data field value = write_varint (write_tag m_data field 2) (length value) ++ value

-- ==================== Decoder ====================

pub record ProtoField : Type 0 where
  pub field : ℕ
  pub wire_type : ℕ
  pub varint : ℕ
  pub float_val : ℕ
  pub raw : Bytes

abbrev pub boolean : ProtoField → Bool
boolean f = not (f.varint == 0)

abbrev pub fixed32 : ProtoField → ℕ
fixed32 f = f.varint % 2 ^ 32

-- The list is what lies between the position and the end of the data.
unfoldable pub read_varint_loop : Bytes → ℕ → ℕ → ℕ → Option (ℕ × ℕ)
read_varint_loop [] value shift m_pos = none
read_varint_loop (b ∷ rest) value shift m_pos =
    let value' = bit_or value (b % 2 ^ 7 * 2 ^ shift % 2 ^ 64) in
    let more = read_varint_loop rest value' (shift + 7) (m_pos + 1) in
    if bit_and b 0x80 == 0
    then some (value', m_pos + 1)
    else if leb 64 (shift + 7)
    then none
    else more

-- The value with the position behind it. After a failure nothing reads the position.
unfoldable pub read_varint : Bytes → ℕ → Option (ℕ × ℕ)
read_varint m_data m_pos = read_varint_loop (drop m_pos m_data) 0 0 m_pos

-- What a call of readField does: it returns false, it returns true with a field and a new
-- position, or its behaviour is undefined: `m_pos + static_cast<int>(len)` overflows an int, or
-- `m_pos` becomes negative, and the next round of decode() reads in front of the buffer.
pub data Read : Type 0 where
  stop : Read
  got : ProtoField → ℕ → Read
  fault : Read

-- The byte `m_data.at(m_pos)`; every caller has tested the position.
unfoldable pub byte_at : Bytes → ℕ → ℕ
byte_at [] m_pos = 0
byte_at (b ∷ rest) zero = b
byte_at (b ∷ rest) (suc m_pos) = byte_at rest m_pos

unfoldable pub read_varint_field : Bytes → ℕ → ℕ → Read
read_varint_field m_data field m_pos = elim (read_varint m_data m_pos) [
  | none ↦ stop
  | some (value, p) ↦
      got (record { field = field; wire_type = 0; varint = value; float_val = 0; raw = [] }) p
]

unfoldable pub read_64bit : Bytes → ℕ → ℕ → Read
read_64bit m_data field m_pos =
    if ltb (length m_data) (m_pos + 8)
    then stop
    else got (record { field = field; wire_type = 1; varint = 0; float_val = 0; raw = [] })
        (m_pos + 8)

-- `static_cast<int>(len)` keeps 32 bits, and is negative from 2 ^ 31 on: then the test against the
-- size passes, mid() runs to the end of the data, and the position moves back.
unfoldable pub read_raw : Bytes → ℕ → ℕ → ℕ → Read
read_raw m_data field len32 m_pos =
    if ltb len32 (2 ^ 31)
    then if leb (2 ^ 31) (m_pos + len32)
      then fault
      else if ltb (length m_data) (m_pos + len32)
      then stop
      else got
          (record {
            field = field;
            wire_type = 2;
            varint = 0;
            float_val = 0;
            raw = take len32 (drop m_pos m_data);
          })
          (m_pos + len32)
    else if ltb m_pos (2 ^ 32 - len32)
    then fault
    else got
        (record {
          field = field;
          wire_type = 2;
          varint = 0;
          float_val = 0;
          raw = drop m_pos m_data;
        })
        (m_pos - (2 ^ 32 - len32))

unfoldable pub read_length_delimited : Bytes → ℕ → ℕ → Read
read_length_delimited m_data field m_pos = elim (read_varint m_data m_pos) [
  | none ↦ stop
  | some (len, p) ↦ read_raw m_data field (len % 2 ^ 32) p
]

abbrev pub fixed32_bits : Bytes → ℕ → ℕ
fixed32_bits m_data m_pos =
    bit_or
      (bit_or (bit_or (byte_at m_data m_pos) (byte_at m_data (m_pos + 1) * 2 ^ 8))
        (byte_at m_data (m_pos + 2) * 2 ^ 16))
      (byte_at m_data (m_pos + 3) * 2 ^ 24)

unfoldable pub read_32bit : Bytes → ℕ → ℕ → Read
read_32bit m_data field m_pos =
    if ltb (length m_data) (m_pos + 4)
    then stop
    else let bits = fixed32_bits m_data m_pos in
      got (record { field = field; wire_type = 5; varint = bits; float_val = bits; raw = [] })
        (m_pos + 4)

-- `switch (wireType)`
unfoldable pub read_payload : Bytes → ℕ → ℕ → ℕ → Read
read_payload m_data field wire_type m_pos =
    if wire_type == 0
    then read_varint_field m_data field m_pos
    else if wire_type == 1
    then read_64bit m_data field m_pos
    else if wire_type == 2
    then read_length_delimited m_data field m_pos
    else if wire_type == 5
    then read_32bit m_data field m_pos
    else stop

unfoldable pub read_field : Bytes → ℕ → Read
read_field m_data m_pos =
    if leb (length m_data) m_pos then stop else elim (read_varint m_data m_pos) [
      | none ↦ stop
      | some (tag, p) ↦ read_payload m_data (tag / 2 ^ 3 % 2 ^ 32) (tag % 2 ^ 3) p
    ]

abbrev pub has_more : Bytes → ℕ → Bool
has_more m_data m_pos = ltb m_pos (length m_data)

-- `running`: the loop has not ended within the fuel. `undefined`: it met a fault.
pub data Decoded : Type 0 where
  done : List ProtoField → Decoded
  undefined : Decoded
  running : Decoded

unfoldable pub decode_loop : ℕ → Bytes → ℕ → List ProtoField → Decoded
decode_loop zero m_data m_pos fields = running
decode_loop (suc fuel) m_data m_pos fields = elim (has_more m_data m_pos) [
  | false ↦ done fields
  | true ↦ elim (read_field m_data m_pos) [
    | stop ↦ done fields
    | fault ↦ undefined
    | got f p ↦ decode_loop fuel m_data p (fields ++ (f ∷ []))
  ]
]

-- While the position moves forward, each round takes a byte at least.
unfoldable pub decode : Bytes → Decoded
decode m_data = decode_loop (length m_data + 1) m_data 0 []
