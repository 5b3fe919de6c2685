-- ===== src/Proto/Bounds.antt =====
-- Where a call of readField leaves the position, on any data.
use Prim.Native.Nat.{bit_or}
use homed_service_esphome.Prelude.{
  ℕ, ◌+◌, ◌*◌, ◌/◌, ◌%◌, ◌^◌, ◌≤◌, ◌<◌, ◌≡◌, refl, ◌⊎◌, inl, inr, [], ◌∷◌, some, arith, Bytes,
  length, length-drop, drop, Option-cases, Bool-cases, ◌==◌,
}
use homed_service_esphome.Proto.{
  ProtoField, got, read_varint_loop, read_varint, read_varint_field, read_64bit, read_raw,
  read_length_delimited, read_32bit, read_payload, read_field,
}

read_varint_loop_bounds :
    (rest : Bytes) (value shift pos v q : ℕ)
    → read_varint_loop rest value shift pos ≡ some (v, q)
    → (pos < q) × (q ≤ pos + length rest)
unfolding read_varint_loop
read_varint_loop_bounds [] value shift pos v q e = cc
read_varint_loop_bounds (b ∷ rest) value shift pos v q e = ground (
  arith,
  read_varint_loop_bounds rest (bit_or value (b % 2 ^ 7 * 2 ^ shift % 2 ^ 64)) (shift + 7) (pos + 1)
      v q,
)

read_varint_bounds :
    (m : Bytes) (p v q : ℕ)
    → p ≤ length m
    → read_varint m p ≡ some (v, q)
    → (p < q) × (q ≤ length m)
unfolding read_varint
read_varint_bounds m p v q hp e =
    omega (arith, read_varint_loop_bounds (drop p m) 0 0 p v q e, length-drop p m)

-- At `p` stands a length that is negative as an int.
abbrev pub IsLongLength : Bytes → ℕ → Type 0
IsLongLength m p = (len : ℕ) × (q : ℕ) × (read_varint m p ≡ some (len, q)) × (2 ^ 31 ≤ len % 2 ^ 32)

-- At `p` stands the tag of a length-delimited field, with such a length right behind it.
abbrev pub IsLongField : Bytes → ℕ → Type 0
IsLongField m p =
    (tag : ℕ) × (behind : ℕ) × (read_varint m p ≡ some (tag, behind))
    × (tag % 8 ≡ 2)
    × IsLongLength m behind

-- From `p` to `q`, within the data, by a payload of the wire type `w`.
abbrev Moves : Bytes → (w p q : ℕ) → Type 0
Moves m w p q = (q ≤ length m) × ((p < q) ⊎ ((w ≡ 2) × IsLongLength m p))

read_varint_field_bounds :
    (m : Bytes) (n p q : ℕ) (f : ProtoField)
    → p ≤ length m
    → read_varint_field m n p ≡ got f q
    → (p < q) × (q ≤ length m)
unfolding read_varint_field
read_varint_field_bounds m n p q f hp e = elim (Option-cases (read_varint m p)) [
  | inl miss ↦ ground arith
  | inr ((v, q'), hit) ↦ ground (arith, read_varint_bounds m p v q' hp hit)
]

read_raw_bounds :
    (m : Bytes) (n len32 p q : ℕ) (f : ProtoField)
    → p ≤ length m
    → read_raw m n len32 p ≡ got f q
    → (q ≤ length m) × ((p ≤ q) ⊎ (2 ^ 31 ≤ len32))
unfolding read_raw
read_raw_bounds m n len32 p q f hp e = ground arith

read_length_delimited_bounds :
    (m : Bytes) (n p q : ℕ) (f : ProtoField)
    → p ≤ length m
    → read_length_delimited m n p ≡ got f q
    → Moves m 2 p q
unfolding read_length_delimited
read_length_delimited_bounds m n p q f hp e = elim (Option-cases (read_varint m p)) [
  | inl miss ↦ ground arith
  | inr ((len, p'), hit) ↦
      let within = read_varint_bounds m p len p' hp hit in
      let (top, side) =
        read_raw_bounds m n (len % 2 ^ 32) p' q f (omega arith)
          (rw (hit, read_length_delimited) at e) in
      (top, elim side [ inl on ↦ inl (omega arith) | inr long ↦ inr (refl, (len, p', hit, long)) ])
]

read_payload_bounds :
    (m : Bytes) (n w p q : ℕ) (f : ProtoField)
    → p ≤ length m
    → read_payload m n w p ≡ got f q
    → Moves m w p q
unfolding read_payload read_64bit read_32bit
read_payload_bounds m n w p q f hp e = elim (Bool-cases (w == 2)) [
  | inl is_length ↦
      let two : w ≡ 2 = ground (arith, is_length) in
      rw two (read_length_delimited_bounds m n p q f hp (ground (arith, two, e)))
  | inr other ↦
      let (within, on) : (q ≤ length m) × (p < q) =
        ground (arith, other, e, read_varint_field_bounds m n p q f hp) in
      (within, inl on)
]

-- On any data: a field that readField returns leaves the position within the data, and the
-- position has moved forward, unless this field is length-delimited and the length behind its tag is
-- negative when cast to an int.
pub read_field_bounds :
    (m : Bytes) (p q : ℕ) (f : ProtoField)
    → read_field m p ≡ got f q
    → (q ≤ length m) × ((p < q) ⊎ IsLongField m p)
unfolding read_field
read_field_bounds m p q f e = elim (Option-cases (read_varint m p)) [
  | inl miss ↦ ground arith
  | inr ((tag, p'), hit) ↦
      let within = read_varint_bounds m p tag p' (ground arith) hit in
      let (top, side) =
        read_payload_bounds m (tag / 2 ^ 3 % 2 ^ 32) (tag % 2 ^ 3) p' q f (omega arith)
          (ground (arith, hit, e)) in
      (
        top,
        elim side [ inl on ↦ inl (omega arith) | inr (two, long) ↦ inr (tag, p', hit, two, long) ],
      )
]
