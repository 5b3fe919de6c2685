-- ===== src/Proto/Forward.antt =====
-- The data on which ProtoDecoder::decode does not end.
use homed_service_esphome.Proto.{write_tag, write_varint}
use homed_service_esphome.Prelude.{
  ℕ, zero, suc, ◌+◌, ◌-◌, ◌*◌, ◌^◌, ◌≤◌, ◌<◌, ◌≡◌, refl, sym, ap, ◌∙◌, List, [], ◌∷◌, ◌++◌, arith,
  Bytes, length, length-append, drop, All,
}
use homed_service_esphome.Proto.{
  ProtoField, got, running, read_raw, read_length_delimited, read_payload, read_field, decode_loop,
}
use homed_service_esphome.Proto.Varint.{write_varint-varint_bytes, varint_bytes}
use homed_service_esphome.Proto.Fields.{
  Item, IsItem, item_bytes, field_of, tag_bytes, read_varint_at, read_field_tag, behind_tag,
  write_tag_lem,
}
use homed_service_esphome.Proto.RoundTrip.{
  items_bytes, decode_loop_item, encode, encode-items_bytes, length-items_bytes-le,
}
use mathlib.Core.List.{append_assoc}

-- Six bytes: a one-byte tag, and a five-byte length that is -6 as an int.
abbrev pub backward_field : ℕ → Bytes
backward_field n = tag_bytes n 2 ++ varint_bytes 9 (2 ^ 32 - 6)

read_raw_backward :
    (m : Bytes) (n p : ℕ)
    → 6 ≤ p
    → read_raw m n (2 ^ 32 - 6) p
      ≡ got (record { field = n; wire_type = 2; varint = 0; float_val = 0; raw = drop p m }) (p - 6)
unfolding read_raw
read_raw_backward m n p h = ground arith

one_byte : (v : ℕ) → v < 128 → varint_bytes 9 v ≡ v ∷ []
unfolding varint_bytes
one_byte v h = ground arith

five_bytes : length (varint_bytes 9 (2 ^ 32 - 6)) ≡ 5
unfolding varint_bytes
five_bytes = refl

-- The length and what it does, at the position behind the tag.
read_payload_backward :
    (m pre rest : Bytes) (n : ℕ)
    → m ≡ pre ++ (varint_bytes 9 (2 ^ 32 - 6) ++ rest)
    → 1 ≤ length pre
    → (f : ProtoField) × (read_payload m n 2 (length pre) ≡ got f (length pre - 1))
unfolding read_payload read_length_delimited
read_payload_backward m pre rest n e h =
    let p : ℕ = length pre + 5 in
    (
      record { field = n; wire_type = 2; varint = 0; float_val = 0; raw = drop p m },
      ground (
        arith,
        read_varint_at m pre rest (2 ^ 32 - 6) e (omega arith),
        five_bytes,
        read_raw_backward m n p,
      ),
    )

-- readField returns such a field, and the position is back at its tag.
read_field_backward :
    (m pre rest : Bytes) (n : ℕ)
    → m ≡ pre ++ (backward_field n ++ rest)
    → n < 16
    → (f : ProtoField) × (read_field m (length pre) ≡ got f (length pre))
read_field_backward m pre rest n e h =
    let size : Bytes = varint_bytes 9 (2 ^ 32 - 6) in
    let cut = behind_tag m pre rest (tag_bytes n 2) size e in
    let tag_len : length (pre ++ tag_bytes n 2) ≡ length pre + 1 =
      omega (
        arith,
        length-append pre (tag_bytes n 2),
        ap length (one_byte (n * 8 + 2) (omega arith)),
      ) in
    let (f, back) = read_payload_backward m (pre ++ tag_bytes n 2) rest n cut.1 (omega arith) in
    (
      f,
      read_field_tag m pre (size ++ rest) n 2 cut.0 (omega arith) (omega arith)
          ∙ back
          ∙ ap (got f) (omega arith),
    )

decode_loop_backward :
    (fuel : ℕ) (m pre rest : Bytes) (n : ℕ) (fields : List ProtoField)
    → m ≡ pre ++ (backward_field n ++ rest)
    → n < 16
    → decode_loop fuel m (length pre) fields ≡ running
unfolding decode_loop
decode_loop_backward zero m pre rest n fields e h = refl
decode_loop_backward (suc fuel) m pre rest n fields e h =
    let (f, back) = read_field_backward m pre rest n e h in
    ground (
      arith,
      back,
      decode_loop_backward fuel m pre rest n (fields ++ (f ∷ [])) e h,
      ap length e,
      length-append pre (backward_field n ++ rest),
      length-append (backward_field n) rest,
      length-append (tag_bytes n 2) (varint_bytes 9 (2 ^ 32 - 6)),
      five_bytes,
    )

decode_loop_hangs :
    (is : List Item) (fuel : ℕ) (m pre rest : Bytes) (n : ℕ) (fields : List ProtoField)
    → m ≡ pre ++ (items_bytes is ++ (backward_field n ++ rest))
    → All IsItem is
    → n < 16
    → length m < 2 ^ 31
    → decode_loop fuel m (length pre) fields ≡ running
decode_loop_hangs is zero m pre rest n fields e ok h small = unfold decode_loop in refl
decode_loop_hangs [] (suc fuel) m pre rest n fields e ok h small =
    decode_loop_backward (suc fuel) m pre rest n fields e h
decode_loop_hangs (i ∷ is) (suc fuel) m pre rest n fields e (hi, his) h small =
    let tail : Bytes = backward_field n ++ rest in
    let e' : m ≡ pre ++ (item_bytes i ++ (items_bytes is ++ tail)) =
      e ∙ ap (λ (t : Bytes). pre ++ t) (append_assoc (item_bytes i) (items_bytes is) tail) in
    decode_loop_item i fuel m pre (items_bytes is ++ tail) fields e' hi small
    ∙ decode_loop_hangs is fuel m (pre ++ item_bytes i) rest n (fields ++ (field_of i ∷ []))
        (e' ∙ sym (append_assoc pre (item_bytes i) (items_bytes is ++ tail))) his h small

-- The encoder's output for well-formed items, then a length-delimited field with this length.
abbrev pub with_length : List Item → ℕ → ℕ → Bytes → Bytes
with_length is n len rest = write_varint (write_tag (encode is) n 2) len ++ rest

with_length_lem :
    (is : List Item) (n len : ℕ) (rest : Bytes)
    → All IsItem is
    → length (items_bytes is) < 2 ^ 31
    → n < 16
    → len < 2 ^ 64
    → with_length is n len rest ≡ items_bytes is ++ ((tag_bytes n 2 ++ varint_bytes 9 len) ++ rest)
unfolding encode
with_length_lem is n len rest ok small hn hl =
    rw
      (
        encode-items_bytes is [] ok small,
        write_tag_lem (items_bytes is) n 2 (omega arith) (omega arith),
        write_varint-varint_bytes (items_bytes is ++ tag_bytes n 2) len hl,
        append_assoc (items_bytes is) (tag_bytes n 2) (varint_bytes 9 len),
      )
      (append_assoc (items_bytes is) (tag_bytes n 2 ++ varint_bytes 9 len) rest)

-- Let a message below 2 ^ 31 bytes begin with well-formed items, as the encoder writes them, and go
-- on with a length-delimited field, of a number below 16, whose length is 2 ^ 32 - 6. Then decode()
-- never ends on it: the loop is still running after any number of rounds.
pub decode_hangs :
    (is : List Item) (rest : Bytes) (n fuel : ℕ)
    → All IsItem is
    → n < 16
    → length (encode is) + 6 + length rest < 2 ^ 31
    → decode_loop fuel (with_length is n (2 ^ 32 - 6) rest) 0 [] ≡ running
unfolding encode
decode_hangs is rest n fuel ok h small =
    let size = length-items_bytes-le is [] ok in
    let tail : Bytes = backward_field n ++ rest in
    let lengths : length (items_bytes is ++ tail) < 2 ^ 31 = omega (
      arith,
      size,
      length-append (items_bytes is) tail,
      length-append (backward_field n) rest,
      length-append (tag_bytes n 2) (varint_bytes 9 (2 ^ 32 - 6)),
      ap length (one_byte (n * 8 + 2) (omega arith)),
      five_bytes,
    ) in
    rw (with_length_lem is n (2 ^ 32 - 6) rest ok (omega (arith, size)) h (omega arith))
      (decode_loop_hangs is fuel (items_bytes is ++ tail) [] rest n [] refl ok h lengths)
