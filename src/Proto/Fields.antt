-- ===== src/Proto/Fields.antt =====
-- One encoded field, and what readField makes of it wherever it stands in a message.
use homed_service_esphome.Prelude.{
  ℕ, ◌+◌, ◌*◌, ◌/◌, ◌%◌, ◌^◌, ◌≤◌, ◌<◌, ◌≡◌, sym, ap, ◌∙◌, [], ◌∷◌, ◌++◌, some, arith, Bytes,
  length, length-append, drop, take-length-append, drop-length-append,
}
use homed_service_esphome.Prelude.Bits.{bit_or_disjoint, bit_or_shifted}
use Prim.Native.Nat.{bit_or}
use homed_service_esphome.Proto.{
  write_varint, write_tag, add_varint, add_fixed32, add_bytes, ProtoField, got, read_varint,
  read_varint_field, read_raw, read_length_delimited, read_32bit, byte_at, fixed32_bits,
  read_payload, read_field,
}
use homed_service_esphome.Proto.Varint.{
  varint_bytes, write_varint-varint_bytes, write_varint-le, length-varint_bytes,
  read_varint-varint_bytes,
}
use mathlib.Core.List.{append_assoc}
use native.Mathlib.Nat.{add-zero}

-- A field to be written: a number, a 32-bit pattern (fixed32 or float), or a string of bytes.
pub data Item : Type 0 where
  varint_item : ℕ → ℕ → Item
  fixed32_item : ℕ → ℕ → Item
  bytes_item : ℕ → Bytes → Item

-- Field numbers that the encoder's int shift can carry, and values of the C++ types.
abbrev pub IsItem : Item → Type 0
IsItem (varint_item n v) = (n < 2 ^ 28) × (v < 2 ^ 64)
IsItem (fixed32_item n v) = (n < 2 ^ 28) × (v < 2 ^ 32)
IsItem (bytes_item n bs) = n < 2 ^ 28

unfoldable pub add_item : Bytes → Item → Bytes
add_item m_data (varint_item n v) = add_varint m_data n v
add_item m_data (fixed32_item n v) = add_fixed32 m_data n v
add_item m_data (bytes_item n bs) = add_bytes m_data n bs

-- The field that the decoder should return for an item.
unfoldable pub field_of : Item → ProtoField
field_of (varint_item n v) = record {
  field = n;
  wire_type = 0;
  varint = v;
  float_val = 0;
  raw = [];
}
field_of (fixed32_item n v) = record {
  field = n;
  wire_type = 5;
  varint = v;
  float_val = v;
  raw = [];
}
field_of (bytes_item n bs) = record {
  field = n;
  wire_type = 2;
  varint = 0;
  float_val = 0;
  raw = bs;
}

abbrev pub tag_bytes : ℕ → ℕ → Bytes
tag_bytes n wire_type = varint_bytes 9 (n * 8 + wire_type)

abbrev word_bytes : ℕ → Bytes
word_bytes v = v % 2 ^ 8 ∷ v / 2 ^ 8 % 2 ^ 8 ∷ v / 2 ^ 16 % 2 ^ 8 ∷ v / 2 ^ 24 % 2 ^ 8 ∷ []

unfoldable pub item_bytes : Item → Bytes
item_bytes (varint_item n v) = tag_bytes n 0 ++ varint_bytes 9 v
item_bytes (fixed32_item n v) = tag_bytes n 5 ++ word_bytes v
item_bytes (bytes_item n bs) = tag_bytes n 2 ++ (varint_bytes 9 (length bs) ++ bs)

pub write_tag_lem :
    (m_data : Bytes) (n w : ℕ) → n < 2 ^ 28 → w < 8 → write_tag m_data n w ≡ m_data ++ tag_bytes n w
unfolding write_tag
write_tag_lem m_data n w hn hw =
    rw (bit_or_shifted 3 n w hw) (write_varint-varint_bytes m_data (n * 8 + w) (omega arith))

-- Each add operation keeps what was written, and appends the item's bytes.
pub add_item-item_bytes :
    (m_data : Bytes) (i : Item)
    → IsItem i
    → length (item_bytes i) < 2 ^ 31
    → add_item m_data i ≡ m_data ++ item_bytes i
unfolding add_item item_bytes add_varint add_fixed32 add_bytes
add_item-item_bytes m_data (varint_item n v) (hn, hv) _ =
    rw (write_tag_lem m_data n 0 hn (omega arith)) (
      rw (write_varint-varint_bytes (m_data ++ tag_bytes n 0) v hv)
        (append_assoc m_data (tag_bytes n 0) (varint_bytes 9 v)))
add_item-item_bytes m_data (fixed32_item n v) (hn, hv) _ =
    rw (write_tag_lem m_data n 5 hn (omega arith))
      (append_assoc m_data (tag_bytes n 5) (word_bytes v))
add_item-item_bytes m_data (bytes_item n bs) hn small =
    rw (write_tag_lem m_data n 2 hn (omega arith)) (
      rw
        (
          write_varint-varint_bytes (m_data ++ tag_bytes n 2) (length bs) (
              omega (
                arith,
                length-append (tag_bytes n 2) (varint_bytes 9 (length bs) ++ bs),
                length-append (varint_bytes 9 (length bs)) bs,
              )),
          append_assoc (m_data ++ tag_bytes n 2) (varint_bytes 9 (length bs)) bs,
        )
        (append_assoc m_data (tag_bytes n 2) (varint_bytes 9 (length bs) ++ bs)))

-- Without a bound on its length, an item takes these bytes at least.
pub item_bytes-le :
    (m_data : Bytes) (i : Item)
    → IsItem i
    → length m_data + length (item_bytes i) ≤ length (add_item m_data i)
item_bytes-le m_data (varint_item n v) ok =
    let small : length (item_bytes (varint_item n v)) < 2 ^ 31 =
      unfold item_bytes in
      omega (
        arith,
        length-append (tag_bytes n 0) (varint_bytes 9 v),
        length-varint_bytes 9 (n * 8 + 0),
        length-varint_bytes 9 v,
      ) in
    rw (add_item-item_bytes m_data (varint_item n v) ok small)
      (omega (arith, length-append m_data (item_bytes (varint_item n v))))
item_bytes-le m_data (fixed32_item n v) ok =
    let small : length (item_bytes (fixed32_item n v)) < 2 ^ 31 =
      unfold item_bytes in
      omega
        (arith, length-append (tag_bytes n 5) (word_bytes v), length-varint_bytes 9 (n * 8 + 5)) in
    rw (add_item-item_bytes m_data (fixed32_item n v) ok small)
      (omega (arith, length-append m_data (item_bytes (fixed32_item n v))))
item_bytes-le m_data (bytes_item n bs) hn =
    unfold item_bytes add_item add_bytes in
    rw (write_tag_lem m_data n 2 hn (omega arith)) (
      omega (
        arith,
        length-append (tag_bytes n 2) (varint_bytes 9 (length bs) ++ bs),
        length-append (varint_bytes 9 (length bs)) bs,
        length-append m_data (tag_bytes n 2),
        length-append (write_varint (m_data ++ tag_bytes n 2) (length bs)) bs,
        write_varint-le (m_data ++ tag_bytes n 2) (length bs),
      ))

-- A message `m` is taken apart by an equation: what stands before the position, and behind it.
pub read_varint_at :
    (m pre rest : Bytes) (v : ℕ)
    → m ≡ pre ++ (varint_bytes 9 v ++ rest)
    → v < 2 ^ 64
    → read_varint m (length pre) ≡ some (v, length pre + length (varint_bytes 9 v))
read_varint_at m pre rest v e h = rw e (read_varint-varint_bytes pre rest v h)

pub read_field_tag :
    (m pre rest : Bytes) (n w : ℕ)
    → m ≡ pre ++ (tag_bytes n w ++ rest)
    → n < 2 ^ 28
    → w < 8
    → read_field m (length pre) ≡ read_payload m n w (length (pre ++ tag_bytes n w))
unfolding read_field
read_field_tag m pre rest n w e hn hw = ground (
  arith,
  read_varint_at m pre rest (n * 8 + w) e,
  ap length e,
  length-append pre (tag_bytes n w ++ rest),
  length-append (tag_bytes n w) rest,
  length-append pre (tag_bytes n w),
  length-varint_bytes 9 (n * 8 + w),
)

read_payload_varint :
    (m pre rest : Bytes) (n v : ℕ)
    → m ≡ pre ++ (varint_bytes 9 v ++ rest)
    → v < 2 ^ 64
    → read_payload m n 0 (length pre)
      ≡ got (field_of (varint_item n v)) (length pre + length (varint_bytes 9 v))
unfolding read_payload read_varint_field field_of
read_payload_varint m pre rest n v e h = ground (arith, read_varint_at m pre rest v e)

byte_at-append : (pre ys : Bytes) (k : ℕ) → byte_at (pre ++ ys) (length pre + k) ≡ byte_at ys k
unfolding byte_at
byte_at-append [] ys k = ground arith
byte_at-append (b ∷ pre) ys k = ground (arith, byte_at-append pre ys k)

-- The four bytes of a word, joined again.
join_word :
    (v : ℕ)
    → v < 2 ^ 32
    → bit_or
        (bit_or (bit_or (v % 2 ^ 8) (v / 2 ^ 8 % 2 ^ 8 * 2 ^ 8)) (v / 2 ^ 16 % 2 ^ 8 * 2 ^ 16))
        (v / 2 ^ 24 % 2 ^ 8 * 2 ^ 24)
      ≡ v
join_word v h =
    rw
      (
        bit_or_disjoint 8 (v % 2 ^ 8) (v / 2 ^ 8 % 2 ^ 8) (omega arith),
        bit_or_disjoint 16 (v % 2 ^ 8 + v / 2 ^ 8 % 2 ^ 8 * 2 ^ 8) (v / 2 ^ 16 % 2 ^ 8)
            (omega arith),
        bit_or_disjoint 24 (v % 2 ^ 8 + v / 2 ^ 8 % 2 ^ 8 * 2 ^ 8 + v / 2 ^ 16 % 2 ^ 8 * 2 ^ 16)
            (v / 2 ^ 24 % 2 ^ 8) (omega arith),
      )
      (omega arith)

fixed32_bits_word :
    (m pre rest : Bytes) (v : ℕ)
    → m ≡ pre ++ (word_bytes v ++ rest)
    → v < 2 ^ 32
    → fixed32_bits m (length pre) ≡ v
unfolding byte_at
fixed32_bits_word m pre rest v e h =
    ground (arith, at 0, at 1, at 2, at 3, add-zero (length pre), join_word v)
  where
    at : (k : ℕ) → byte_at m (length pre + k) ≡ byte_at (word_bytes v ++ rest) k
    at k = rw e (byte_at-append pre (word_bytes v ++ rest) k)

read_payload_word :
    (m pre rest : Bytes) (n v : ℕ)
    → m ≡ pre ++ (word_bytes v ++ rest)
    → v < 2 ^ 32
    → read_payload m n 5 (length pre) ≡ got (field_of (fixed32_item n v)) (length pre + 4)
unfolding read_payload read_32bit field_of
read_payload_word m pre rest n v e h =
    ground (
      arith,
      fixed32_bits_word m pre rest v e,
      ap length e,
      length-append pre (word_bytes v ++ rest),
    )

read_raw_bytes :
    (m pre rest bs : Bytes) (n : ℕ)
    → m ≡ pre ++ (bs ++ rest)
    → length pre + length bs < 2 ^ 31
    → read_raw m n (length bs) (length pre)
      ≡ got (field_of (bytes_item n bs)) (length pre + length bs)
unfolding read_raw field_of
read_raw_bytes m pre rest bs n e small = ground (
  arith,
  ap length e,
  length-append pre (bs ++ rest),
  length-append bs rest,
  ap (drop (length pre)) e ∙ drop-length-append pre (bs ++ rest),
  take-length-append bs rest,
)

read_payload_bytes :
    (m pre rest bs : Bytes) (n : ℕ)
    → m ≡ pre ++ (varint_bytes 9 (length bs) ++ (bs ++ rest))
    → length pre + length (varint_bytes 9 (length bs)) + length bs < 2 ^ 31
    → read_payload m n 2 (length pre)
      ≡ got
          (field_of (bytes_item n bs))
          (length pre + length (varint_bytes 9 (length bs)) + length bs)
unfolding read_payload read_length_delimited
read_payload_bytes m pre rest bs n e small =
    let head : Bytes = varint_bytes 9 (length bs) in
    ground (
      arith,
      read_varint_at m pre (bs ++ rest) (length bs) e (omega arith),
      length-append pre head,
      read_raw_bytes m (pre ++ head) rest bs n (e ∙ sym (append_assoc pre head (bs ++ rest))),
    )

-- A field behind its tag.
pub behind_tag :
    (m pre rest tag payload : Bytes)
    → m ≡ pre ++ ((tag ++ payload) ++ rest)
    → (m ≡ pre ++ (tag ++ (payload ++ rest)))
      × (m ≡ (pre ++ tag) ++ (payload ++ rest))
      × (length (pre ++ (tag ++ payload)) ≡ length (pre ++ tag) + length payload)
behind_tag m pre rest tag payload e =
    let e' : m ≡ pre ++ (tag ++ (payload ++ rest)) =
      e ∙ ap (λ (t : Bytes). pre ++ t) (append_assoc tag payload rest) in
    (
      e',
      e' ∙ sym (append_assoc pre tag (payload ++ rest)),
      omega (
        arith,
        length-append pre (tag ++ payload),
        length-append tag payload,
        length-append pre tag,
      ),
    )

pub read_field-item_bytes :
    (m pre rest : Bytes) (i : Item)
    → m ≡ pre ++ (item_bytes i ++ rest)
    → IsItem i
    → length (pre ++ item_bytes i) < 2 ^ 31
    → read_field m (length pre) ≡ got (field_of i) (length (pre ++ item_bytes i))
unfolding item_bytes
read_field-item_bytes m pre rest (varint_item n v) e (hn, hv) small =
    let cut = behind_tag m pre rest (tag_bytes n 0) (varint_bytes 9 v) e in
    ground (
      arith,
      read_field_tag m pre (varint_bytes 9 v ++ rest) n 0 cut.0 hn (omega arith),
      read_payload_varint m (pre ++ tag_bytes n 0) rest n v cut.1 hv,
      cut.2,
    )
read_field-item_bytes m pre rest (fixed32_item n v) e (hn, hv) small =
    let cut = behind_tag m pre rest (tag_bytes n 5) (word_bytes v) e in
    ground (
      arith,
      read_field_tag m pre (word_bytes v ++ rest) n 5 cut.0 hn (omega arith),
      read_payload_word m (pre ++ tag_bytes n 5) rest n v cut.1 hv,
      cut.2,
    )
read_field-item_bytes m pre rest (bytes_item n bs) e hn small =
    let size : Bytes = varint_bytes 9 (length bs) in
    let cut = behind_tag m pre rest (tag_bytes n 2) (size ++ bs) e in
    ground (
      arith,
      read_field_tag m pre ((size ++ bs) ++ rest) n 2 cut.0 hn (omega arith),
      read_payload_bytes m (pre ++ tag_bytes n 2) rest bs n
          (cut.1 ∙ ap (λ (t : Bytes). (pre ++ tag_bytes n 2) ++ t) (append_assoc size bs rest)),
      length-append size bs,
      cut.2,
    )
