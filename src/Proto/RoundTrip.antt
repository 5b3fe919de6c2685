-- ===== src/Proto/RoundTrip.antt =====
-- Whole messages: ProtoDecoder::decode on what a ProtoEncoder was given.
use homed_service_esphome.Prelude.{
  ℕ, zero, suc, ◌+◌, ◌*◌, ◌^◌, ◌≤◌, ◌<◌, ◌≡◌, refl, sym, ap, ◌∙◌, List, [], ◌∷◌, ◌++◌, map, arith,
  Bytes, length, length-append, All,
}
use homed_service_esphome.Proto.{ProtoField, done, decode_loop, decode}
use homed_service_esphome.Proto.Varint.{varint_bytes, length-varint_bytes}
use homed_service_esphome.Proto.Fields.{
  Item, varint_item, fixed32_item, bytes_item, IsItem, add_item, field_of, item_bytes,
  add_item-item_bytes, item_bytes-le, read_field-item_bytes,
}
use mathlib.Core.List.{append_assoc, append-nil, foldl}

-- A message: an encoder that starts empty, and one add call for each item.
unfoldable pub encode : List Item → Bytes
encode = foldl add_item []

abbrev pub items_bytes : List Item → Bytes
items_bytes [] = []
items_bytes (i ∷ is) = item_bytes i ++ items_bytes is

head_pos : (v : ℕ) (bs : Bytes) → 1 ≤ length (varint_bytes 9 v ++ bs)
head_pos v bs = omega (arith, length-append (varint_bytes 9 v) bs, length-varint_bytes 9 v)

item_bytes_pos : (i : Item) → 1 ≤ length (item_bytes i)
unfolding item_bytes
item_bytes_pos (varint_item n v) = head_pos (n * 8 + 0) (varint_bytes 9 v)
item_bytes_pos (fixed32_item n v) = head_pos (n * 8 + 5) _
item_bytes_pos (bytes_item n bs) = head_pos (n * 8 + 2) _

-- One round of decode() on an encoded field.
pub decode_loop_item :
    (i : Item) (fuel : ℕ) (m pre rest : Bytes) (fields : List ProtoField)
    → m ≡ pre ++ (item_bytes i ++ rest)
    → IsItem i
    → length m < 2 ^ 31
    → decode_loop (suc fuel) m (length pre) fields
      ≡ decode_loop fuel m (length (pre ++ item_bytes i)) (fields ++ (field_of i ∷ []))
unfolding decode_loop
decode_loop_item i fuel m pre rest fields e hi small = ground (
  arith,
  read_field-item_bytes m pre rest i e hi,
  ap length e,
  length-append pre (item_bytes i ++ rest),
  length-append (item_bytes i) rest,
  length-append pre (item_bytes i),
  item_bytes_pos i,
)

decode_loop-items_bytes :
    (is : List Item) (fuel : ℕ) (m pre : Bytes) (fields : List ProtoField)
    → m ≡ pre ++ items_bytes is
    → All IsItem is
    → length m < 2 ^ 31
    → length (items_bytes is) < fuel
    → decode_loop fuel m (length pre) fields ≡ done (fields ++ map field_of is)
decode_loop-items_bytes is zero m pre fields e ok small enough = absurd (omega arith)
decode_loop-items_bytes [] (suc fuel) m pre fields e ok small enough =
    unfold decode_loop in ground (arith, ap length e, append-nil pre, append-nil fields)
decode_loop-items_bytes (i ∷ is) (suc fuel) m pre fields e (hi, his) small enough =
    decode_loop_item i fuel m pre (items_bytes is) fields e hi small
    ∙ decode_loop-items_bytes is fuel m (pre ++ item_bytes i) (fields ++ (field_of i ∷ []))
        (e ∙ sym (append_assoc pre (item_bytes i) (items_bytes is))) his small
        (omega (arith, length-append (item_bytes i) (items_bytes is), item_bytes_pos i))
    ∙ ap done (append_assoc fields (field_of i ∷ []) (map field_of is))

pub encode-items_bytes :
    (is : List Item) (m_data : Bytes)
    → All IsItem is
    → length (items_bytes is) < 2 ^ 31
    → foldl add_item m_data is ≡ m_data ++ items_bytes is
encode-items_bytes [] m_data ok small = sym (append-nil m_data)
encode-items_bytes (i ∷ is) m_data (hi, his) small =
    let sizes = length-append (item_bytes i) (items_bytes is) in
    ap (λ (d : Bytes). foldl add_item d is) (add_item-item_bytes m_data i hi (omega (arith, sizes)))
    ∙ encode-items_bytes is (m_data ++ item_bytes i) his (omega (arith, sizes))
    ∙ append_assoc m_data (item_bytes i) (items_bytes is)

pub length-items_bytes-le :
    (is : List Item) (m_data : Bytes)
    → All IsItem is
    → length m_data + length (items_bytes is) ≤ length (foldl add_item m_data is)
length-items_bytes-le [] m_data ok = omega arith
length-items_bytes-le (i ∷ is) m_data (hi, his) = omega (
  arith,
  length-append (item_bytes i) (items_bytes is),
  item_bytes-le m_data i hi,
  length-items_bytes-le is (add_item m_data i) his,
)

-- For any list of items whose field numbers are below 2 ^ 28 and whose values fit their C++ types,
-- and whose encoding is below 2 ^ 31 bytes long: decoding the encoded message ends, and returns
-- the fields of the items, in their order.
pub decode-encode :
    (is : List Item)
    → All IsItem is
    → length (encode is) < 2 ^ 31
    → decode (encode is) ≡ done (map field_of is)
unfolding decode encode
decode-encode is ok short =
    let small : length (items_bytes is) < 2 ^ 31 = omega (arith, length-items_bytes-le is [] ok) in
    rw (encode-items_bytes is [] ok small) (
      decode_loop-items_bytes is (length (items_bytes is) + 1) (items_bytes is) [] [] refl ok small
        (omega arith))
