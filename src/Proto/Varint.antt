-- ===== src/Proto/Varint.antt =====
-- proto.cpp's varints: what writeVarint appends, and readVarint on it.
use homed_service_esphome.Prelude.{
  ℕ, zero, suc, ◌+◌, ◌*◌, ◌/◌, ◌%◌, ◌^◌, ◌≤◌, ◌<◌, ◌≡◌, ap, [], ◌∷◌, ◌++◌, some, arith, Bytes, ltb,
  if◌then◌else◌, length, length-append, bit_or, drop-length-append,
}
use homed_service_esphome.Prelude.Bits.{bit_or_disjoint, set_top_bit, top_bit, shift_seven}
use homed_service_esphome.Prelude.Order.{lt_wf}
use homed_service_esphome.Proto.{write_varint_loop, write_varint, read_varint_loop, read_varint}
use mathlib.Core.List.{append_assoc}
use mathlib.Core.WellFounded.{Acc}

-- The seven-bit groups of a value below 128 ^ (k + 1), lowest first, all but the last one marked.
unfoldable pub varint_bytes : ℕ → ℕ → Bytes
varint_bytes zero v = v ∷ []
varint_bytes (suc k) v =
    let rest = varint_bytes k (v / 128) in if ltb v 128 then v ∷ [] else (v % 128 + 128) ∷ rest

write_varint_loop-varint_bytes :
    (k : ℕ) (m_data : Bytes) (v : ℕ) (w : Acc ◌<◌ v)
    → v < 128 ^ suc k
    → write_varint_loop m_data v w ≡ m_data ++ varint_bytes k v
unfolding write_varint_loop varint_bytes
write_varint_loop-varint_bytes zero m_data v (Acc.intro _ smaller) h = ground arith
write_varint_loop-varint_bytes (suc k) m_data v (Acc.intro _ smaller) h =
    let group : Bytes = (v % 128 + 128) ∷ [] in
    grind (
      arith,
      set_top_bit (v % 128),
      λ (w : Acc ◌<◌ (v / 128)).
          write_varint_loop-varint_bytes k (m_data ++ group) (v / 128) w (omega arith),
      append_assoc m_data group (varint_bytes k (v / 128)),
    )

pub write_varint-varint_bytes :
    (m_data : Bytes) (v : ℕ) → v < 2 ^ 64 → write_varint m_data v ≡ m_data ++ varint_bytes 9 v
unfolding write_varint
write_varint-varint_bytes m_data v h =
    write_varint_loop-varint_bytes 9 m_data v (lt_wf.apply v) (omega arith)

pub length-varint_bytes :
    (k v : ℕ) → (1 ≤ length (varint_bytes k v)) × (length (varint_bytes k v) ≤ k + 1)
unfolding varint_bytes
length-varint_bytes zero v = omega arith
length-varint_bytes (suc k) v = ground (arith, length-varint_bytes k (v / 128))

-- Any value is written with as many bytes at least as these.
write_varint_loop-le :
    (k : ℕ) (m_data : Bytes) (v : ℕ) (w : Acc ◌<◌ v)
    → length m_data + length (varint_bytes k v) ≤ length (write_varint_loop m_data v w)
unfolding write_varint_loop varint_bytes
write_varint_loop-le zero m_data v (Acc.intro _ smaller) =
    let head : Bytes = bit_or (v % 2 ^ 7) 0x80 ∷ [] in
    grind (
      arith,
      λ (h : v / 2 ^ 7 < v). write_varint_loop-le zero (m_data ++ head) (v / 2 ^ 7) (smaller _ h),
      length-append m_data head,
      length-append m_data (v % 2 ^ 7 ∷ []),
    )
write_varint_loop-le (suc k) m_data v (Acc.intro _ smaller) =
    let head : Bytes = bit_or (v % 2 ^ 7) 0x80 ∷ [] in
    grind (
      arith,
      λ (h : v / 2 ^ 7 < v). write_varint_loop-le k (m_data ++ head) (v / 2 ^ 7) (smaller _ h),
      length-append m_data head,
      length-append m_data (v % 2 ^ 7 ∷ []),
    )

pub write_varint-le :
    (m_data : Bytes) (v : ℕ)
    → length m_data + length (varint_bytes 9 v) ≤ length (write_varint m_data v)
unfolding write_varint
write_varint-le m_data v = write_varint_loop-le 9 m_data v (lt_wf.apply v)

-- One round of readVarint on a last byte, and on a marked byte over the group `g`.
last_byte :
    (g value shift pos : ℕ) (rest : Bytes)
    → g < 128
    → value < 2 ^ shift
    → value + g * 2 ^ shift < 2 ^ 64
    → read_varint_loop (g ∷ rest) value shift pos ≡ some (value + g * 2 ^ shift, pos + 1)
unfolding read_varint_loop
last_byte g value shift pos rest hg hv fits =
    ground (arith, top_bit g, bit_or_disjoint shift value g)

marked_byte :
    (g value shift pos : ℕ) (rest : Bytes)
    → g < 128
    → shift < 57
    → value < 2 ^ shift
    → value + g * 2 ^ shift < 2 ^ 64
    → read_varint_loop ((g + 128) ∷ rest) value shift pos
      ≡ read_varint_loop rest (value + g * 2 ^ shift) (shift + 7) (pos + 1)
unfolding read_varint_loop
marked_byte g value shift pos rest hg hs hv fits =
    ground (arith, top_bit (g + 128), bit_or_disjoint shift value g)

-- The lowest group of `w` and the rest, both shifted by `s`.
shifted_groups : (s w : ℕ) → w % 128 * 2 ^ s + w / 128 * 2 ^ (s + 7) ≡ w * 2 ^ s
shifted_groups s w =
    let rest : w / 128 * 2 ^ (s + 7) ≡ w / 128 * (128 * 2 ^ s) = grind (arith, shift_seven s) in
    let whole : w * 2 ^ s ≡ (w / 128 * 128 + w % 128) * 2 ^ s =
      ap (λ (v : ℕ). v * 2 ^ s) (omega arith) in
    omega (arith, rest, whole)

group_fits : (g value s : ℕ) → g < 128 → value < 2 ^ s → value + g * 2 ^ s < 2 ^ (s + 7)
group_fits g value s hg hv =
    let top : g * 2 ^ s ≤ 127 * 2 ^ s = grind arith in omega (arith, shift_seven s)

-- `shift` is 7 * (9 - k), and `w` is what is still to be read.
read_varint_loop-varint_bytes :
    (k w value shift pos : ℕ) (rest : Bytes)
    → shift + 7 * k ≡ 63
    → w < 128 ^ suc k
    → value < 2 ^ shift
    → value + w * 2 ^ shift < 2 ^ 64
    → read_varint_loop (varint_bytes k w ++ rest) value shift pos
      ≡ some (value + w * 2 ^ shift, pos + length (varint_bytes k w))
unfolding varint_bytes
read_varint_loop-varint_bytes zero w value shift pos rest hs hw hv fits =
    last_byte w value shift pos rest (omega arith) hv fits
read_varint_loop-varint_bytes (suc k) w value shift pos rest hs hw hv fits = ground (
  arith,
  last_byte w value shift pos rest,
  shifted_groups shift w,
  group_fits (w % 128) value shift,
  marked_byte (w % 128) value shift pos (varint_bytes k (w / 128) ++ rest),
  read_varint_loop-varint_bytes k (w / 128) (value + w % 128 * 2 ^ shift) (shift + 7) (pos + 1) rest
      (omega arith) (omega arith),
)

-- readVarint at the place where writeVarint wrote returns the value, and stops behind it.
pub read_varint-varint_bytes :
    (pre rest : Bytes) (v : ℕ)
    → v < 2 ^ 64
    → read_varint (pre ++ (varint_bytes 9 v ++ rest)) (length pre)
      ≡ some (v, length pre + length (varint_bytes 9 v))
unfolding read_varint
read_varint-varint_bytes pre rest v h =
    rw (drop-length-append pre (varint_bytes 9 v ++ rest))
      (ground (arith, read_varint_loop-varint_bytes 9 v 0 0 (length pre) rest))
