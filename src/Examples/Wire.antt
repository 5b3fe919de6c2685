-- ===== src/Examples/Wire.antt =====
-- The encoder, the decoder and the framing.
use homed_service_esphome.Proto.Fields.{add_item}
use homed_service_esphome.Proto.{add_fixed32, write_tag, write_varint}
use mathlib.Core.List.{flatten}
use homed_service_esphome.Prelude.{
  ℕ, suc, ◌≤◌, ◌<◌, ◌⊎◌, length, ◌-◌, ◌^◌, ◌≡◌, refl, false, List, [], ◌∷◌, ◌++◌, Bytes, arith, map,
}
use homed_service_esphome.Proto.{
  ProtoField, decode, done, decode_loop, running, read_field, got, add_varint, add_bytes,
  read_varint, read_varint_loop, read_payload, read_varint_field,
}
use homed_service_esphome.Proto.Fields.{Item, varint_item, fixed32_item, bytes_item, field_of}
use homed_service_esphome.Proto.RoundTrip.{encode, decode-encode}
use homed_service_esphome.Proto.Bounds.{IsLongField, read_field_bounds}
use homed_service_esphome.Proto.Forward.{with_length, decode_hangs}
use homed_service_esphome.Frame.{
  drain, cut_sized, frame, next_frame, cut, Verdict, proceed, leave, read_ready,
}
use homed_service_esphome.Frame.Chunks.{feed, feed-flatten, read_ready-append}
use homed_service_esphome.Frame.Inverse.{next_frame-frame}

abbrev three_items : List Item
three_items = varint_item 1 300 ∷ fixed32_item 2 77 ∷ bytes_item 3 (1 ∷ 2 ∷ []) ∷ []

decode-encode_example : decode (encode three_items) ≡ done (map field_of three_items)
unfolding encode add_item add_bytes write_varint write_tag add_fixed32 add_varint
decode-encode_example =
    decode-encode three_items
      ((omega arith, omega arith), ((omega arith, omega arith), (omega arith, tt))) (omega arith)

-- The field 08 96 01 in front of another byte.
abbrev varint_message : Bytes
varint_message = 8 ∷ 150 ∷ 1 ∷ 0 ∷ []

abbrev field_150 : ProtoField
field_150 = record { field = 1; wire_type = 0; varint = 150; float_val = 0; raw = [] }

read_150 : read_field varint_message 0 ≡ got field_150 3
unfolding read_field read_varint read_varint_loop read_payload read_varint_field
read_150 = refl

read_field_bounds_example : (3 ≤ length varint_message) × ((0 < 3) ⊎ IsLongField varint_message 0)
read_field_bounds_example = read_field_bounds varint_message 0 3 field_150 read_150

decode_hangs_example :
    decode_loop 1000 (with_length (varint_item 1 300 ∷ []) 3 (2 ^ 32 - 6) (5 ∷ [])) 0 [] ≡ running
unfolding encode add_item add_varint write_varint write_tag
decode_hangs_example =
    decode_hangs (varint_item 1 300 ∷ []) (5 ∷ []) 3 1000 ((omega arith, omega arith), tt)
      (omega arith) (omega arith)

-- A device that counts frames, and returns early at an empty one.
abbrev count_frame : ℕ → Bytes → ℕ × Verdict
count_frame n [] = (n, leave)
count_frame n (b ∷ payload) = (suc n, proceed)

-- A whole frame and the start of another, and the end of that.
abbrev first_chunk : Bytes
first_chunk = 1 ∷ 0 ∷ 1 ∷ 9 ∷ 1 ∷ 0 ∷ []

abbrev second_chunk : Bytes
second_chunk = 2 ∷ 5 ∷ 6 ∷ []

first_goes_on : (read_ready (λ n. n) count_frame 0 [] first_chunk).left ≡ false
unfolding read_ready drain next_frame cut_sized
first_goes_on = refl

read_ready-append_example :
    read_ready
      (λ n. n)
      count_frame
      (read_ready (λ n. n) count_frame 0 [] first_chunk).device
      (read_ready (λ n. n) count_frame 0 [] first_chunk).rx_buf
      second_chunk
    ≡ read_ready (λ n. n) count_frame 0 [] (first_chunk ++ second_chunk)
read_ready-append_example =
    read_ready-append (λ n. n) count_frame 0 [] first_chunk second_chunk first_goes_on

two_frames :
    read_ready (λ n. n) count_frame 0 [] (first_chunk ++ second_chunk)
    ≡ record { device = 2; rx_buf = []; left = false }
unfolding read_ready drain next_frame cut_sized
two_frames = refl

abbrev chunks : List Bytes
chunks = first_chunk ∷ second_chunk ∷ []

chunks_go_on : (feed (λ n. n) count_frame 0 [] chunks).left ≡ false
unfolding read_ready drain next_frame cut_sized
chunks_go_on = refl

feed-flatten_example :
    feed (λ n. n) count_frame 0 [] chunks
    ≡ read_ready (λ n. n) count_frame 0 [] (first_chunk ++ second_chunk)
unfolding next_frame flatten
feed-flatten_example = feed-flatten (λ n. n) count_frame 0 [] chunks refl chunks_go_on

next_frame-frame_example : next_frame (frame (3 ∷ 4 ∷ []) ++ (1 ∷ [])) ≡ cut (3 ∷ 4 ∷ []) (1 ∷ [])
next_frame-frame_example = next_frame-frame (3 ∷ 4 ∷ []) (1 ∷ []) (omega arith)
