-- ===== src/Frame/Inverse.antt =====
-- The frames that the program writes, and the loop of onReadyRead.
use homed_service_esphome.Prelude.{
  ℕ, ◌/◌, ◌%◌, ◌^◌, ◌<◌, ◌≡◌, ◌++◌, arith, Bytes, length, length-append, take-length-append,
  drop-length-append,
}
use homed_service_esphome.Prelude.Bits.{bit_or_shifted}
use homed_service_esphome.Frame.{frame, read_size, cut, cut_sized, next_frame}

pub read_size_bytes : (x : ℕ) → x < 2 ^ 16 → read_size (x / 2 ^ 8 % 2 ^ 8) (x % 2 ^ 8) ≡ x
read_size_bytes x h = omega (arith, bit_or_shifted 8 (x / 2 ^ 8 % 2 ^ 8) (x % 2 ^ 8))

-- Let a payload be below 2 ^ 16 bytes. Whatever bytes follow its frame, the loop of onReadyRead cuts
-- the payload off and leaves these bytes.
pub next_frame-frame :
    (payload rest : Bytes)
    → length payload < 2 ^ 16
    → next_frame (frame payload ++ rest) ≡ cut payload rest
unfolding next_frame frame cut_sized
next_frame-frame payload rest h = ground (
  arith,
  read_size_bytes (length payload),
  length-append payload rest,
  take-length-append payload rest,
  drop-length-append payload rest,
)
