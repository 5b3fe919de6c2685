-- ===== src/Examples/Files.antt =====
-- A device in the database and out of it.
use Prim.Native.Char.{code}
use Prim.Native.String.{String}
use homed_service_esphome.Prelude.{
  ℕ, zero, suc, ap, ◌∙◌, ◌==◌, if◌then◌else◌, ◌≡◌, refl, ◌+◌, true, [], ◌∷◌, some, Bytes, arith,
}
use homed_service_esphome.Prelude.Text.{Text}
use homed_service_esphome.Prelude.Maps.{lookup, nat_key}
use homed_service_esphome.Variant.{Variant, int, end}
use homed_service_esphome.Device.{DeviceObject, Endpoint}
use homed_service_esphome.Qt.{Qt}
use homed_service_esphome.Database.Storage.{Storage}
use homed_service_esphome.Database.Slots.{IsFaithful}
use homed_service_esphome.Database.Reading
use homed_service_esphome.Database.Writing
use homed_service_esphome.Database.RoundTrip.{IsRestored, parse-write_device}
use homed_service_esphome.Database.Renumbered.{
  IsStored, ids_metas, counted, setup_endpoints-counted,
}
use homed_service_esphome.Examples.{plain_qt, empty_device}
use homed_service_esphome.Examples.Control.{device, lamp}

-- Numbers as so many bars, and bytes as bars that commas end.
abbrev bars : ℕ → Text → Text
bars zero rest = rest
bars (suc n) rest = String.◌∷◌ "|" (bars n rest)

abbrev count_bars : Text → ℕ
count_bars String.[] = zero
count_bars (String.◌∷◌ c t) = suc (count_bars t)

abbrev encode_bytes : Bytes → Text
encode_bytes [] = ""
encode_bytes (b ∷ bytes) = bars b (String.◌∷◌ "," (encode_bytes bytes))

abbrev decode_bytes : ℕ → Text → Bytes
decode_bytes n String.[] = []
decode_bytes n (String.◌∷◌ c t) =
    if code c == 44 then n ∷ decode_bytes 0 t else decode_bytes (n + 1) t

count_bars-bars : (n : ℕ) → count_bars (bars n "") ≡ n
count_bars-bars zero = refl
count_bars-bars (suc n) = ap suc (count_bars-bars n)

decode_bytes-bars :
    (n b : ℕ) (t : Text) → decode_bytes n (bars b (String.◌∷◌ "," t)) ≡ (n + b) ∷ decode_bytes 0 t
decode_bytes-bars n zero t = ap (λ k. k ∷ decode_bytes 0 t) (omega arith)
decode_bytes-bars n (suc b) t =
    decode_bytes-bars (n + 1) b t ∙ ap (λ k. k ∷ decode_bytes 0 t) (omega arith)

decode_bytes-encode_bytes : (bytes : Bytes) → decode_bytes 0 (encode_bytes bytes) ≡ bytes
decode_bytes-encode_bytes [] = refl
decode_bytes-encode_bytes (b ∷ bytes) =
    decode_bytes-bars 0 b (encode_bytes bytes)
    ∙ (ap (λ k. k ∷ decode_bytes 0 (encode_bytes bytes)) (omega arith)
        ∙ ap (◌∷◌ b) (decode_bytes-encode_bytes bytes))

abbrev counting_qt : Qt
counting_qt = record plain_qt { number = λ n. bars n "" }

abbrev int_of : Variant ℕ → ℕ
int_of v = elim v [ int n ↦ n | _ ↦ 0 ]

abbrev files : Storage counting_qt
files = record {
  to_int = λ otherwise v. elim v [ int n ↦ n | _ ↦ otherwise ];
  to_double = λ otherwise v. otherwise;
  json_of_qint64 = λ n. int n;
  qint64_of_json = int_of;
  json_of_quint32 = λ n. int n;
  quint32_of_json = int_of;
  to_base64 = encode_bytes;
  from_base64 = λ t. decode_bytes 0 t;
  text_to_int = count_bars;
}

files-IsFaithful : IsFaithful counting_qt files
files-IsFaithful = record {
  int_law = λ otherwise n. refl;
  base64_law = decode_bytes-encode_bytes;
  number_law = λ n small. count_bars-bars n;
  seconds_law = λ n small. refl;
  key_law = λ n small. refl;
}

abbrev stored : DeviceObject ℕ
stored = record device {
  port = 6053;
  encryption_key = 5 ∷ 9 ∷ [];
  special_slots = (2, "lamp") ∷ [];
}

parse-write_device_example :
    (d' : DeviceObject ℕ) × ((Reading.parse counting_qt files empty_device
          (Writing.write_device counting_qt files stored)
        ≡ some d')
      × IsRestored counting_qt files empty_device stored d')
unfolding lookup
parse-write_device_example =
    parse-write_device counting_qt files empty_device stored files-IsFaithful refl refl refl
      (omega arith) (omega arith) ((refl, omega arith), tt)

-- A special light with the number 3.
abbrev light : Endpoint ℕ
light = record lamp { meta = record lamp.meta { kind = "light"; special = true } }

light-IsStored : IsStored counting_qt files light
light-IsStored = record {
  has_kind = refl;
  has_object_id = refl;
  has_key = refl;
  key_fits = omega arith;
}

setup_endpoints-counted_example :
    ids_metas counting_qt files
      (Reading.setup_endpoints counting_qt files
        (Writing.write_entities counting_qt files end ((3, light) ∷ []))
        empty_device).endpoints
    ≡ counted counting_qt files 1 ((3, light) ∷ [])
setup_endpoints-counted_example =
    setup_endpoints-counted counting_qt files end ((3, light) ∷ []) empty_device files-IsFaithful
      (light-IsStored, tt) (omega arith)
