-- ===== src/Examples.antt =====
-- Concrete inputs: a Qt with plain ASCII texts, a noise-c that encrypts nothing, messages and
-- connections, and each theorem at one of them.
mod Wire
mod Entities
mod Sessions
mod Control
mod Files
mod Runs
use Prim.Native.Char.{Char, code}
use Prim.Native.String.{String}
use homed_service_esphome.Prelude.{
  ℕ, zero, suc, ◌+◌, Bool, true, false, List, [], ◌∷◌, Option, none, some, Bytes, ltb, leb, ◌&&◌,
  ◌||◌,
}
use homed_service_esphome.Prelude.Text.{Text, is_empty}
use homed_service_esphome.Variant.{end}
use homed_service_esphome.Qt.{Qt}
use homed_service_esphome.Noise.{NoiseC, write_action, read_action, split_action, Action}
use homed_service_esphome.Device.{DeviceObject, unknown, Store}
use homed_service_esphome.Connection.Session.{Platform}

-- code points; the texts of the examples are ASCII
abbrev pub codes : String → Bytes
codes String.[] = []
codes (String.◌∷◌ c s) = code c ∷ codes s

-- Doubles are whole numbers here, and no arithmetic changes them.
-- An ASCII letter or digit.
abbrev is_alphanumeric : ℕ → Bool
is_alphanumeric n = (leb 48 n && leb n 57) || (leb 65 n && leb n 90) || (leb 97 n && leb n 122)

abbrev pub plain_qt : Qt
plain_qt = record {
  from_utf8 = λ bytes. elim bytes [ [] ↦ "" | b ∷ rest ↦ "text" ];
  to_utf8 = codes;
  text_lower = λ t. t;
  number = λ n. "n";
  mqtt_safe = λ t. t;
  spaces_to_underscores = λ t. t;
  is_letter_or_number = λ c. is_alphanumeric (code c);
  char_upper = λ c. c;
  char_lower = λ c. c;
  float_mul = λ a b. a;
  float_div = λ a b. 0;
  float_positive = λ a. ltb 0 a;
  int_of_float = λ a. a;
  Double = ℕ;
  double_of_float = λ a. a;
  double_literal = λ n. n;
  double_pow10 = λ n. 1;
  double_mul = λ a b. a;
  double_div = λ a b. a;
  double_round = λ a. a;
  double_positive = λ a. ltb 0 a;
  int_of_double = λ a. a;
}

abbrev action_at : ℕ → Action
action_at zero = write_action
action_at (suc zero) = read_action
action_at (suc (suc n)) = split_action

-- A handshake of one message each way, and ciphers that count and change nothing.
abbrev pub plain_noise : NoiseC
plain_noise = record {
  HandshakeState = ℕ;
  CipherState = ℕ;
  new_by_name = λ random. some 0;
  set_prologue = λ h bytes. h;
  set_pre_shared_key = λ h key. h;
  start = λ h. some h;
  get_action = action_at;
  write_message = λ h limit. (1, some (7 ∷ []));
  read_message = λ h message. (2, true);
  split = λ h. (3, some (0, 0));
  get_mac_length = λ cipher. 0;
  encrypt_with_ad = λ cipher plaintext limit. (suc cipher, some plaintext);
  decrypt_with_ad = λ cipher ciphertext. (suc cipher, some ciphertext);
}

abbrev pub empty_device : DeviceObject ℕ
empty_device = record {
  name = "";
  host = "";
  port = 0;
  encryption_key = [];
  active = true;
  discovery = true;
  cloud = true;
  availability = unknown;
  last_seen = 0;
  manufacturer_name = "";
  model_name = "";
  esphome_version = "";
  published_endpoints = [];
  special_slots = [];
  parent_address = "";
  options = end;
  endpoints = [];
}

abbrev pub platform : Platform
platform = record { qt = plain_qt; noise_c = plain_noise; base_device = empty_device }
