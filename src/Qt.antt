-- ===== src/Qt.antt =====
-- What the program uses of Qt's texts and of the machine's floats, and of homed-common's mqttSafe:
-- operations that the repository does not contain. An int is its 32-bit pattern; a float is too.
use Prim.Native.Char.{Char}
use homed_service_esphome.Prelude.{ℕ, Bool, Bytes}
use homed_service_esphome.Prelude.Text.{Text}

pub record Qt : Type 1 where
  -- QString::fromUtf8, toUtf8, toLower and number; mqttSafe; QChar's tests and case maps.
  pub from_utf8 : Bytes → Text
  pub to_utf8 : Text → Bytes
  pub text_lower : Text → Text
  pub number : ℕ → Text
  pub mqtt_safe : Text → Text
  pub spaces_to_underscores : Text → Text
  pub is_letter_or_number : Char → Bool
  pub char_upper : Char → Char
  pub char_lower : Char → Char
  -- A product and a quotient of floats, `> 0`, and the casts to int and to double.
  pub float_mul : ℕ → ℕ → ℕ
  pub float_div : ℕ → ℕ → ℕ
  pub float_positive : ℕ → Bool
  pub int_of_float : ℕ → ℕ
  pub Double : Type 0
  pub double_of_float : ℕ → Double
  -- A literal such as 255.0, std::pow(10, n), `*`, `/`, std::round, `> 0.0` and the cast to int.
  pub double_literal : ℕ → Double
  pub double_pow10 : ℕ → Double
  pub double_mul : Double → Double → Double
  pub double_div : Double → Double → Double
  pub double_round : Double → Double
  pub double_positive : Double → Bool
  pub int_of_double : Double → ℕ
