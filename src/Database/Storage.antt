-- ===== src/Database/Storage.antt =====
-- What the database uses of Qt's JSON and of base64, and its lists of texts within one text.
use Prim.Native.Char.{code}
use Prim.Native.String.{String}
use homed_service_esphome.Prelude.{ℕ, List, [], ◌∷◌, Bytes, ◌==◌, if◌then◌else◌}
use homed_service_esphome.Prelude.Text.{Text, is_empty}
use homed_service_esphome.Qt.{Qt}
use homed_service_esphome.Variant.{Variant, Variants, text, int, array, nil, cons}
use homed_service_esphome.Discovery.CamelCase.{append_text}

pub record Storage (qt : Qt) : Type 1 where
  -- toInt and toDouble with their defaults
  pub to_int : ℕ → Variant qt.Double → ℕ
  pub to_double : qt.Double → Variant qt.Double → qt.Double
  -- a qint64 as a QJsonValue, and back by way of a double; a quint32 as a double, and back
  pub json_of_qint64 : ℕ → Variant qt.Double
  pub qint64_of_json : Variant qt.Double → ℕ
  pub json_of_quint32 : ℕ → Variant qt.Double
  pub quint32_of_json : Variant qt.Double → ℕ
  -- QByteArray's base64, as a text, and QString::toInt
  pub to_base64 : Bytes → Text
  pub from_base64 : Text → Bytes
  pub text_to_int : Text → ℕ

-- ',' and '\n'
abbrev pub comma : ℕ
comma = 44

abbrev pub newline : ℕ
newline = 10

abbrev pub separator_text : ℕ → Text
separator_text separator = if separator == comma then "," else "\n"

-- QStringList::join
unfoldable pub join : ℕ → List Text → Text
join separator [] = ""
join separator (t ∷ []) = t
join separator (t ∷ u ∷ rest) =
    append_text t (append_text (separator_text separator) (join separator (u ∷ rest)))

abbrev keep_part : Text → List Text → List Text
keep_part part parts = if is_empty part then parts else part ∷ parts

-- QString::split with Qt::SkipEmptyParts; the first part collects the text since the last separator.
unfoldable pub split_from : ℕ → Text → Text → List Text
split_from separator part String.[] = keep_part part []
split_from separator part (String.◌∷◌ c t) =
    if code c == separator
    then keep_part part (split_from separator "" t)
    else split_from separator (append_text part (String.◌∷◌ c "")) t

abbrev pub split_parts : ℕ → Text → List Text
split_parts separator t = split_from separator "" t

module _ {Double : Type 0} where
  -- toArray, QJsonArray::fromStringList, and the texts of an array
  abbrev pub to_array : Variant Double → Variants Double
  to_array (array l) = l
  to_array _ = nil

  abbrev pub array_of_texts : List Text → Variants Double
  array_of_texts [] = nil
  array_of_texts (t ∷ l) = cons (text t) (array_of_texts l)

  -- QVariant::toInt; what the program reads as an int holds one or nothing.
  abbrev pub variant_int : Variant Double → ℕ
  variant_int (int n) = n
  variant_int _ = 0
