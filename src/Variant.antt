-- ===== src/Variant.antt =====
-- QVariant, QJsonValue and the maps and lists of them: the values of a device's options, of what is
-- published, and of the database. A QJsonValue that was made from an int is `int`, though it holds a
-- double: that conversion is exact. An int is its 32-bit pattern.
pub mod Laws
use homed_service_esphome.Prelude.{
  ℕ, Bool, true, false, List, [], ◌∷◌, ◌++◌, Option, none, some, if◌then◌else◌,
}
use homed_service_esphome.Prelude.Text.{Text, text_eq, is_empty}
use homed_service_esphome.Prelude.Maps.{Key, text_key}

mutual
  pub data Variant (Double : Type 0) : Type 0 where
    invalid : Variant Double
    boolean : Bool → Variant Double
    text : Text → Variant Double
    int : ℕ → Variant Double
    double : Double → Variant Double
    texts : List Text → Variant Double
    array : Variants Double → Variant Double
    object : Entries Double → Variant Double

  pub data Variants (Double : Type 0) : Type 0 where
    nil : Variants Double
    cons : Variant Double → Variants Double → Variants Double

  -- A QVariantMap or a QJsonObject, in the order of the keys, each key once.
  pub data Entries (Double : Type 0) : Type 0 where
    end : Entries Double
    entry : Text → Variant Double → Entries Double → Entries Double

module _ {Double : Type 0} where
  unfoldable pub find : Text → Entries Double → Option (Variant Double)
  find k end = none
  find k (entry j v m) = if text_key.same j k then some v else find k m

  unfoldable pub put : Text → Variant Double → Entries Double → Entries Double
  put k v end = entry k v end
  put k v (entry j w m) =
      if text_key.same j k
      then entry k v m
      else if text_key.before k j
      then entry k v (entry j w m)
      else entry j w (put k v m)

  -- `if (!value.isEmpty()) map.insert(key, value);`
  abbrev pub put_text : Text → Text → Entries Double → Entries Double
  put_text k value m = if is_empty value then m else put k (text value) m

  abbrev pub contains : Text → Entries Double → Bool
  contains k m = elim (find k m) [ none ↦ false | some v ↦ true ]

  abbrev pub is_end : Entries Double → Bool
  is_end end = true
  is_end (entry k v m) = false

  -- `map.value(key)`; the null value of a QJsonValue is `invalid` too.
  abbrev pub value_at : Text → Entries Double → Variant Double
  value_at k m = elim (find k m) [ none ↦ invalid | some v ↦ v ]

  -- toString; what the program reads as a text holds a text or nothing.
  abbrev pub to_text : Variant Double → Text
  to_text (text t) = t
  to_text _ = ""

  abbrev pub to_map : Variant Double → Entries Double
  to_map (object m) = m
  to_map _ = end

  -- toStringList
  abbrev pub to_texts : Variant Double → List Text
  to_texts (texts l) = l
  to_texts (text t) = t ∷ []
  to_texts _ = []

  -- QJsonValue::toBool
  abbrev pub to_bool : Bool → Variant Double → Bool
  to_bool otherwise (boolean b) = b
  to_bool otherwise _ = otherwise

  abbrev pub is_valid : Variant Double → Bool
  is_valid invalid = false
  is_valid _ = true

  abbrev pub text_at : Text → Entries Double → Text
  text_at k m = to_text (value_at k m)

  abbrev pub append_value : Variants Double → Variant Double → Variants Double
  append_value nil v = cons v nil
  append_value (cons w l) v = cons w (append_value l v)
