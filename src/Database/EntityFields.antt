-- ===== src/Database/EntityFields.antt =====
-- What serialize writes of an endpoint, under the names that setupEndpoints reads.
use homed_service_esphome.Prelude.{
  ◌≡◌, refl, ap, ◌∙◌, false, ◌||◌, Option, none, some, arith, Bool-cases, if_keeps, inl, inr,
}
use homed_service_esphome.Prelude.Text.{Text, text_eq}
use homed_service_esphome.Prelude.Maps.{nat_key, text_key}
use homed_service_esphome.Qt.{Qt}
use homed_service_esphome.Variant.{
  Variant, invalid, Entries, text, put, find, value_at, text_at, to_text,
}
use homed_service_esphome.Variant.Laws.{find-put}
use homed_service_esphome.Device.{Endpoint}
use homed_service_esphome.Database.Storage.{Storage}
use homed_service_esphome.Database.Writing

abbrev or_invalid : {Double : Type 0} → Option (Variant Double) → Variant Double
or_invalid none = invalid
or_invalid (some v) = v

module _ (qt : Qt) (storage : Storage qt) where
  open qt use {Double}

  -- Not a name that serialize uses for what depends on the type.
  record IsApart (k : Text) : Type 0 where
    class : text_eq "deviceClass" k ≡ false
    unit : text_eq "unit" k ≡ false
    state : text_eq "stateClass" k ≡ false
    decimals : text_eq "accuracyDecimals" k ≡ false
    light : text_eq "lightOptions" k ≡ false
    least_mireds : text_eq "minMireds" k ≡ false
    most_mireds : text_eq "maxMireds" k ≡ false
    choices : text_eq "options" k ≡ false
    least : text_eq "minValue" k ≡ false
    most : text_eq "maxValue" k ≡ false
    step : text_eq "step" k ≡ false

  module _ (k : Text) (apart : IsApart k) where
    put_other :
        (name : Text) (v : Variant Double) (json : Entries Double)
        → text_eq name k ≡ false
        → find k (put name v json) ≡ find k json
    put_other name v json other = ground (arith, other, find-put name k v json)

    copy_text_other :
        (from name : Text) (opts json : Entries Double)
        → text_eq name k ≡ false
        → find k (Writing.copy_text qt storage from name opts json) ≡ find k json
    copy_text_other from name opts json other =
        if_keeps (λ m. find k m ≡ find k json) _ (put_other name _ json other) refl

    copy_int_other :
        (from name : Text) (opts json : Entries Double)
        → text_eq name k ≡ false
        → find k (Writing.copy_int qt storage from name opts json) ≡ find k json
    copy_int_other from name opts json other =
        if_keeps (λ m. find k m ≡ find k json) _ (put_other name _ json other) refl

    write_sensor_other :
        (options : Entries Double) (object_id : Text) (json : Entries Double)
        → find k (Writing.write_sensor qt storage options object_id json) ≡ find k json
    unfolding Writing.write_sensor
    write_sensor_other options object_id json =
        copy_int_other "round" "accuracyDecimals" _ _ apart.decimals
        ∙ (copy_text_other "state" "stateClass" _ _ apart.state
            ∙ (copy_text_other "class" "deviceClass" _ _ apart.class
                ∙ copy_text_other "unit" "unit" _ json apart.unit))

    write_light_other :
        (options : Entries Double) (object_id : Text) (json : Entries Double)
        → find k (Writing.write_light qt storage options object_id json) ≡ find k json
    unfolding Writing.write_light
    write_light_other options object_id json =
        copy_int_other "max" "maxMireds" _ _ apart.most_mireds
        ∙ (copy_int_other "min" "minMireds" _ _ apart.least_mireds
            ∙ put_other "lightOptions" _ json apart.light)

    write_number_other :
        (options : Entries Double) (object_id : Text) (json : Entries Double)
        → find k (Writing.write_number qt storage options object_id json) ≡ find k json
    unfolding Writing.write_number
    write_number_other options object_id json =
        copy_text_other "unit" "unit" _ _ apart.unit
        ∙ (put_other "step" _ _ apart.step
            ∙ (put_other "maxValue" _ _ apart.most ∙ put_other "minValue" _ json apart.least))

    write_typed_other :
        (options : Entries Double) (object_id type : Text) (json : Entries Double)
        → find k (Writing.write_typed qt storage options object_id type json) ≡ find k json
    unfolding Writing.write_typed
    write_typed_other options object_id type json =
        let same : Entries Double → Type 0 = λ m. find k m ≡ find k json in
        if_keeps same (text_eq type "binary_sensor") (put_other "deviceClass" _ json apart.class) (
          if_keeps same (text_eq type "sensor" || text_eq type "text_sensor")
            (write_sensor_other options object_id json)
            (if_keeps same (text_eq type "light") (write_light_other options object_id json) (
              if_keeps same (text_eq type "select") (put_other "options" _ json apart.choices) (
                if_keeps same (text_eq type "number") (write_number_other options object_id json)
                  refl))))

  basic_entity-finds :
      (options : Entries Double) (ep : Endpoint Double)
      → (find "type" (Writing.basic_entity qt storage options ep) ≡ some (text ep.meta.kind))
        × (find "objectId" (Writing.basic_entity qt storage options ep)
            ≡ some (text ep.meta.object_id))
        × (find "key" (Writing.basic_entity qt storage options ep)
            ≡ some (storage.json_of_quint32 ep.meta.key))
  unfolding Writing.basic_entity find put
  basic_entity-finds options ep =
      elim (Bool-cases (Writing.is_titled qt storage options ep.meta.object_id)) [
        | inl e ↦ rw (Writing.basic_entity, e) (refl, refl, refl)
        | inr e ↦ rw (Writing.basic_entity, e) (refl, refl, refl)
      ]

  abbrev apart_type : IsApart "type"
  apart_type = record {
    class = refl;
    unit = refl;
    state = refl;
    decimals = refl;
    light = refl;
    least_mireds = refl;
    most_mireds = refl;
    choices = refl;
    least = refl;
    most = refl;
    step = refl;
  }

  abbrev apart_object_id : IsApart "objectId"
  apart_object_id = record {
    class = refl;
    unit = refl;
    state = refl;
    decimals = refl;
    light = refl;
    least_mireds = refl;
    most_mireds = refl;
    choices = refl;
    least = refl;
    most = refl;
    step = refl;
  }

  abbrev apart_key : IsApart "key"
  apart_key = record {
    class = refl;
    unit = refl;
    state = refl;
    decimals = refl;
    light = refl;
    least_mireds = refl;
    most_mireds = refl;
    choices = refl;
    least = refl;
    most = refl;
    step = refl;
  }

  -- What an endpoint has in its object, by the names that setupEndpoints reads first.
  pub write_entity-reads :
      (options : Entries Double) (ep : Endpoint Double)
      → (text_at "type" (Writing.write_entity qt storage options ep) ≡ ep.meta.kind)
        × (text_at "objectId" (Writing.write_entity qt storage options ep) ≡ ep.meta.object_id)
        × (value_at "key" (Writing.write_entity qt storage options ep)
            ≡ storage.json_of_quint32 ep.meta.key)
  unfolding Writing.write_entity
  write_entity-reads options ep =
      let object_id : Text = ep.meta.object_id in
      let basic : Entries Double = Writing.basic_entity qt storage options ep in
      let finds = basic_entity-finds options ep in
      (
        ap (λ o. to_text (or_invalid o))
            (write_typed_other "type" apart_type options object_id ep.meta.kind basic ∙ finds.0),
        ap (λ o. to_text (or_invalid o))
            (write_typed_other "objectId" apart_object_id options object_id ep.meta.kind basic
              ∙ finds.1),
        ap or_invalid
            (write_typed_other "key" apart_key options object_id ep.meta.kind basic ∙ finds.2),
      )
