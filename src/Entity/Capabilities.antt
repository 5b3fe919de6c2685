-- ===== src/Entity/Capabilities.antt =====
-- The lists of capabilities that an entity collects from its message.
use homed_service_esphome.Prelude.{
  leb, ◌==◌, ◌||◌, ℕ, ◌≡◌, refl, inl, inr, false, List, [], ◌∷◌, ◌++◌, arith, Bool-cases, if_keeps,
}
use homed_service_esphome.Prelude.Text.{Text, text_eq, contains_text, append_new, is_empty}
use homed_service_esphome.Qt.{Qt}
use homed_service_esphome.Proto.{ProtoField}
use homed_service_esphome.Entity.Info.{EntityInfo, no_info, holds}
use homed_service_esphome.Entity.Sensors.{
  binary_field, sensor_field, text_sensor_field, number_field, select_field, button_field,
}
use homed_service_esphome.Entity.Actors.{
  color_mode_options, append_named, switch_field, cover_field, light_field, climate_field,
  lock_field,
}
use homed_service_esphome.Entity.{typed_field, entity_field, entity_fields}
use homed_service_esphome.Climate.{climate_mode_name}
use mathlib.Core.List.{foldl}
use text.Mathlib.TextEquality.{eq_iff}

-- No text stands in the list twice.
abbrev pub NoRepeats : List Text → Type 0
NoRepeats [] = Unit {0}
NoRepeats (s ∷ l) = (contains_text l s ≡ false) × NoRepeats l

contains_text-append :
    (l : List Text) (s t : Text)
    → contains_text l s ≡ false
    → text_eq t s ≡ false
    → contains_text (l ++ (t ∷ [])) s ≡ false
unfolding contains_text
contains_text-append [] s t h n = ground arith
contains_text-append (x ∷ l) s t h n = ground (arith, contains_text-append l s t)

append-NoRepeats :
    (l : List Text) (t : Text) → NoRepeats l → contains_text l t ≡ false → NoRepeats (l ++ (t ∷ []))
unfolding contains_text
append-NoRepeats [] t v h = (refl, tt)
append-NoRepeats (s ∷ l) t v h = (
  contains_text-append l s t v.0 (ground (arith, eq_iff s t, eq_iff t s)),
  append-NoRepeats l t v.1 (ground arith),
)

append_new-NoRepeats : (l : List Text) (t : Text) → NoRepeats l → NoRepeats (append_new l t)
append_new-NoRepeats l t v = elim (Bool-cases (contains_text l t)) [
  | inl old ↦ rw old v
  | inr new ↦ rw new (append-NoRepeats l t v new)
]

append_named-NoRepeats : (l : List Text) (t : Text) → NoRepeats l → NoRepeats (append_named l t)
append_named-NoRepeats l t v = elim (Bool-cases (is_empty t)) [
  | inl none ↦ rw none v
  | inr named ↦ rw named (append_new-NoRepeats l t v)
]

color_mode_options-NoRepeats :
    (l : List Text) (mode : ℕ) → NoRepeats l → NoRepeats (color_mode_options l mode)
unfolding color_mode_options
color_mode_options-NoRepeats l mode v =
    let v₁ = if_keeps NoRepeats (leb 3 mode) (append_new-NoRepeats l "level" v) v in
    let v₂ =
      if_keeps NoRepeats (mode == 11 || mode == 47) (append_new-NoRepeats _ "colorTemperature" v₁)
        v₁ in
    if_keeps NoRepeats (mode == 35 || mode == 39 || mode == 47 || mode == 51)
      (append_new-NoRepeats _ "color" v₂) v₂

pub record Collected (info : EntityInfo) : Type 0 where
  pub light : NoRepeats info.light_options
  pub climate : NoRepeats info.climate_modes

module _ (qt : Qt) (info : EntityInfo) (f : ProtoField) (v : Collected info) where
  switch-Collected : Collected (switch_field qt info f)
  unfolding switch_field
  switch-Collected = ground arith

  binary-Collected : Collected (binary_field qt info f)
  unfolding binary_field
  binary-Collected = ground arith

  cover-Collected : Collected (cover_field qt info f)
  unfolding cover_field
  cover-Collected = ground arith

  sensor-Collected : Collected (sensor_field qt info f)
  unfolding sensor_field
  sensor-Collected = ground arith

  text_sensor-Collected : Collected (text_sensor_field qt info f)
  unfolding text_sensor_field
  text_sensor-Collected = ground arith

  select-Collected : Collected (select_field qt info f)
  unfolding select_field
  select-Collected = ground arith

  number-Collected : Collected (number_field qt info f)
  unfolding number_field
  number-Collected = ground arith

  lock-Collected : Collected (lock_field qt info f)
  unfolding lock_field
  lock-Collected = ground arith

  button-Collected : Collected (button_field qt info f)
  unfolding button_field
  button-Collected = ground arith

  light-Collected : Collected (light_field qt info f)
  unfolding light_field
  light-Collected = ground (arith, color_mode_options-NoRepeats info.light_options f.varint v.light)

  climate-Collected : Collected (climate_field qt info f)
  unfolding climate_field
  climate-Collected =
      if_keeps Collected (holds f 2 5) (record { light = v.light; climate = v.climate })
        (if_keeps Collected (holds f 19 2) (record { light = v.light; climate = v.climate })
          (if_keeps Collected (holds f 26 0) (record { light = v.light; climate = v.climate })
            (if_keeps Collected (holds f 7 0)
              (record {
                light = v.light;
                climate =
                    append_named-NoRepeats info.climate_modes (climate_mode_name f.varint)
                      v.climate;
              })
              (if_keeps Collected (holds f 8 5) (record { light = v.light; climate = v.climate })
                (if_keeps Collected (holds f 9 5) (record { light = v.light; climate = v.climate })
                  (if_keeps Collected (holds f 10 5)
                    (record { light = v.light; climate = v.climate })
                    (if_keeps Collected (holds f 12 0)
                      (record { light = v.light; climate = v.climate })
                      (if_keeps Collected (holds f 13 0)
                        (record { light = v.light; climate = v.climate })
                        (if_keeps Collected (holds f 15 2)
                          (record { light = v.light; climate = v.climate })
                          (if_keeps Collected (holds f 16 0)
                            (record { light = v.light; climate = v.climate })
                            (if_keeps Collected (holds f 17 2)
                              (record { light = v.light; climate = v.climate }) v)))))))))))

  typed_field-Collected : (type : ℕ) → Collected (typed_field qt type info f)
  unfolding typed_field
  typed_field-Collected type = ground (
    arith, switch-Collected, binary-Collected, cover-Collected, sensor-Collected,
    text_sensor-Collected, select-Collected, number-Collected, lock-Collected, button-Collected,
    light-Collected, climate-Collected,
  )

foldl-Collected :
    (qt : Qt) (type : ℕ) (fields : List ProtoField) (info : EntityInfo)
    → Collected info
    → Collected (foldl (entity_field qt type) info fields)
unfolding entity_field
foldl-Collected qt type [] info v = v
foldl-Collected qt type (f ∷ fields) info v =
    foldl-Collected qt type fields (entity_field qt type info f) (
      if_keeps Collected (holds f 3 2) (record { light = v.light; climate = v.climate })
        (typed_field-Collected qt info f v type))

-- Whatever the fields of a ListEntities message are, in whatever order and however often: neither
-- the light's options nor the climate's modes of the entity hold a text twice.
pub entity_fields-Collected :
    (qt : Qt) (type : ℕ) (fields : List ProtoField) → Collected (entity_fields qt type fields)
unfolding entity_fields
entity_fields-Collected qt type fields =
    foldl-Collected qt type fields no_info (record { light = tt; climate = tt })
