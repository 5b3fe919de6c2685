-- ===== src/Discovery/Options.antt =====
-- The chain of tests on the type of an entity in applyEntitiesToDevice: the options of the device
-- and the exposes of the endpoint, from which homed-common and the Controller build what they
-- publish.
use homed_service_esphome.Prelude.{
  ℕ, Bool, true, false, ◌||◌, List, [], ◌∷◌, ◌^◌, ltb, ◌&&◌, if◌then◌else◌,
}
use homed_service_esphome.Prelude.Text.{Text, text_eq, is_empty}
use homed_service_esphome.Qt.{Qt}
use homed_service_esphome.Variant.{
  Variant, boolean, text, int, double, texts, object, Entries, end, put, put_text,
}
use homed_service_esphome.Exposes.{
  Expose, switch_object, lock_object, light_object, cover_object, thermostat_object, binary_object,
  sensor_object, select_object, number_object, button_object, expose_object,
}
use homed_service_esphome.Entity.Info.{EntityInfo}
use homed_service_esphome.Discovery.CamelCase.{append_text}

-- What one round leaves: the options of the device, and the exposes of the entity's endpoint.
pub record Described (Double : Type 0) : Type 0 where
  pub options : Entries Double
  pub exposes : List Expose

abbrev is_nil : List Text → Bool
is_nil [] = true
is_nil (t ∷ l) = false

-- `accuracyDecimals > 0` on the 32-bit pattern of an int
abbrev pub positive_int : ℕ → Bool
positive_int n = ltb 0 n && ltb n (2 ^ 31)

module _ (qt : Qt) (info : EntityInfo) (object_id : Text) (endpoint_id : ℕ) where
  open qt use {Double, number, float_positive, int_of_float, double_of_float}

  -- `info.name.isEmpty() ? objectId : info.name`
  abbrev pub title : Text
  title = if is_empty info.name then object_id else info.name

  -- `QString("name_%1").arg(endpointId)`
  abbrev pub numbered : Text → Text
  numbered name = append_text name (append_text "_" (number endpoint_id))

  -- The value under the name with the endpoint's number, and under the name alone.
  abbrev pub put_both : Text → Variant Double → Entries Double → Entries Double
  put_both name value options = put name value (put (numbered name) value options)

  abbrev pub titled : Entries Double
  titled = put_text "icon" info.icon (put "title" (text title) end)

  unfoldable pub describe_switch : Entries Double → Described Double
  describe_switch options =
      if info.toggle_category
      then record {
        options =
            put object_id
              (object (put "control" (boolean true) (put "type" (text "toggle") titled))) options;
        exposes = expose_object object_id ∷ [];
      }
      else record {
        options = put object_id (object titled) (put (numbered "switch") (object titled) options);
        exposes = switch_object ∷ [];
      }

  unfoldable pub describe_lock : Entries Double → Described Double
  describe_lock options = record {
    options = put object_id (object titled) (put (numbered "lock") (object titled) options);
    exposes = lock_object ∷ [];
  }

  unfoldable pub describe_binary : Entries Double → Described Double
  describe_binary options = record {
    options =
        put object_id
          (object (
            put_text "icon" info.icon (
              put_text "class" info.device_class
                (put "title" (text title) (put "type" (text "binary") end)))))
          options;
    exposes = binary_object object_id ∷ [];
  }

  abbrev put_round : Entries Double → Entries Double
  put_round opts =
      if positive_int info.accuracy_decimals
      then put "round" (int info.accuracy_decimals) opts
      else opts

  unfoldable pub describe_sensor : Entries Double → Described Double
  describe_sensor options = record {
    options =
        put object_id
          (object (
            put_text "icon" info.icon (
              put_round (
                put_text "state" info.state_class (
                  put_text "class" info.device_class (
                    put_text "unit" info.unit
                      (put "title" (text title) (put "type" (text "sensor") end))))))))
          options;
    exposes = sensor_object object_id ∷ [];
  }

  abbrev mireds : Entries Double
  mireds =
      put "max" (int (int_of_float info.max_mireds))
        (put "min" (int (int_of_float info.min_mireds)) end)

  unfoldable pub describe_light : Entries Double → Described Double
  describe_light options =
      let capabilities : Variant Double = texts info.light_options in
      let lit =
        put (append_text object_id "_light") capabilities (put_both "light" capabilities options) in
      record {
        options =
            if float_positive info.min_mireds || float_positive info.max_mireds
            then put (append_text object_id "_colorTemperature") (object mireds)
                (put_both "colorTemperature" (object mireds) lit)
            else lit;
        exposes = light_object ∷ [];
      }

  unfoldable pub describe_cover : Entries Double → Described Double
  describe_cover options = record {
    options = put_both "cover" (text info.device_class) options;
    exposes = cover_object ∷ [];
  }

  -- `info.step > 0 ? info.step : otherwise`
  abbrev pub step_or : ℕ → ℕ
  step_or otherwise = if float_positive info.step then info.step else otherwise

  abbrev range : ℕ → Entries Double → Entries Double
  range otherwise opts = put "step" (double (double_of_float (step_or otherwise))) (
      put "max" (double (double_of_float info.max_value))
        (put "min" (double (double_of_float info.min_value)) opts))

  abbrev put_choices : Text → List Text → Entries Double → Entries Double
  put_choices name choices options =
      if is_nil choices
      then options
      else put_both name (object (put "enum" (texts choices) end)) options

  -- 0.5f is the step of a thermostat that names none.
  unfoldable pub describe_climate : Entries Double → Described Double
  describe_climate options =
      let named = put (numbered "thermostat") (object (put "title" (text title) end)) options in
      let modes =
        put_both "systemMode" (object (put "enum" (texts info.climate_modes) end)) named in
      let presets = put_choices "operationMode" info.climate_presets modes in
      let fans = put_choices "fanMode" info.climate_fan_modes presets in
      let target = put_both "targetTemperature" (object (range 0x3f000000 end)) fans in
      record {
        options = put_both "runningStatus" (boolean info.climate_supports_action) target;
        exposes = thermostat_object ∷ [];
      }

  unfoldable pub describe_select : Entries Double → Described Double
  describe_select options = record {
    options =
        put object_id
          (object (
            put_text "icon" info.icon (
              put "title" (text title) (
                put "control" (boolean true)
                  (put "enum" (texts info.select_options) (put "type" (text "select") end))))))
          options;
    exposes = select_object object_id ∷ [];
  }

  -- 1.0f is the step of a number that names none.
  unfoldable pub describe_number : Entries Double → Described Double
  describe_number options = record {
    options =
        put object_id
          (object (
            put_text "unit" info.unit (
              put_text "icon" info.icon (
                put "title" (text title) (
                  put "control" (boolean true)
                    (range 0x3f800000 (put "type" (text "number") end)))))))
          options;
    exposes = number_object object_id ∷ [];
  }

  unfoldable pub describe_button : Entries Double → Described Double
  describe_button options = record {
    options =
        put object_id
          (object (
            put_text "icon" info.icon (
              put "title" (text title)
                (put "control" (boolean true) (put "type" (text "button") end)))))
          options;
    exposes = button_object object_id ∷ [];
  }

  unfoldable pub describe : Entries Double → Described Double
  describe options =
      if text_eq info.kind "switch"
      then describe_switch options
      else if text_eq info.kind "lock"
      then describe_lock options
      else if text_eq info.kind "binary_sensor"
      then describe_binary options
      else if text_eq info.kind "sensor" || text_eq info.kind "text_sensor"
      then describe_sensor options
      else if text_eq info.kind "light"
      then describe_light options
      else if text_eq info.kind "cover"
      then describe_cover options
      else if text_eq info.kind "climate"
      then describe_climate options
      else if text_eq info.kind "select"
      then describe_select options
      else if text_eq info.kind "number"
      then describe_number options
      else if text_eq info.kind "button"
      then describe_button options
      else record { options = options; exposes = [] }
