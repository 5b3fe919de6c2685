-- ===== src/Database/Reading.antt =====
-- DeviceList::parse, setupEndpoints and unserialize.
use homed_service_esphome.Prelude.{
  ℕ, ◌+◌, ◌^◌, ◌%◌, Bool, true, false, ◌||◌, ◌&&◌, List, [], ◌∷◌, Option, none, some, Bytes, ◌==◌,
  if◌then◌else◌,
}
use homed_service_esphome.Prelude.Text.{Text, text_eq, is_empty}
use homed_service_esphome.Prelude.Maps.{Map, insert, nat_key}
use homed_service_esphome.Qt.{Qt}
use homed_service_esphome.Variant.{
  Variant, Variants, nil, cons, Entries, end, entry, boolean, text, int, double, texts, object, put,
  put_text, value_at, text_at, to_text, to_map, to_bool, contains,
}
use homed_service_esphome.Exposes.{
  Expose, switch_object, binary_object, sensor_object, light_object, select_object, number_object,
  unnamed_button,
}
use homed_service_esphome.Discovery.Options.{positive_int}
use homed_service_esphome.Device.{DeviceObject, EndpointMeta, Store, append_device}
use homed_service_esphome.Database.Storage.{Storage, comma, newline, split_parts, to_array}

abbrev pub no_bytes : Bytes → Bool
no_bytes [] = true
no_bytes (b ∷ bytes) = false

module _ (qt : Qt) (storage : Storage qt) where
  open qt use {Double}

  -- ==================== setupEndpoints ====================

  -- The endpoint's exposes, and the options of the device.
  pub record SetUp : Type 0 where
    pub options : Entries Double
    pub exposes : List Expose

  module _ (json : Entries Double) (object_id : Text) where
    -- `entityName.isEmpty() ? objectId : entityName`
    abbrev pub entity_title : Text
    entity_title = if is_empty (text_at "name" json) then object_id else text_at "name" json

    abbrev with_title : Entries Double → Entries Double
    with_title options = put "title" (text entity_title) options

    abbrev int_at : Text → ℕ
    int_at key = storage.to_int 0 (value_at key json)

    abbrev with_round : Entries Double → Entries Double
    with_round options =
        if positive_int (int_at "accuracyDecimals")
        then put "round" (int (int_at "accuracyDecimals")) options
        else options

    unfoldable pub set_up_sensor : Entries Double → SetUp
    set_up_sensor options = record {
      options =
          put object_id
            (object (
              with_round (
                put_text "state" (text_at "stateClass" json) (
                  put_text "class" (text_at "deviceClass" json)
                    (put_text "unit" (text_at "unit" json) (with_title end))))))
            options;
      exposes = sensor_object object_id ∷ [];
    }

    unfoldable pub set_up_light : Entries Double → SetUp
    set_up_light options =
        let light = put "light" (texts (split_parts comma (text_at "lightOptions" json))) options in
        record {
          options =
              if contains "minMireds" json && contains "maxMireds" json
              then put "colorTemperature"
                  (object (
                    put "max" (int (int_at "maxMireds"))
                      (put "min" (int (int_at "minMireds")) end)))
                  light
              else light;
          exposes = light_object ∷ [];
        }

    unfoldable pub set_up_select : Entries Double → SetUp
    set_up_select options = record {
      options =
          put object_id
            (object (
              with_title (
                put "control" (boolean true)
                  (put "enum" (texts (split_parts newline (text_at "options" json))) end))))
            options;
      exposes = select_object object_id ∷ [];
    }

    abbrev number_at : Text → ℕ → Variant Double
    number_at key otherwise =
        double (storage.to_double (qt.double_literal otherwise) (value_at key json))

    unfoldable pub set_up_number : Entries Double → SetUp
    set_up_number options = record {
      options =
          put object_id
            (object (
              put_text "unit" (text_at "unit" json) (
                with_title (
                  put "control" (boolean true) (
                    put "step" (number_at "step" 1) (
                      put "max" (number_at "maxValue" 0)
                        (put "min" (number_at "minValue" 0) end)))))))
            options;
      exposes = number_object object_id ∷ [];
    }

    -- The chain of tests on the type.
    unfoldable pub set_up : Text → Entries Double → SetUp
    set_up type options =
        if text_eq type "switch"
        then record {
          options = put object_id (object (with_title end)) options;
          exposes = switch_object ∷ [];
        }
        else if text_eq type "binary_sensor"
        then record {
          options =
              put object_id
                (object (put_text "class" (text_at "deviceClass" json) (with_title end))) options;
          exposes = binary_object object_id ∷ [];
        }
        else if text_eq type "sensor" || text_eq type "text_sensor"
        then set_up_sensor options
        else if text_eq type "light"
        then set_up_light options
        else if text_eq type "select"
        then set_up_select options
        else if text_eq type "number"
        then set_up_number options
        else if text_eq type "button"
        then record {
          options =
              put object_id
                (object
                  (with_title (put "control" (boolean true) (put "type" (text "button") end))))
                options;
          exposes = unnamed_button ∷ [];
        }
        else record { options = options; exposes = [] }

  -- The meta data that is in the database; the rest is absent.
  abbrev pub stored_meta : ℕ → Text → Text → EndpointMeta
  stored_meta key type object_id = record {
    key = key;
    kind = type;
    object_id = object_id;
    special = false;
    round = none;
    icon = "";
    title = "";
    supports_position = false;
    climate_has_preset = false;
    climate_has_fan_mode = false;
  }

  -- One round; `i` counts all entities, those that are skipped too.
  unfoldable pub set_up_entity : ℕ → Entries Double → DeviceObject Double → DeviceObject Double
  set_up_entity i json d =
      let type = text_at "type" json in
      let object_id = text_at "objectId" json in
      let key = storage.quint32_of_json (value_at "key" json) in
      let made = set_up json object_id type d.options in
      if is_empty type || (is_empty object_id || key == 0) then d else record d {
        options = made.options;
        endpoints =
            insert ((i + 1) % 2 ^ 8)
              (record { meta = stored_meta key type object_id; exposes = made.exposes; state = [] })
              d.endpoints;
      }

  unfoldable pub set_up_entities : ℕ → Variants Double → DeviceObject Double → DeviceObject Double
  set_up_entities i nil d = d
  set_up_entities i (cons entity entities) d =
      set_up_entities (i + 1) entities (set_up_entity i (to_map entity) d)

  -- `device->endpoints().clear();` and the loop
  unfoldable pub setup_endpoints : Variants Double → DeviceObject Double → DeviceObject Double
  setup_endpoints entities d = set_up_entities 0 entities (record d { endpoints = [] })

  -- ==================== parse ====================

  unfoldable pub texts_of : Variants Double → List Text
  texts_of nil = []
  texts_of (cons v l) = to_text v ∷ texts_of l

  unfoldable pub slots_of : Entries Double → Map ℕ Text → Map ℕ Text
  slots_of end slots = slots
  slots_of (entry key value json) slots =
      slots_of json (insert (storage.text_to_int key) (to_text value) slots)

  module _ (base_device : DeviceObject Double) where
    unfoldable pub parsed : Text → Text → ℕ → Bytes → Entries Double → DeviceObject Double
    parsed name host port key json = record base_device {
      name = name;
      host = host;
      port = port;
      encryption_key = key;
      active = to_bool true (value_at "active" json);
      discovery = to_bool true (value_at "discovery" json);
      cloud = to_bool true (value_at "cloud" json);
      last_seen = storage.qint64_of_json (value_at "lastSeen" json);
      manufacturer_name = text_at "manufacturerName" json;
      published_endpoints = texts_of (to_array (value_at "publishedEndpoints" json));
      model_name = text_at "modelName" json;
      esphome_version = text_at "esphomeVersion" json;
      special_slots = slots_of (to_map (value_at "specialSlots" json)) [];
      parent_address = text_at "parentAddress" json;
    }

    -- none for the null device
    unfoldable pub parse : Entries Double → Option (DeviceObject Double)
    parse json =
        let name = text_at "name" json in
        let host = text_at "host" json in
        let port = storage.to_int 6053 (value_at "port" json) % 2 ^ 16 in
        let key = storage.from_base64 (text_at "encryptionKey" json) in
        if is_empty name || (is_empty host || no_bytes key)
        then none
        else some
            (setup_endpoints (to_array (value_at "entities" json)) (parsed name host port key json))

    unfoldable pub unserialize : Variants Double → Store Double → Store Double
    unserialize nil store = store
    unserialize (cons item devices) store =
        unserialize devices
          (elim (parse (to_map item)) [ none ↦ store | some d ↦ append_device d store ])
