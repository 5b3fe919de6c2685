-- ===== src/Database/Writing.antt =====
-- DeviceList::serialize.
use homed_service_esphome.Prelude.{ℕ, Bool, not, ◌&&◌, ◌||◌, List, [], ◌∷◌, if◌then◌else◌}
use homed_service_esphome.Prelude.Text.{Text, text_eq, is_empty}
use homed_service_esphome.Prelude.Maps.{Map}
use homed_service_esphome.Qt.{Qt}
use homed_service_esphome.Variant.{
  Variant, Variants, nil, cons, Entries, end, boolean, text, int, double, object, array, put,
  value_at, text_at, to_map, to_texts, contains,
}
use homed_service_esphome.Device.{DeviceObject, Endpoint, Store}
use homed_service_esphome.Database.Storage.{
  Storage, comma, newline, join, array_of_texts, variant_int,
}

module _ (qt : Qt) (storage : Storage qt) where
  open qt use {Double}

  -- `if (opts.contains(from)) entity.insert(to, opts.value(from).toString());`
  abbrev pub copy_text : Text → Text → Entries Double → Entries Double → Entries Double
  copy_text from to opts json =
      if contains from opts then put to (text (text_at from opts)) json else json

  abbrev pub copy_int : Text → Text → Entries Double → Entries Double → Entries Double
  copy_int from to opts json =
      if contains from opts then put to (int (variant_int (value_at from opts))) json else json

  module _ (options : Entries Double) (object_id : Text) where
    -- `device->options().value(objectId).toMap()`
    abbrev pub object_options : Entries Double
    object_options = to_map (value_at object_id options)

    unfoldable pub write_sensor : Entries Double → Entries Double
    write_sensor json = copy_int "round" "accuracyDecimals" object_options (
        copy_text "state" "stateClass" object_options (
          copy_text "class" "deviceClass" object_options
            (copy_text "unit" "unit" object_options json)))

    unfoldable pub write_light : Entries Double → Entries Double
    write_light json =
        let ct = to_map (value_at "colorTemperature" options) in
        copy_int "max" "maxMireds" ct (
          copy_int "min" "minMireds" ct
            (put "lightOptions" (text (join comma (to_texts (value_at "light" options)))) json))

    -- `opts.value(key, otherwise).toDouble()`: the default is for a missing key only, and what is no
    -- number is 0.
    abbrev double_of : Text → ℕ → Variant Double
    double_of key otherwise = double (
        if contains key object_options
        then storage.to_double (qt.double_literal 0) (value_at key object_options)
        else qt.double_literal otherwise)

    unfoldable pub write_number : Entries Double → Entries Double
    write_number json = copy_text "unit" "unit" object_options (
        put "step" (double_of "step" 1)
          (put "maxValue" (double_of "max" 0) (put "minValue" (double_of "min" 0) json)))

    -- The chain of tests on the type.
    unfoldable pub write_typed : Text → Entries Double → Entries Double
    write_typed type json =
        if text_eq type "binary_sensor"
        then put "deviceClass" (text (text_at "class" object_options)) json
        else if text_eq type "sensor" || text_eq type "text_sensor"
        then write_sensor json
        else if text_eq type "light"
        then write_light json
        else if text_eq type "select"
        then put "options" (text (join newline (to_texts (value_at "enum" object_options)))) json
        else if text_eq type "number"
        then write_number json
        else json

    abbrev pub stored_title : Text
    stored_title = text_at "title" object_options

  -- A title of its own.
  abbrev pub is_titled : Entries Double → Text → Bool
  is_titled options object_id =
      not (is_empty (stored_title options object_id))
      && not (text_eq (stored_title options object_id) object_id)

  -- What the object of an endpoint has for each type.
  unfoldable pub basic_entity : Entries Double → Endpoint Double → Entries Double
  basic_entity options ep =
      let keyed =
        put "objectId" (text ep.meta.object_id)
          (put "type" (text ep.meta.kind) (put "key" (storage.json_of_quint32 ep.meta.key) end)) in
      if is_titled options ep.meta.object_id
      then put "name" (text (stored_title options ep.meta.object_id)) keyed
      else keyed

  -- The object of an endpoint.
  unfoldable pub write_entity : Entries Double → Endpoint Double → Entries Double
  write_entity options ep =
      write_typed options ep.meta.object_id ep.meta.kind (basic_entity options ep)

  unfoldable pub write_entities : Entries Double → Map ℕ (Endpoint Double) → Variants Double
  write_entities options [] = nil
  write_entities options ((id, ep) ∷ endpoints) =
      cons (object (write_entity options ep)) (write_entities options endpoints)

  unfoldable pub write_slots : Map ℕ Text → Entries Double → Entries Double
  write_slots [] json = json
  write_slots ((number, name) ∷ slots) json =
      write_slots slots (put (qt.number number) (text name) json)

  -- The object of a device.
  unfoldable pub write_device : DeviceObject Double → Entries Double
  write_device d =
      let basic = put "esphomeVersion" (text d.esphome_version) (
        put "modelName" (text d.model_name) (
          put "manufacturerName" (text d.manufacturer_name) (
            put "lastSeen" (storage.json_of_qint64 d.last_seen) (
              put "cloud" (boolean d.cloud) (
                put "discovery" (boolean d.discovery) (
                  put "active" (boolean d.active) (
                    put "encryptionKey" (text (storage.to_base64 d.encryption_key)) (
                      put "port" (int d.port)
                        (put "host" (text d.host) (put "name" (text d.name) end)))))))))) in
      let full = put "specialSlots" (object (write_slots d.special_slots end)) (
        put "publishedEndpoints" (array (array_of_texts d.published_endpoints))
          (put "entities" (array (write_entities d.options d.endpoints)) basic)) in
      if not (is_empty d.parent_address)
      then put "parentAddress" (text d.parent_address) full
      else full

  unfoldable pub write_devices : (ℕ → DeviceObject Double) → List ℕ → Variants Double
  write_devices objects [] = nil
  write_devices objects (id ∷ ids) =
      cons (object (write_device (objects id))) (write_devices objects ids)

  unfoldable pub serialize : Store Double → Variants Double
  serialize store = write_devices store.objects store.listed
