-- ===== src/Database/DeviceFields.antt =====
-- What serialize writes of a device, under the names that parse reads, and what setupEndpoints leaves.
use homed_service_esphome.Prelude.{
  ℕ, ◌+◌, ◌≡◌, refl, sym, ap, ◌∙◌, ◌||◌, List, [], ◌∷◌, Bool-cases, if_keeps, inl, inr, ◌==◌,
}
use homed_service_esphome.Prelude.Text.{Text, is_empty}
use homed_service_esphome.Prelude.Maps.{Map, nat_key, text_key}
use homed_service_esphome.Qt.{Qt}
use homed_service_esphome.Variant.{
  Variants, nil, cons, Entries, end, boolean, int, object, array, put, find, value_at, text_at,
  to_map,
}
use homed_service_esphome.Device.{DeviceObject, Endpoint}
use homed_service_esphome.Database.Storage.{Storage, array_of_texts}
use homed_service_esphome.Database.Reading
use homed_service_esphome.Database.Writing

module _ (qt : Qt) (storage : Storage qt) where
  open qt use {Double}

  pub texts_of-array : (l : List Text) → Reading.texts_of qt storage (array_of_texts l) ≡ l
  unfolding Reading.texts_of
  texts_of-array [] = refl
  texts_of-array (t ∷ l) = ap (◌∷◌ t) (texts_of-array l)

  abbrev pub written : DeviceObject Double → Entries Double
  written d = Writing.write_device qt storage d

  -- What a device has in its object, by the names that parse reads.
  pub record IsWritten (d : DeviceObject Double) (json : Entries Double) : Type 0 where
    pub name_eq : text_at "name" json ≡ d.name
    pub host_eq : text_at "host" json ≡ d.host
    pub port_eq : value_at "port" json ≡ int d.port
    pub key_eq : text_at "encryptionKey" json ≡ storage.to_base64 d.encryption_key
    pub active_eq : value_at "active" json ≡ boolean d.active
    pub discovery_eq : value_at "discovery" json ≡ boolean d.discovery
    pub cloud_eq : value_at "cloud" json ≡ boolean d.cloud
    pub seen_eq : value_at "lastSeen" json ≡ storage.json_of_qint64 d.last_seen
    pub manufacturer_eq : text_at "manufacturerName" json ≡ d.manufacturer_name
    pub model_eq : text_at "modelName" json ≡ d.model_name
    pub version_eq : text_at "esphomeVersion" json ≡ d.esphome_version
    pub published_eq :
        value_at "publishedEndpoints" json ≡ array (array_of_texts d.published_endpoints)
    pub slots_eq :
        value_at "specialSlots" json ≡ object (Writing.write_slots qt storage d.special_slots end)
    pub entities_eq :
        value_at "entities" json ≡ array (Writing.write_entities qt storage d.options d.endpoints)
    pub parent_eq : text_at "parentAddress" json ≡ d.parent_address

  pub write_device-IsWritten : (d : DeviceObject Double) → IsWritten d (written d)
  unfolding Writing.write_device find put
  write_device-IsWritten d = elim (Bool-cases (is_empty d.parent_address)) [
    | inl e ↦
        rw (Writing.write_device, e)
          (record {
            name_eq = refl;
            host_eq = refl;
            port_eq = refl;
            key_eq = refl;
            active_eq = refl;
            discovery_eq = refl;
            cloud_eq = refl;
            seen_eq = refl;
            manufacturer_eq = refl;
            model_eq = refl;
            version_eq = refl;
            published_eq = refl;
            slots_eq = refl;
            entities_eq = refl;
            parent_eq = sym ((text_key.same_iff d.parent_address "").0 e);
          })
    | inr e ↦
        rw (Writing.write_device, e)
          (record {
            name_eq = refl;
            host_eq = refl;
            port_eq = refl;
            key_eq = refl;
            active_eq = refl;
            discovery_eq = refl;
            cloud_eq = refl;
            seen_eq = refl;
            manufacturer_eq = refl;
            model_eq = refl;
            version_eq = refl;
            published_eq = refl;
            slots_eq = refl;
            entities_eq = refl;
            parent_eq = refl;
          })
  ]

  -- setupEndpoints sets the options and the endpoints, and nothing else: what does not read these
  -- two stays as it is.
  module _ {A : Type 0} (read : DeviceObject Double → A)
      (blind : (d : DeviceObject Double) (options : Entries Double)
          (endpoints : Map ℕ (Endpoint Double))
        → read (record d { options = options; endpoints = endpoints }) ≡ read d) where
    set_up_entity-keeps :
        (i : ℕ) (json : Entries Double) (d : DeviceObject Double)
        → read (Reading.set_up_entity qt storage i json d) ≡ read d
    unfolding Reading.set_up_entity
    set_up_entity-keeps i json d =
        if_keeps (λ made. read made ≡ read d)
          (is_empty (text_at "type" json)
            || (is_empty (text_at "objectId" json)
                || storage.quint32_of_json (value_at "key" json) == 0))
          refl (blind d _ _)

    set_up_entities-keeps :
        (i : ℕ) (entities : Variants Double) (d : DeviceObject Double)
        → read (Reading.set_up_entities qt storage i entities d) ≡ read d
    unfolding Reading.set_up_entities
    set_up_entities-keeps i nil d = refl
    set_up_entities-keeps i (cons entity entities) d =
        set_up_entities-keeps (i + 1) entities
          (Reading.set_up_entity qt storage i (to_map entity) d)
        ∙ set_up_entity-keeps i (to_map entity) d

    pub setup_endpoints-keeps :
        (entities : Variants Double) (d : DeviceObject Double)
        → read (Reading.setup_endpoints qt storage entities d) ≡ read d
    unfolding Reading.setup_endpoints
    setup_endpoints-keeps entities d =
        set_up_entities-keeps 0 entities (record d { endpoints = [] }) ∙ blind d d.options []
