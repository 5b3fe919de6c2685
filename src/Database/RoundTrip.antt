-- ===== src/Database/RoundTrip.antt =====
-- A device that is written to the database and read again.
use homed_service_esphome.Prelude.{
  ℕ, ◌^◌, ◌%◌, ◌<◌, ◌≡◌, refl, ap, ◌∙◌, true, false, [], some, Bytes, arith,
}
use homed_service_esphome.Prelude.Text.{is_empty}
use homed_service_esphome.Prelude.Maps.{lookup, nat_key, text_key}
use homed_service_esphome.Qt.{Qt}
use homed_service_esphome.Variant.{Variants, Entries, value_at, text_at, to_map, to_bool}
use homed_service_esphome.Device.{DeviceObject}
use homed_service_esphome.Database.Storage.{Storage, to_array}
use homed_service_esphome.Database.Slots.{IsFaithful, IsSlotMap, slots_of-write_slots}
use homed_service_esphome.Database.Reading
use homed_service_esphome.Database.DeviceFields.{
  texts_of-array, written, IsWritten, write_device-IsWritten, setup_endpoints-keeps,
}

module _ (qt : Qt) (storage : Storage qt) (base_device : DeviceObject qt.Double) where
  open qt use {Double}

  -- What a device is after a restart: all that the database holds but the endpoints and options.
  pub record IsRestored (d d' : DeviceObject Double) : Type 0 where
    pub name_kept : d'.name ≡ d.name
    pub host_kept : d'.host ≡ d.host
    pub port_kept : d'.port ≡ d.port
    pub key_kept : d'.encryption_key ≡ d.encryption_key
    pub active_kept : d'.active ≡ d.active
    pub discovery_kept : d'.discovery ≡ d.discovery
    pub cloud_kept : d'.cloud ≡ d.cloud
    pub seen_kept : d'.last_seen ≡ d.last_seen
    pub manufacturer_kept : d'.manufacturer_name ≡ d.manufacturer_name
    pub model_kept : d'.model_name ≡ d.model_name
    pub version_kept : d'.esphome_version ≡ d.esphome_version
    pub published_kept : d'.published_endpoints ≡ d.published_endpoints
    pub parent_kept : d'.parent_address ≡ d.parent_address
    pub slots_kept : (n : ℕ) → lookup n d'.special_slots ≡ lookup n d.special_slots

  abbrev read_port : Entries Double → ℕ
  read_port json = storage.to_int 6053 (value_at "port" json) % 2 ^ 16

  abbrev read_key : Entries Double → Bytes
  read_key json = storage.from_base64 (text_at "encryptionKey" json)

  abbrev pub restored : Entries Double → DeviceObject Double
  restored json =
      Reading.parsed qt storage base_device (text_at "name" json) (text_at "host" json)
        (read_port json) (read_key json) json

  parsed-IsRestored :
      (d : DeviceObject Double) (json : Entries Double)
      → IsFaithful qt storage
      → IsWritten qt storage d json
      → d.port < 2 ^ 16
      → d.last_seen < 2 ^ 53
      → IsSlotMap d.special_slots
      → IsRestored d (restored json)
  unfolding Reading.parsed
  parsed-IsRestored d json laws w port_fits seen_fits slots = record {
    name_kept = w.name_eq;
    host_kept = w.host_eq;
    port_kept =
        ap (λ v. storage.to_int 6053 v % 2 ^ 16) w.port_eq
        ∙ (ap (λ n. n % 2 ^ 16) (laws.int_law 6053 d.port) ∙ omega (arith, port_fits));
    key_kept = ap storage.from_base64 w.key_eq ∙ laws.base64_law d.encryption_key;
    active_kept = ap (to_bool true) w.active_eq;
    discovery_kept = ap (to_bool true) w.discovery_eq;
    cloud_kept = ap (to_bool true) w.cloud_eq;
    seen_kept = ap storage.qint64_of_json w.seen_eq ∙ laws.seconds_law d.last_seen seen_fits;
    manufacturer_kept = w.manufacturer_eq;
    model_kept = w.model_eq;
    version_kept = w.version_eq;
    published_kept =
        ap (λ v. Reading.texts_of qt storage (to_array v)) w.published_eq
        ∙ texts_of-array qt storage d.published_endpoints;
    parent_kept = w.parent_eq;
    slots_kept = λ n.
        ap (λ v. lookup n (Reading.slots_of qt storage (to_map v) [])) w.slots_eq
        ∙ slots_of-write_slots qt storage laws d.special_slots slots n;
  }

  parse-some :
      (d : DeviceObject Double) (json : Entries Double)
      → IsFaithful qt storage
      → IsWritten qt storage d json
      → is_empty d.name ≡ false
      → is_empty d.host ≡ false
      → Reading.no_bytes d.encryption_key ≡ false
      → Reading.parse qt storage base_device json
        ≡ some (
            Reading.setup_endpoints qt storage
              (to_array (value_at "entities" json))
              (restored json))
  unfolding Reading.parse
  parse-some d json laws w named hosted keyed =
      let has_name : is_empty (text_at "name" json) ≡ false = rw w.name_eq named in
      let has_host : is_empty (text_at "host" json) ≡ false = rw w.host_eq hosted in
      let key_eq : read_key json ≡ d.encryption_key =
        ap storage.from_base64 w.key_eq ∙ laws.base64_law d.encryption_key in
      let has_key : Reading.no_bytes (read_key json) ≡ false = rw key_eq keyed in
      rw (Reading.parse, has_name, has_host, has_key) refl

  set_up-IsRestored :
      (d d' : DeviceObject Double) (entities : Variants Double)
      → IsRestored d d'
      → IsRestored d (Reading.setup_endpoints qt storage entities d')
  set_up-IsRestored d d' entities r = record {
    name_kept =
        setup_endpoints-keeps qt storage (λ e. e.name) (λ e o m. refl) entities d' ∙ r.name_kept;
    host_kept =
        setup_endpoints-keeps qt storage (λ e. e.host) (λ e o m. refl) entities d' ∙ r.host_kept;
    port_kept =
        setup_endpoints-keeps qt storage (λ e. e.port) (λ e o m. refl) entities d' ∙ r.port_kept;
    key_kept =
        setup_endpoints-keeps qt storage (λ e. e.encryption_key) (λ e o m. refl) entities d'
        ∙ r.key_kept;
    active_kept =
        setup_endpoints-keeps qt storage (λ e. e.active) (λ e o m. refl) entities d'
        ∙ r.active_kept;
    discovery_kept =
        setup_endpoints-keeps qt storage (λ e. e.discovery) (λ e o m. refl) entities d'
        ∙ r.discovery_kept;
    cloud_kept =
        setup_endpoints-keeps qt storage (λ e. e.cloud) (λ e o m. refl) entities d' ∙ r.cloud_kept;
    seen_kept =
        setup_endpoints-keeps qt storage (λ e. e.last_seen) (λ e o m. refl) entities d'
        ∙ r.seen_kept;
    manufacturer_kept =
        setup_endpoints-keeps qt storage (λ e. e.manufacturer_name) (λ e o m. refl) entities d'
        ∙ r.manufacturer_kept;
    model_kept =
        setup_endpoints-keeps qt storage (λ e. e.model_name) (λ e o m. refl) entities d'
        ∙ r.model_kept;
    version_kept =
        setup_endpoints-keeps qt storage (λ e. e.esphome_version) (λ e o m. refl) entities d'
        ∙ r.version_kept;
    published_kept =
        setup_endpoints-keeps qt storage (λ e. e.published_endpoints) (λ e o m. refl) entities d'
        ∙ r.published_kept;
    parent_kept =
        setup_endpoints-keeps qt storage (λ e. e.parent_address) (λ e o m. refl) entities d'
        ∙ r.parent_kept;
    slots_kept = λ n.
        setup_endpoints-keeps qt storage (λ e. lookup n e.special_slots) (λ e o m. refl) entities d'
        ∙ r.slots_kept n;
  }

  -- Let the conversions be faithful, let name, host and key not be empty, let the port and the
  -- time fit their types, and let each number stand once in the slots. Then a device that serialize
  -- writes, parse reads, and it has the same name, host, port, key, flags, time, descriptions,
  -- published endpoints and parent, and the same names for its numbers: IsRestored.
  pub parse-write_device :
      (d : DeviceObject Double)
      → IsFaithful qt storage
      → is_empty d.name ≡ false
      → is_empty d.host ≡ false
      → Reading.no_bytes d.encryption_key ≡ false
      → d.port < 2 ^ 16
      → d.last_seen < 2 ^ 53
      → IsSlotMap d.special_slots
      → (d' : DeviceObject Double) × ((Reading.parse qt storage base_device (written qt storage d)
            ≡ some d')
          × IsRestored d d')
  parse-write_device d laws named hosted keyed port_fits seen_fits slots =
      let w : IsWritten qt storage d (written qt storage d) = write_device-IsWritten qt storage d in
      (
        Reading.setup_endpoints qt storage (to_array (value_at "entities" (written qt storage d)))
            (restored (written qt storage d)),
        (
          parse-some d (written qt storage d) laws w named hosted keyed,
          set_up-IsRestored d (restored (written qt storage d))
              (to_array (value_at "entities" (written qt storage d)))
              (parsed-IsRestored d (written qt storage d) laws w port_fits seen_fits slots),
        ),
      )
