-- ===== src/Device.antt =====
-- device.h: DeviceObject and EndpointObject, as far as the connection reads and writes them.
-- A shared object (a QSharedPointer) is a number, and the Store says what the object holds.
use homed_service_esphome.Prelude.{
  ℕ, Bool, List, [], ◌∷◌, Option, none, some, Bytes, ◌==◌, ◌++◌, ◌+◌, if◌then◌else◌,
}
use homed_service_esphome.Prelude.Text.{Text, text_eq}
use homed_service_esphome.Prelude.Maps.{Map}
use homed_service_esphome.Variant.{Entries}
use homed_service_esphome.Exposes.{Expose}

-- What the program puts into the state's QVariants. An int is its 32-bit pattern.
pub data Value (Double : Type 0) : Type 0 where
  bool_value : Bool → Value Double
  text_value : Text → Value Double
  int_value : ℕ → Value Double
  ulonglong_value : ℕ → Value Double
  double_value : Double → Value Double
  ints_value : List ℕ → Value Double

abbrev pub StateMap : Type 0 → Type 0
StateMap Double = Map Text (Value Double)

-- meta(): an absent flag reads as false, an absent text as the empty one.
pub record EndpointMeta : Type 0 where
  pub key : ℕ
  pub kind : Text
  pub object_id : Text
  pub special : Bool
  pub round : Option ℕ
  pub icon : Text
  pub title : Text
  pub supports_position : Bool
  pub climate_has_preset : Bool
  pub climate_has_fan_mode : Bool

pub record Endpoint (Double : Type 0) : Type 0 where
  pub meta : EndpointMeta
  pub exposes : List Expose
  pub state : StateMap Double

-- `unknown` stands for whatever the connection does not set.
pub data Availability : Type 0 where
  unknown online offline : Availability

pub record DeviceObject (Double : Type 0) : Type 0 where
  pub name : Text
  pub host : Text
  pub port : ℕ
  pub encryption_key : Bytes
  pub active : Bool
  pub discovery : Bool
  pub cloud : Bool
  pub availability : Availability
  pub last_seen : ℕ
  pub manufacturer_name : Text
  pub model_name : Text
  pub esphome_version : Text
  pub published_endpoints : List Text
  pub special_slots : Map ℕ Text
  pub parent_address : Text
  pub options : Entries Double
  pub endpoints : Map ℕ (Endpoint Double)

-- All device objects, those in the DeviceList in its order, and a number that is no object yet.
pub record Store (Double : Type 0) : Type 0 where
  pub objects : ℕ → DeviceObject Double
  pub listed : List ℕ
  pub fresh : ℕ

module _ {Double : Type 0} where
  -- A write through the pointer to the object `id`.
  unfoldable pub modify :
      ℕ → (DeviceObject Double → DeviceObject Double) → Store Double → Store Double
  modify id f store = record store {
    objects = λ j. if id == j then f (store.objects j) else store.objects j;
  }

  unfoldable pub find_host : (ℕ → DeviceObject Double) → Text → List ℕ → Option ℕ
  find_host objects host [] = none
  find_host objects host (id ∷ ids) =
      if text_eq (objects id).host host then some id else find_host objects host ids

  -- DeviceList::byHost
  unfoldable pub by_host : Text → Store Double → Option ℕ
  by_host host store = find_host store.objects host store.listed

  unfoldable pub find_name : (ℕ → DeviceObject Double) → Text → List ℕ → Option ℕ
  find_name objects name [] = none
  find_name objects name (id ∷ ids) =
      if text_eq (objects id).name name then some id else find_name objects name ids

  -- DeviceList::byName
  unfoldable pub by_name : Text → Store Double → Option ℕ
  by_name name store = find_name store.objects name store.listed

  -- `m_devices->append(Device(new DeviceObject(...)))`
  unfoldable pub append_device : DeviceObject Double → Store Double → Store Double
  append_device d store = record {
    objects = λ j. if store.fresh == j then d else store.objects j;
    listed = store.listed ++ (store.fresh ∷ []);
    fresh = store.fresh + 1;
  }
