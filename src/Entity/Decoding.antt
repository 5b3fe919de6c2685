-- ===== src/Entity/Decoding.antt =====
-- From the bytes of a ListEntities message to the entity: the message that a device encodes.
use homed_service_esphome.Prelude.{ℕ, ◌^◌, ◌<◌, ◌≡◌, List, [], ◌∷◌, ◌++◌, map, arith, Bytes, length}
use homed_service_esphome.Qt.{Qt}
use homed_service_esphome.MsgType
use homed_service_esphome.Proto.{ProtoField, done, decode}
use homed_service_esphome.Proto.Fields.{Item, varint_item, fixed32_item, bytes_item, field_of}
use homed_service_esphome.Proto.RoundTrip.{encode, decode-encode}
use homed_service_esphome.Entity.Info.{EntityInfo, no_info}
use homed_service_esphome.Entity.Sensors.{number_field}
use homed_service_esphome.Entity.{
  typed_field, entity_field, entity_type, entity_fields, process_entity_info,
}

-- What a device says of a number: the fields of ListEntitiesNumberResponse that the program reads.
pub record NumberEntity : Type 0 where
  pub key : ℕ
  pub name : Bytes
  pub icon : Bytes
  pub min_value : ℕ
  pub max_value : ℕ
  pub step : ℕ
  pub unit : Bytes
  pub device_id : ℕ

abbrev pub number_items : NumberEntity → List Item
number_items e =
    fixed32_item 2 e.key
    ∷ bytes_item 3 e.name
    ∷ bytes_item 5 e.icon
    ∷ fixed32_item 6 e.min_value
    ∷ fixed32_item 7 e.max_value
    ∷ fixed32_item 8 e.step
    ∷ bytes_item 11 e.unit
    ∷ varint_item 14 e.device_id
    ∷ []

pub record IsNumberEntity (e : NumberEntity) : Type 0 where
  pub key_set : 0 < e.key
  pub key_fits : e.key < 2 ^ 32
  pub min_fits : e.min_value < 2 ^ 32
  pub max_fits : e.max_value < 2 ^ 32
  pub step_fits : e.step < 2 ^ 32
  pub device_fits : e.device_id < 2 ^ 32

abbrev pub number_info : Qt → NumberEntity → EntityInfo
number_info qt e = record no_info {
  key = e.key;
  kind = "number";
  name = qt.from_utf8 e.name;
  icon = qt.from_utf8 e.icon;
  min_value = e.min_value;
  max_value = e.max_value;
  step = e.step;
  unit = qt.from_utf8 e.unit;
  device_id = e.device_id;
}

process_number_fields :
    (qt : Qt) (e : NumberEntity) (pending : List EntityInfo)
    → IsNumberEntity e
    → process_entity_info qt MsgType.list_entities_number (map field_of (number_items e)) pending
      ≡ pending ++ (number_info qt e ∷ [])
unfolding process_entity_info entity_fields entity_field typed_field number_field entity_type
    field_of
process_number_fields qt e pending v = ground arith

-- A number with a key that is not 0, and whose values fit their types, is encoded by a device to a
-- message below 2 ^ 31 bytes. Then decoding the message ends, and processing its fields appends
-- just the device's number to the pending entities.
pub process-number_items :
    (qt : Qt) (e : NumberEntity) (pending : List EntityInfo)
    → IsNumberEntity e
    → length (encode (number_items e)) < 2 ^ 31
    → (fields : List ProtoField) × (decode (encode (number_items e)) ≡ done fields)
      × (process_entity_info qt MsgType.list_entities_number fields pending
          ≡ pending ++ (number_info qt e ∷ []))
process-number_items qt e pending v small = (
  map field_of (number_items e),
  decode-encode (number_items e) (omega arith) small,
  process_number_fields qt e pending v,
)
