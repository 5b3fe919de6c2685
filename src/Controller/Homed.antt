-- ===== src/Controller/Homed.antt =====
-- What the Controller uses of homed-common and of Qt's JSON, which the repository does not contain,
-- and the Controller's state. The settings of the configuration file are here too.
use homed_service_esphome.Prelude.{ℕ, Bool, List, [], ◌∷◌, ◌++◌, Option, Bytes}
use homed_service_esphome.Prelude.Text.{Text}
use homed_service_esphome.Qt.{Qt}
use homed_service_esphome.Variant.{Variant, Entries}
use homed_service_esphome.Exposes.{Expose}
use homed_service_esphome.Device.{DeviceObject, Value}
use homed_service_esphome.Command.{Argument}
use homed_service_esphome.Connection.Session.{Platform}
use homed_service_esphome.Manager.{Manager}

pub record Homed (qt : Qt) : Type 1 where
  -- mqttTopic(), serviceTopic(), uniqueId(), SERVICE_VERSION and the settings
  pub mqtt_topic : Text → Text
  pub service_topic : Text
  pub unique_id : Text
  pub version : Text
  pub names : Bool
  pub ha_enabled : Bool
  pub ha_prefix : Text
  pub ha_status : Text
  -- ExposeObject: name(), and what depends on the device and the endpoint; request() also reads the
  -- two topics that were set.
  pub expose_name : Expose → Text
  pub expose_discovery : Expose → Bool
  pub expose_component : DeviceObject qt.Double → ℕ → Expose → Text
  pub expose_title : DeviceObject qt.Double → ℕ → Expose → Text
  pub expose_request :
      DeviceObject qt.Double → ℕ → Expose → (state_topic command_topic : Text) → Entries qt.Double
  -- The key that QMetaEnum::keyToValue looks for: without the scope of the enum, if it has that.
  pub enum_key : Text → Text
  -- QJsonDocument::fromJson(...).object(), fromBase64 of a text, toInt with its default, toUInt,
  -- QJsonValue(qint64), the QJsonValue of a state's QVariant, and the QVariant of a QJsonValue, if valid.
  pub from_json : Bytes → Entries qt.Double
  pub from_base64 : Text → Bytes
  pub to_int : ℕ → Variant qt.Double → ℕ
  pub to_uint : Text → Option ℕ
  pub json_of_qint64 : ℕ → Variant qt.Double
  pub json_value : Value qt.Double → Variant qt.Double
  pub argument : Variant qt.Double → Option Argument

-- mqttPublish with its topic, object and retain flag, the other calls of homed-common, the exit with
-- EXIT_RESTART, and writeDatabase().
pub data Output (Double : Type 0) : Type 0 where
  publish : Text → Entries Double → Bool → Output Double
  publish_status : Entries Double → Output Double
  publish_discovery : (name version prefix : Text) → Output Double
  publish_service : Output Double
  subscribe : Text → Output Double
  restart : Output Double
  write_database : Output Double

-- The two single-shot timers run or do not. `mqtt_status`: homed-common is connected to the broker.
pub record Control (p : Platform) : Type 0 where
  pub manager : Manager p
  pub output : List (Output p.qt.Double)
  pub properties_timer : Bool
  pub database_timer : Bool
  pub mqtt_status : Bool

module _ {p : Platform} where
  abbrev pub put_out : Output p.qt.Double → Control p → Control p
  put_out o s = record s { output = s.output ++ (o ∷ []) }

  abbrev pub device_of : ℕ → Control p → DeviceObject p.qt.Double
  device_of id s = s.manager.store.objects id

  abbrev pub listed_of : Control p → List ℕ
  listed_of s = s.manager.store.listed
