-- ===== src/Discovery.antt =====
-- esphome.cpp, EspHomeDevice::applyEntitiesToDevice: the object ids, the endpoint ids and the
-- endpoints and the options that a device gets from its entities.
pub mod CamelCase
pub mod Slots
pub mod Options
pub mod Fresh
pub mod Numbers
pub mod Distinct
pub mod Assigned
pub mod Kept
use homed_service_esphome.Prelude.{
  ℕ, ◌+◌, ◌^◌, ◌≤◌, Bool, true, false, not, ◌&&◌, ◌||◌, List, [], ◌∷◌, ◌++◌, Option, none, some,
  ltb, ◌==◌, if◌then◌else◌,
}
use homed_service_esphome.Prelude.Text.{Text, text_eq, is_empty}
use homed_service_esphome.Prelude.Maps.{Map, lookup, insert, text_key, nat_key}
use homed_service_esphome.Qt.{Qt}
use homed_service_esphome.Entity.Info.{EntityInfo}
use homed_service_esphome.Device.{EndpointMeta, Endpoint, DeviceObject}
use homed_service_esphome.Discovery.CamelCase.{camel_case, append_text}
use homed_service_esphome.Discovery.Options.{positive_int, describe}
use homed_service_esphome.Variant.{Entries, end}
use homed_service_esphome.Discovery.Slots.{is_special, endpoint_ids, slots_after}

unfoldable pub meta_of : EntityInfo → Text → EndpointMeta
meta_of info object_id = record {
  key = info.key;
  kind = info.kind;
  object_id = object_id;
  special = is_special info;
  round = if positive_int info.accuracy_decimals then some info.accuracy_decimals else none;
  icon = info.icon;
  title = if is_empty info.name then object_id else info.name;
  supports_position = text_eq info.kind "cover" && info.supports_position;
  climate_has_preset = text_eq info.kind "climate" && not (is_nil info.climate_presets);
  climate_has_fan_mode = text_eq info.kind "climate" && not (is_nil info.climate_fan_modes);
}
  where
    is_nil : List Text → Bool
    is_nil [] = true
    is_nil (t ∷ l) = false

-- The endpoints and the options of a device, as they grow.
pub record Built (Double : Type 0) : Type 0 where
  pub endpoints : Map ℕ (Endpoint Double)
  pub options : Entries Double

module _ (qt : Qt) where
  open qt use {Double}

  -- One round of the last loop over the entities: a fresh endpoint with an empty state.
  unfoldable pub build_endpoint : EntityInfo → Text → ℕ → Built Double → Built Double
  build_endpoint info object_id id built =
      let described = describe qt info object_id id built.options in
      record {
        endpoints =
            insert id
              (record { meta = meta_of info object_id; exposes = described.exposes; state = [] })
              built.endpoints;
        options = described.options;
      }

  unfoldable pub build_endpoints :
      List EntityInfo → List Text → List ℕ → Built Double → Built Double
  build_endpoints (info ∷ entities) (object_id ∷ object_ids) (id ∷ ids) built =
      build_endpoints entities object_ids ids (build_endpoint info object_id id built)
  build_endpoints _ _ _ built = built

  unfoldable pub apply_entities_to_device :
      List EntityInfo → DeviceObject Double → DeviceObject Double
  apply_entities_to_device entities device =
      let built =
        build_endpoints entities (CamelCase.object_ids qt [] entities)
          (endpoint_ids device.special_slots entities) (record { endpoints = []; options = end }) in
      record device {
        endpoints = built.endpoints;
        options = built.options;
        special_slots = slots_after device.special_slots entities;
      }
