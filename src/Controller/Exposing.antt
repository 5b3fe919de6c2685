-- ===== src/Controller/Exposing.antt =====
-- The object that publishExposes publishes for a device.
use homed_service_esphome.Prelude.{
  ℕ, Bool, true, false, List, [], ◌∷◌, ◌++◌, ◌&&◌, not, map, if◌then◌else◌,
}
use homed_service_esphome.Prelude.Text.{Text, text_eq, is_empty}
use homed_service_esphome.Prelude.Maps.{Map}
use homed_service_esphome.Qt.{Qt}
use homed_service_esphome.Variant.{
  Variant, text, texts, array, nil, object, Entries, end, put, value_at, to_map, is_valid, is_end,
}
use homed_service_esphome.Exposes.{Expose}
use homed_service_esphome.Device.{DeviceObject, Endpoint}
use homed_service_esphome.Discovery.CamelCase.{append_text}
use homed_service_esphome.Controller.Homed.{Homed}

abbrev first_text : List Text → Text
first_text [] = ""
first_text (t ∷ l) = t

abbrev no_exposes : List Expose → Bool
no_exposes [] = true
no_exposes (e ∷ l) = false

-- `commonItems`, `commonOptions` and `data`.
pub record Exposed (Double : Type 0) : Type 0 where
  pub common_items : List Text
  pub common_options : Entries Double
  pub data_entries : Entries Double

module _ (qt : Qt) (homed : Homed qt) (d : DeviceObject qt.Double) where
  open qt use {Double}

  -- `options.insert(key, value)`, if the value is valid
  abbrev pub put_valid : Text → Variant Double → Entries Double → Entries Double
  put_valid key value options = if is_valid value then put key value options else options

  unfoldable pub light_options : Text → Entries Double → Entries Double
  light_options object_id options =
      let light = value_at (append_text object_id "_light") d.options in
      put_valid "colorTemperature" (value_at (append_text object_id "_colorTemperature") d.options)
        (put "light" (if is_valid light then light else array nil) options)

  abbrev pub climate_keys : List Text
  climate_keys =
      "systemMode" ∷ "operationMode" ∷ "fanMode" ∷ "targetTemperature" ∷ "runningStatus" ∷ []

  unfoldable pub climate_options : List Text → ℕ → Entries Double → Entries Double
  climate_options [] id options = options
  climate_options (key ∷ keys) id options = climate_options keys id (
      put_valid key (value_at (append_text key (append_text "_" (qt.number id))) d.options) options)

  abbrev icon_entry : Text → Entries Double → Entries Double
  icon_entry icon options = put "icon" (text icon) options

  unfoldable pub with_icon : Text → Text → Entries Double → Entries Double
  with_icon kind icon options =
      if not (is_empty icon) && (not (text_eq kind "climate") && not (text_eq kind "cover"))
      then put "status" (object (icon_entry icon end)) options
      else if not (is_empty icon) && text_eq kind "climate"
      then put "targetTemperature"
          (object (icon_entry icon (to_map (value_at "targetTemperature" options)))) options
      else options

  -- `options` of a special entity.
  unfoldable pub special_options : ℕ → Endpoint Double → Entries Double
  special_options id ep =
      let options = put "name" (text ep.meta.title) end in
      with_icon ep.meta.kind ep.meta.icon (
        if text_eq ep.meta.kind "light"
        then light_options ep.meta.object_id options
        else if text_eq ep.meta.kind "climate"
        then climate_options climate_keys id options
        else options)

  -- One round of the loop over the endpoints.
  unfoldable pub expose_endpoint : ℕ → Endpoint Double → Exposed Double → Exposed Double
  expose_endpoint id ep x =
      let items = map homed.expose_name ep.exposes in
      if no_exposes ep.exposes
      then x
      else if is_empty ep.meta.object_id
      then x
      else if ep.meta.special
      then record x {
        data_entries =
            put (qt.number id)
              (object
                (put "options" (object (special_options id ep)) (put "items" (texts items) end)))
              x.data_entries;
      }
      else record x {
        common_items = x.common_items ++ items;
        common_options =
            put_valid (first_text items) (value_at ep.meta.object_id d.options) x.common_options;
      }

  unfoldable pub expose_endpoints : Map ℕ (Endpoint Double) → Exposed Double → Exposed Double
  expose_endpoints [] x = x
  expose_endpoints ((id, ep) ∷ endpoints) x = expose_endpoints endpoints (expose_endpoint id ep x)

  abbrev nothing_exposed : Exposed Double
  nothing_exposed = record { common_items = []; common_options = end; data_entries = end }

  abbrev common_data : Exposed Double → Entries Double
  common_data x =
      let items = put "items" (texts x.common_items) end in
      if is_end x.common_options then items else put "options" (object x.common_options) items

  -- `data`, as it is published.
  unfoldable pub exposes_json : Entries Double
  exposes_json =
      let x = expose_endpoints d.endpoints nothing_exposed in
      put "common" (object (common_data x)) x.data_entries
