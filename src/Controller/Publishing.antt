-- ===== src/Controller/Publishing.antt =====
-- What the Controller publishes of a device: exposes, Home Assistant's discovery, status and state.
use homed_service_esphome.Prelude.{
  ℕ, zero, suc, ◌+◌, Bool, true, false, List, [], ◌∷◌, none, some, not, length, if◌then◌else◌,
}
use homed_service_esphome.Prelude.Text.{Text, is_empty}
use homed_service_esphome.Prelude.Maps.{Map, insert, text_key}
use homed_service_esphome.Variant.{
  Variants, boolean, text, int, array, nil, cons, object, Entries, end, entry, put, put_text,
}
use homed_service_esphome.Exposes.{Expose}
use homed_service_esphome.Device.{
  DeviceObject, Endpoint, StateMap, Availability, online, Store, by_host, modify,
}
use homed_service_esphome.Discovery.CamelCase.{append_text}
use homed_service_esphome.Connection.Session.{Platform, address}
use homed_service_esphome.Controller.Homed.{
  Homed, Control, publish, publish_status, put_out, device_of, listed_of,
}
use homed_service_esphome.Controller.Topics
use homed_service_esphome.Controller.Exposing.{exposes_json}

module _ (p : Platform) (homed : Homed p.qt) where
  open p use {qt}
  open qt use {Double}

  abbrev pub dev_topic : DeviceObject Double → Text
  dev_topic d = Topics.device_topic qt homed d

  abbrev pub mqtt_publish : Text → Entries Double → Bool → Control p → Control p
  mqtt_publish topic json retain s = put_out (publish topic json retain) s

  -- ==================== Home Assistant ====================

  -- `nodeId`
  unfoldable pub node_id : DeviceObject Double → Text
  node_id d = append_text homed.unique_id (append_text "_" (Topics.ha_safe_id qt (address qt d)))

  abbrev value_template : Text → Entries Double
  value_template topic =
      put "value_template" (text "{{ value_json.status }}") (put "topic" (text topic) end)

  abbrev identity : DeviceObject Double → Entries Double
  identity d =
      put "via_device" (text homed.unique_id)
        (put "name" (text d.name) (put "identifiers" (array (cons (text (node_id d)) nil)) end))

  abbrev availability_list : DeviceObject Double → Variants Double
  availability_list d =
      cons (object (value_template (Topics.topic_of qt homed "device" (dev_topic d))))
        (cons (object (value_template (Topics.service_kind qt homed "service"))) nil)

  -- The last segment, or segments, of the fd and td topics of an endpoint.
  abbrev pub endpoint_topic : DeviceObject Double → ℕ → Endpoint Double → Text
  endpoint_topic d id ep =
      if ep.meta.special then Topics.slashed (dev_topic d) (qt.number id) else dev_topic d

  unfoldable pub config_json : DeviceObject Double → ℕ → Endpoint Double → Expose → Entries Double
  config_json d id ep expose =
      let topic = endpoint_topic d id ep in
      put_text "icon" ep.meta.icon (
        put "unique_id" (text (append_text (node_id d) (append_text "_" ep.meta.object_id))) (
          put "name" (text (homed.expose_title d id expose)) (
            put "device" (object (identity d)) (
              put "availability_mode" (text "all") (
                put "availability" (array (availability_list d)) (
                  homed.expose_request d id expose (Topics.topic_of qt homed "fd" topic)
                    (Topics.topic_of qt homed "td" topic)))))))

  abbrev pub config_topic : DeviceObject Double → ℕ → Endpoint Double → Expose → Text
  config_topic d id ep expose = Topics.slashed homed.ha_prefix (
      Topics.slashed (homed.expose_component d id expose)
        (Topics.slashed (node_id d) (Topics.slashed ep.meta.object_id "config")))

  unfoldable pub discover_exposes :
      DeviceObject Double → ℕ → Endpoint Double → Bool → List Expose → Control p → Control p
  discover_exposes d id ep removed [] s = s
  discover_exposes d id ep removed (expose ∷ exposes) s = discover_exposes d id ep removed exposes (
      if not (homed.expose_discovery expose)
      then s
      else mqtt_publish (config_topic d id ep expose)
          (if removed then end else config_json d id ep expose) true s)

  unfoldable pub discover_endpoints :
      DeviceObject Double → Bool → Map ℕ (Endpoint Double) → Control p → Control p
  discover_endpoints d removed [] s = s
  discover_endpoints d removed ((id, ep) ∷ endpoints) s =
      discover_endpoints d removed endpoints
        (if is_empty ep.meta.object_id then s else discover_exposes d id ep removed ep.exposes s)

  unfoldable pub publish_ha_discovery : DeviceObject Double → Bool → Control p → Control p
  publish_ha_discovery d removed s = discover_endpoints d removed d.endpoints s

  -- ==================== Exposes ====================

  unfoldable pub publish_exposes : DeviceObject Double → Bool → Control p → Control p
  publish_exposes d removed s =
      let s' = if homed.ha_enabled then publish_ha_discovery d removed s else s in
      let topic = Topics.topic_of qt homed "expose" (dev_topic d) in
      if not removed
      then record (mqtt_publish topic (exposes_json qt homed d) true s') { properties_timer = true }
      else mqtt_publish topic end true s'

  unfoldable pub clear_numbered : DeviceObject Double → (count from : ℕ) → Control p → Control p
  clear_numbered d zero from s = s
  clear_numbered d (suc count) from s =
      clear_numbered d count (from + 1)
        (mqtt_publish (Topics.numbered_topic qt homed d from) end true s)

  unfoldable pub clear_keys : DeviceObject Double → List Text → Control p → Control p
  clear_keys d [] s = s
  clear_keys d (key ∷ keys) s =
      clear_keys d keys
        (mqtt_publish (Topics.topic_of qt homed "fd" (Topics.slashed (dev_topic d) key)) end true s)

  abbrev pub update_object : ℕ → (DeviceObject Double → DeviceObject Double) → Control p → Control p
  update_object id f s = record s {
    manager = record s.manager { store = modify id f s.manager.store };
  }

  unfoldable pub clear_stale_topics : ℕ → Control p → Control p
  clear_stale_topics id s =
      let d = device_of id s in
      elim d.published_endpoints [
        | [] ↦ clear_numbered d (length d.endpoints) 1 s
        | key ∷ keys ↦
            update_object id (λ e. record e { published_endpoints = [] })
              (clear_keys d (key ∷ keys) s)
      ]

  -- ==================== Status ====================

  -- `subdeviceOf`
  abbrev parent_name : Store Double → Text → Text
  parent_name store parent = elim (by_host parent store) [
    | none ↦ parent
    | some id ↦ (store.objects id).name
  ]

  unfoldable pub status_json : Store Double → DeviceObject Double → Entries Double
  status_json store d =
      let json = put "cloud" (boolean d.cloud) (
        put "discovery" (boolean d.discovery) (
          put "active" (boolean d.active) (
            put "lastSeen" (homed.json_of_qint64 d.last_seen) (
              put "esphomeVersion" (text d.esphome_version) (
                put "modelName" (text d.model_name) (
                  put "manufacturerName" (text d.manufacturer_name) (
                    put "port" (int d.port) (
                      put "host" (text d.host)
                        (put "id" (text (address qt d)) (put "name" (text d.name) end)))))))))) in
      if not (is_empty d.parent_address)
      then put "subdeviceOf" (text (parent_name store d.parent_address)) json
      else json

  unfoldable pub status_list : Store Double → List ℕ → Variants Double
  status_list store [] = nil
  status_list store (id ∷ ids) =
      cons (object (status_json store (store.objects id))) (status_list store ids)

  unfoldable pub publish_service_status : Control p → Control p
  publish_service_status s =
      put_out
        (publish_status (
          put "version" (text homed.version) (
            put "names" (boolean homed.names) (
              put "devices" (array (status_list s.manager.store (listed_of s)))
                (put "status" (text "online") end)))))
        s

  abbrev status_text : Availability → Text
  status_text online = "online"
  status_text _ = "offline"

  unfoldable pub publish_device_status : DeviceObject Double → Control p → Control p
  publish_device_status d s =
      mqtt_publish (Topics.topic_of qt homed "device" (dev_topic d))
        (put "status" (text (status_text d.availability))
          (put "lastSeen" (homed.json_of_qint64 d.last_seen) end))
        true s

  -- ==================== State ====================

  -- `QJsonObject::fromVariantMap` of a state.
  unfoldable pub state_json : StateMap Double → Entries Double
  state_json [] = end
  state_json ((key, value) ∷ state) = entry key (homed.json_value value) (state_json state)

  unfoldable pub insert_all : StateMap Double → StateMap Double → StateMap Double
  insert_all [] common = common
  insert_all ((key, value) ∷ state) common = insert_all state (insert key value common)

  -- The loop, with `commonState` and `hasCommonState`, and the message that follows it.
  unfoldable pub publish_states :
      DeviceObject Double → Map ℕ (Endpoint Double) → StateMap Double → Bool → Control p → Control p
  publish_states d [] common has_common s =
      if has_common
      then mqtt_publish (Topics.topic_of qt homed "fd" (dev_topic d)) (state_json common) false s
      else s
  publish_states d ((id, ep) ∷ endpoints) common has_common s = elim ep.state [
    | [] ↦ publish_states d endpoints common has_common s
    | value ∷ state ↦
        if ep.meta.special
        then publish_states d endpoints common has_common
            (mqtt_publish (Topics.numbered_topic qt homed d id) (state_json ep.state) false s)
        else publish_states d endpoints (insert_all ep.state common) true s
  ]

  unfoldable pub publish_device_state : DeviceObject Double → Control p → Control p
  publish_device_state d s =
      if not s.mqtt_status then s else publish_states d d.endpoints [] false s
