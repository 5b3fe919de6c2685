-- ===== src/Controller/Commands.antt =====
-- The service's own commands, which mqttReceived takes.
use homed_service_esphome.Prelude.{
  ℕ, zero, suc, ◌^◌, ◌%◌, true, false, List, [], ◌∷◌, Option, none, some, Bytes, length, ◌==◌, not,
  ◌||◌, if◌then◌else◌,
}
use homed_service_esphome.Prelude.Text.{Text, text_eq, is_empty}
use homed_service_esphome.Variant.{text, Entries, end, put, text_at, value_at, contains, to_bool}
use homed_service_esphome.Device.{DeviceObject, Store, by_host, by_name, append_device}
use homed_service_esphome.Connection.Session.{Platform, address}
use homed_service_esphome.Manager.{connect_device, disconnect_device}
use homed_service_esphome.Controller.Homed.{Homed, Control, restart, put_out, device_of, listed_of}
use homed_service_esphome.Controller.Topics
use homed_service_esphome.Controller.Publishing

-- `QList::at`, with `none` out of range, removeAt, and the position of an object, as `indexOf` finds it.
unfoldable pub id_at : ℕ → List ℕ → Option ℕ
id_at n [] = none
id_at zero (id ∷ ids) = some id
id_at (suc n) (id ∷ ids) = id_at n ids

unfoldable pub remove_at : ℕ → List ℕ → List ℕ
remove_at n [] = []
remove_at zero (id ∷ ids) = ids
remove_at (suc n) (id ∷ ids) = id ∷ remove_at n ids

unfoldable pub position : ℕ → List ℕ → Option ℕ
position id [] = none
position id (j ∷ ids) =
    let rest = position id ids in
    if j == id then some 0 else elim rest [ none ↦ none | some n ↦ some (suc n) ]

module _ (p : Platform) (homed : Homed p.qt) where
  open p use {qt, base_device}
  open qt use {Double}

  -- `m_devices->byName(id)`, and byHost if that is null
  unfoldable pub device_named : Text → Store Double → Option ℕ
  device_named id store = elim (by_name id store) [
    | none ↦ by_host id store
    | some found ↦ some found
  ]

  abbrev pub with_store : (Store Double → Store Double) → Control p → Control p
  with_store f s = record s { manager = record s.manager { store = f s.manager.store } }

  -- DeviceList::store
  abbrev pub store_devices : Control p → Control p
  store_devices s = record s { database_timer = true }

  -- `{{"event", event}, {"device", name}}` on the topic of events
  abbrev pub publish_event : Text → Text → Control p → Control p
  publish_event event name s =
      Publishing.mqtt_publish p homed (Topics.service_kind qt homed "event")
        (put "device" (text name) (put "event" (text event) end)) false s

  -- ==================== addDevice ====================

  unfoldable pub new_device : Text → Text → ℕ → Bytes → Entries Double → DeviceObject Double
  new_device name host port key_bytes json = record base_device {
    name = name;
    host = host;
    port = port;
    encryption_key = key_bytes;
    last_seen = 0;
    esphome_version = "";
    published_endpoints = [];
    special_slots = [];
    parent_address = "";
    discovery = to_bool true (value_at "discovery" json);
    cloud = to_bool true (value_at "cloud" json);
  }

  unfoldable pub add_checked : Text → ℕ → Text → Bytes → Entries Double → Control p → Control p
  add_checked host port name key_bytes json s =
      let id = s.manager.store.fresh in
      let added =
        store_devices (with_store (append_device (new_device name host port key_bytes json)) s) in
      let connected = record added { manager = connect_device p id added.manager } in
      publish_event "added" name (Publishing.publish_service_status p homed connected)

  -- The test whether the host has a device already, and what follows it.
  unfoldable pub add_unknown : Text → ℕ → Text → Bytes → Entries Double → Control p → Control p
  add_unknown host port name key_bytes json s = elim (by_host host s.manager.store) [
    | some id ↦ s
    | none ↦
        add_checked host port (if is_empty name then qt.mqtt_safe host else name) key_bytes json s
  ]

  unfoldable pub add_device : Entries Double → Control p → Control p
  add_device json s =
      let host = text_at "host" json in
      let port = homed.to_int 6053 (value_at "port" json) % 2 ^ 16 in
      let key = text_at "key" json in
      let name = qt.mqtt_safe (text_at "name" json) in
      let key_bytes = homed.from_base64 key in
      if is_empty host || is_empty key
      then s
      else if not (length key_bytes == 32)
      then s
      else add_unknown host port name key_bytes json s

  -- ==================== removeDevice ====================

  -- `publishExposes(device, true)`, and the empty status
  unfoldable pub retract : DeviceObject Double → Control p → Control p
  retract d s =
      Publishing.mqtt_publish p homed
        (Topics.topic_of qt homed "device" (Topics.device_topic qt homed d)) end true
        (Publishing.publish_exposes p homed d true s)

  -- `m_devices->removeAt(i)`
  unfoldable pub unlist_at : ℕ → Control p → Control p
  unlist_at i s = with_store (λ store. record store { listed = remove_at i store.listed }) s

  unfoldable pub remove_sub : ℕ → ℕ → Control p → Control p
  remove_sub i sub s =
      publish_event "removed" (device_of sub s).name (unlist_at i (retract (device_of sub s) s))

  -- One round of the loop for the sub-devices of the object `id`.
  unfoldable pub remove_sub_at : ℕ → ℕ → Control p → Control p
  remove_sub_at id i s = elim (id_at i (listed_of s)) [
    | none ↦ s
    | some sub ↦
        if sub == id || not (text_eq (device_of sub s).parent_address (address qt (device_of id s)))
        then s
        else remove_sub i sub s
  ]

  -- The loop, for the indices below `count`, from the last one down. It removes no device that it
  -- has not reached, so an index is always in range.
  unfoldable pub remove_subs : ℕ → ℕ → Control p → Control p
  remove_subs id zero s = s
  remove_subs id (suc i) s = remove_subs id i (remove_sub_at id i s)

  unfoldable pub disconnect : ℕ → Control p → Control p
  disconnect id s = record s { manager = disconnect_device p id s.manager }

  -- The device itself. It is in the list, so it has an index.
  unfoldable pub remove_found : ℕ → Control p → Control p
  remove_found id s =
      let index = position id (listed_of s) in
      let retracted = retract (device_of id s) (disconnect id s) in
      let unlisted : Control p = elim index [ none ↦ retracted | some i ↦ unlist_at i retracted ] in
      publish_event "removed" (device_of id s).name
        (Publishing.publish_service_status p homed (store_devices unlisted))

  unfoldable pub remove_device : Entries Double → Control p → Control p
  remove_device json s = elim (device_named (text_at "device" json) s.manager.store) [
    | none ↦ s
    | some id ↦ remove_found id (remove_subs id (length (listed_of s)) s)
  ]

  -- ==================== updateDevice ====================

  unfoldable pub updated : Entries Double → DeviceObject Double → DeviceObject Double
  updated json d = record d {
    name = if contains "name" json then qt.mqtt_safe (text_at "name" json) else d.name;
    active = if contains "active" json then to_bool false (value_at "active" json) else d.active;
    discovery =
        if contains "discovery" json
        then to_bool false (value_at "discovery" json)
        else d.discovery;
    cloud = if contains "cloud" json then to_bool false (value_at "cloud" json) else d.cloud;
  }

  unfoldable pub update_device : Entries Double → Control p → Control p
  update_device json s = elim (device_named (text_at "device" json) s.manager.store) [
    | none ↦ s
    | some id ↦
        let s' = store_devices (Publishing.update_object p homed id (updated json) s) in
        Publishing.publish_service_status p homed
          (Publishing.publish_exposes p homed (device_of id s') false s')
  ]

  -- ==================== getProperties ====================

  unfoldable pub update_listed : List ℕ → Control p → Control p
  update_listed [] s = s
  update_listed (id ∷ ids) s = update_listed ids (
      if not (device_of id s).active
      then s
      else Publishing.publish_device_state p homed (device_of id s) s)

  unfoldable pub update_properties : Control p → Control p
  update_properties s = update_listed (listed_of s) s

  unfoldable pub get_properties : Entries Double → Control p → Control p
  get_properties json s = elim (device_named (text_at "device" json) s.manager.store) [
    | none ↦ s
    | some id ↦ update_properties s
  ]

  -- ==================== The topics ====================

  unfoldable pub restart_service : Text → Control p → Control p
  restart_service topic s = put_out restart (Publishing.mqtt_publish p homed topic end true s)

  -- The switch; an unknown action does nothing. keyToValue takes a key with or without its scope.
  unfoldable pub service_command : Text → Entries Double → Control p → Control p
  service_command topic json s =
      let action = homed.enum_key (text_at "action" json) in
      if text_eq action "restartService"
      then restart_service topic s
      else if text_eq action "addDevice"
      then add_device json s
      else if text_eq action "removeDevice"
      then remove_device json s
      else if text_eq action "updateDevice"
      then update_device json s
      else if text_eq action "getProperties"
      then get_properties json s
      else s
