-- ===== src/Controller/Slots.antt =====
-- The constructor, quit, mqttConnected, and the slots that the connections' signals reach.
use homed_service_esphome.Prelude.{ℕ, Bool, true, false, List, [], ◌∷◌, if◌then◌else◌}
use homed_service_esphome.Device.{Store, Availability, online}
use homed_service_esphome.Connection.Session.{Platform}
use homed_service_esphome.Manager.{new_manager, connect_all}
use homed_service_esphome.Controller.Homed.{
  Homed, Control, publish_discovery, publish_service, subscribe, write_database, put_out, device_of,
  listed_of,
}
use homed_service_esphome.Controller.Topics
use homed_service_esphome.Controller.Publishing
use homed_service_esphome.Controller.Commands

module _ (p : Platform) (homed : Homed p.qt) where
  -- The constructor; `store` is what DeviceList::init reads.
  unfoldable pub new_control : Store p.qt.Double → Control p
  new_control store = record {
    manager = connect_all p (new_manager p store);
    output = [];
    properties_timer = false;
    database_timer = false;
    mqtt_status = false;
  }

  -- The manager and its connections are deleted, and the database is written at once.
  unfoldable pub quit : Control p → Control p
  quit s =
      put_out write_database
        (record s { manager = record s.manager { connections = [] }; database_timer = false })

  unfoldable pub publish_all : List ℕ → Control p → Control p
  publish_all [] s = s
  publish_all (id ∷ ids) s =
      let s' = Publishing.clear_stale_topics p homed id s in
      publish_all ids (Publishing.publish_exposes p homed (device_of id s') false s')

  unfoldable pub publish_statuses : List ℕ → Control p → Control p
  publish_statuses [] s = s
  publish_statuses (id ∷ ids) s =
      publish_statuses ids (Publishing.publish_device_status p homed (device_of id s) s)

  unfoldable pub greet_ha : Control p → Control p
  greet_ha s =
      if homed.ha_enabled
      then put_out (subscribe homed.ha_status)
          (put_out (publish_discovery "ESPHome" homed.version homed.ha_prefix) s)
      else s

  unfoldable pub mqtt_connected : Control p → Control p
  mqtt_connected s =
      let subscribed =
        put_out (subscribe (Topics.topic_of p.qt homed "td" "#"))
          (put_out (subscribe (Topics.service_kind p.qt homed "command")) s) in
      let greeted = greet_ha (publish_all (listed_of s) subscribed) in
      Publishing.publish_service_status p homed
        (put_out publish_service (publish_statuses (listed_of s) greeted))

  unfoldable pub entities_discovered : ℕ → Control p → Control p
  entities_discovered id s =
      let cleared = Publishing.clear_stale_topics p homed id (Commands.store_devices p homed s) in
      let exposed = Publishing.publish_exposes p homed (device_of id cleared) false cleared in
      Commands.publish_event p homed "updated" (device_of id s).name (
        Publishing.publish_service_status p homed
          (Publishing.publish_device_status p homed (device_of id exposed) exposed))

  unfoldable pub state_changed : (id endpoint_id : ℕ) → Control p → Control p
  state_changed id endpoint_id s = Publishing.publish_device_state p homed (device_of id s) s

  abbrev is_online : Availability → Bool
  is_online online = true
  is_online _ = false

  unfoldable pub availability_changed : ℕ → Control p → Control p
  availability_changed id s =
      let s' = Publishing.publish_device_status p homed (device_of id s) s in
      if is_online (device_of id s).availability then record s' { properties_timer = true } else s'

  -- The timeout of the timer of properties, a single-shot timer, which has stopped.
  unfoldable pub on_properties_timer : Control p → Control p
  on_properties_timer s = Commands.update_properties p homed (record s { properties_timer = false })

  -- The timeout of the database's timer.
  unfoldable pub on_database_timer : Control p → Control p
  on_database_timer s = put_out write_database (record s { database_timer = false })
