-- ===== src/Controller/SoundMessages.antt =====
-- What every message to the Controller keeps.
use homed_service_esphome.Prelude.{
  ℕ, refl, false, List, Bytes, not, Option-cases, inl, inr, ◌==◌, if_keeps,
}
use homed_service_esphome.Prelude.Text.{Text, text_eq}
use homed_service_esphome.Variant.{Variant, Entries, end, entry, text_at}
use homed_service_esphome.Connection.Session.{Platform}
use homed_service_esphome.Controller.Homed.{Homed, Control, device_of}
use homed_service_esphome.Controller.Topics
use homed_service_esphome.Controller.Publishing
use homed_service_esphome.Controller.Commands
use homed_service_esphome.Controller.Received
use homed_service_esphome.Controller.Quiet.{publish_exposes-manager, update_properties-manager}
use homed_service_esphome.Controller.Registry.{IsProper-modify}
use homed_service_esphome.Controller.Sound.{IsSound, add_device-IsSound}
use homed_service_esphome.Controller.SoundRemoval.{remove_device-IsSound, route_command-IsSound}

module _ (p : Platform) (homed : Homed p.qt) where
  abbrev Keeps : Control p → Type 0
  Keeps s = IsSound p s.manager

  update_device-IsSound :
      (json : Entries p.qt.Double) (s : Control p)
      → IsSound p s.manager
      → IsSound p (Commands.update_device p homed json s).manager
  unfolding Commands.update_device Publishing.publish_service_status Commands.updated
  update_device-IsSound json s sound =
      elim (Option-cases (Commands.device_named p homed (text_at "device" json) s.manager.store)) [
        | inl e ↦ rw (Commands.update_device, e) sound
        | inr (id, e) ↦
            let s' : Control p =
              Commands.store_devices p homed
                (Publishing.update_object p homed id (Commands.updated p homed json) s) in
            rw
              (
                Commands.update_device,
                e,
                publish_exposes-manager p homed (device_of id s') false s',
              )
              (record {
                is_proper =
                    IsProper-modify id (Commands.updated p homed json) s.manager.store (λ d. refl)
                      sound.is_proper;
                runs = sound.runs;
              })
      ]

  get_properties-IsSound :
      (json : Entries p.qt.Double) (s : Control p)
      → IsSound p s.manager
      → IsSound p (Commands.get_properties p homed json s).manager
  unfolding Commands.get_properties
  get_properties-IsSound json s sound =
      elim (Option-cases (Commands.device_named p homed (text_at "device" json) s.manager.store)) [
        | inl e ↦ rw (Commands.get_properties, e) sound
        | inr (id, e) ↦ rw (Commands.get_properties, e, update_properties-manager p homed s) sound
      ]

  service_command-IsSound :
      (topic : Text) (json : Entries p.qt.Double) (s : Control p)
      → IsSound p s.manager
      → IsSound p (Commands.service_command p homed topic json s).manager
  unfolding Commands.service_command Commands.restart_service
  service_command-IsSound topic json s sound =
      if_keeps Keeps (text_eq (homed.enum_key (text_at "action" json)) "restartService") sound (
        if_keeps Keeps (text_eq (homed.enum_key (text_at "action" json)) "addDevice")
          (add_device-IsSound p homed json s sound)
          (if_keeps Keeps (text_eq (homed.enum_key (text_at "action" json)) "removeDevice")
            (remove_device-IsSound p homed json s sound)
            (if_keeps Keeps (text_eq (homed.enum_key (text_at "action" json)) "updateDevice")
              (update_device-IsSound json s sound)
              (if_keeps Keeps (text_eq (homed.enum_key (text_at "action" json)) "getProperties")
                (get_properties-IsSound json s sound) sound))))

  entity_command-IsSound :
      (id slot : ℕ) (key : Text) (value : Variant p.qt.Double) (s : Control p)
      → IsSound p s.manager
      → IsSound p (Received.entity_command p homed id slot key value s).manager
  unfolding Received.entity_command
  entity_command-IsSound id slot key value s sound = elim (Option-cases (homed.argument value)) [
    | inl e ↦ rw (Received.entity_command, e) sound
    | inr (argument, e) ↦
        rw (Received.entity_command, e)
          (if_keeps Keeps (Received.endpoint_of p homed slot key (device_of id s) == 0) sound
            (route_command-IsSound p homed id _ key argument s.manager sound))
  ]

  entity_commands-IsSound :
      (id slot : ℕ) (json : Entries p.qt.Double) (s : Control p)
      → IsSound p s.manager
      → IsSound p (Received.entity_commands p homed id slot json s).manager
  unfolding Received.entity_commands
  entity_commands-IsSound id slot end s sound = sound
  entity_commands-IsSound id slot (entry key value json) s sound =
      entity_commands-IsSound id slot json _ (entity_command-IsSound id slot key value s sound)

  device_command-IsSound :
      (parts : List Text) (json : Entries p.qt.Double) (s : Control p)
      → IsSound p s.manager
      → IsSound p (Received.device_command p homed parts json s).manager
  unfolding Received.device_command
  device_command-IsSound parts json s sound =
      elim (Option-cases (Commands.device_named p homed (Topics.part_at 0 parts) s.manager.store)) [
        | inl e ↦ rw (Received.device_command, e) sound
        | inr (id, e) ↦
            elim (Option-cases (Received.slot_number p homed (Topics.part_at 1 parts))) [
              | inl none_eq ↦ rw (Received.device_command, e, none_eq) sound
              | inr (slot, some_eq) ↦
                  rw (Received.device_command, e, some_eq)
                    (entity_commands-IsSound id slot json s sound)
            ]
      ]

  ha_status_received-IsSound :
      (message : Bytes) (s : Control p)
      → IsSound p s.manager
      → IsSound p (Received.ha_status_received p homed message s).manager
  unfolding Received.ha_status_received
  ha_status_received-IsSound message s sound =
      if_keeps Keeps (not (Received.same_bytes p homed message (Received.online_message p homed)))
        sound sound

  -- Whatever message arrives on whatever topic: no two devices in the list get the same host, the
  -- manager never makes a connection for a null device, and the numbers of new objects stay unused.
  pub mqtt_received-IsSound :
      (message : Bytes) (topic : Text) (s : Control p)
      → IsSound p s.manager
      → IsSound p (Received.mqtt_received p homed message topic s).manager
  unfolding Received.mqtt_received Received.ha_status_received
  mqtt_received-IsSound message topic s sound =
      if_keeps Keeps (Received.is_command p homed topic)
        (service_command-IsSound topic (homed.from_json message) s sound)
        (if_keeps Keeps (Received.is_td p homed topic)
          (device_command-IsSound (Received.td_parts p homed topic) (homed.from_json message) s
            sound)
          (if_keeps Keeps (text_eq topic homed.ha_status)
            (ha_status_received-IsSound message s sound) sound))
