-- ===== src/Controller/Handled.antt =====
-- The connections under the messages to the Controller: what the manager's calls keep, they keep.
use homed_service_esphome.Prelude.{
  ℕ, zero, suc, ◌≡◌, ◌∙◌, ap, length, ◌||◌, if◌then◌else◌, refl, false, List, Bytes, not,
  Option-cases, inl, inr, ◌==◌, if_keeps,
}
use homed_service_esphome.Prelude.Text.{Text, text_eq, is_empty}
use homed_service_esphome.Variant.{Variant, Entries, end, entry, text_at}
use homed_service_esphome.Connection.Session.{Platform, Connection, address}
use homed_service_esphome.Controller.Homed.{Homed, Control, device_of, listed_of}
use homed_service_esphome.Controller.Topics
use homed_service_esphome.Controller.Publishing
use homed_service_esphome.Controller.Commands
use homed_service_esphome.Controller.Received
use homed_service_esphome.Controller.Quiet.{
  retract-manager, publish_exposes-manager, update_properties-manager,
}
use homed_service_esphome.Controller.SoundRemoval.{remove_sub-manager}
use homed_service_esphome.Prelude.Maps.{Map}
use homed_service_esphome.Device.{by_host}
use homed_service_esphome.Command.{Argument}
use homed_service_esphome.Manager

-- What the manager's calls keep of its connections, messages and slots keep as well.
module _ (p : Platform) (homed : Homed p.qt) (C : Map Text (Connection p) → Type 0)
    (connects : (id : ℕ) (m : Manager.Manager p)
      → C m.connections
      → C (Manager.connect_device p id m).connections)
    (disconnects : (id : ℕ) (m : Manager.Manager p)
      → C m.connections
      → C (Manager.disconnect_device p id m).connections)
    (commands : (id endpoint_id : ℕ) (action : Text) (value : Argument) (m : Manager.Manager p)
      → C m.connections
      → C (Manager.route_command p id endpoint_id action value m).connections) where
  abbrev Keeps : Control p → Type 0
  Keeps s = C s.manager.connections

  add_checked-Keeps :
      (host : Text) (port : ℕ) (name : Text) (key_bytes : Bytes) (json : Entries p.qt.Double)
      (s : Control p)
      → Keeps s
      → Keeps (Commands.add_checked p homed host port name key_bytes json s)
  unfolding Commands.add_checked Publishing.publish_service_status
  add_checked-Keeps host port name key_bytes json s h = connects s.manager.store.fresh _ h

  add_unknown-Keeps :
      (host : Text) (port : ℕ) (name : Text) (key_bytes : Bytes) (json : Entries p.qt.Double)
      (s : Control p)
      → Keeps s
      → Keeps (Commands.add_unknown p homed host port name key_bytes json s)
  unfolding Commands.add_unknown
  add_unknown-Keeps host port name key_bytes json s h =
      elim (Option-cases (by_host host s.manager.store)) [
        | inl e ↦
            rw (Commands.add_unknown, e)
              (add_checked-Keeps host port (if is_empty name then p.qt.mqtt_safe host else name)
                key_bytes json s h)
        | inr (id, e) ↦ rw (Commands.add_unknown, e) h
      ]

  add_device-Keeps :
      (json : Entries p.qt.Double) (s : Control p)
      → Keeps s
      → Keeps (Commands.add_device p homed json s)
  unfolding Commands.add_device
  add_device-Keeps json s h =
      if_keeps Keeps (is_empty (text_at "host" json) || is_empty (text_at "key" json)) h (
        if_keeps Keeps (not (length (homed.from_base64 (text_at "key" json)) == 32)) h
          (add_unknown-Keeps _ _ _ _ json s h))

  remove_subs-connections :
      (id n : ℕ) (s : Control p)
      → (Commands.remove_subs p homed id n s).manager.connections ≡ s.manager.connections
  unfolding Commands.remove_subs Commands.remove_sub_at
  remove_subs-connections id zero s = refl
  remove_subs-connections id (suc i) s =
      remove_subs-connections id i (Commands.remove_sub_at p homed id i s)
      ∙ (elim (Option-cases (Commands.id_at i (listed_of s))) [
        | inl e ↦ rw (Commands.remove_sub_at, e) refl
        | inr (sub, e) ↦
            rw (Commands.remove_sub_at, e)
              (if_keeps (λ (t : Control p). t.manager.connections ≡ s.manager.connections)
                (sub == id
                  || not (text_eq (device_of sub s).parent_address (address p.qt (device_of id s))))
                refl (ap (λ m. m.connections) (remove_sub-manager p homed i sub s)))
      ])

  remove_found-Keeps :
      (id : ℕ) (s : Control p) → Keeps s → Keeps (Commands.remove_found p homed id s)
  unfolding Commands.remove_found Publishing.publish_service_status Commands.disconnect
      Commands.unlist_at
  remove_found-Keeps id s h =
      let after : Control p =
        Commands.retract p homed (device_of id s) (Commands.disconnect p homed id s) in
      let gone : Keeps after =
        rw (retract-manager p homed (device_of id s) (Commands.disconnect p homed id s))
          (disconnects id s.manager h) in
      elim (Option-cases (Commands.position id (listed_of s))) [
        | inl e ↦ rw (Commands.remove_found, e) gone
        | inr (i, e) ↦ rw (Commands.remove_found, e) gone
      ]

  remove_device-Keeps :
      (json : Entries p.qt.Double) (s : Control p)
      → Keeps s
      → Keeps (Commands.remove_device p homed json s)
  unfolding Commands.remove_device
  remove_device-Keeps json s h =
      elim (Option-cases (Commands.device_named p homed (text_at "device" json) s.manager.store)) [
        | inl e ↦ rw (Commands.remove_device, e) h
        | inr (id, e) ↦
            rw (Commands.remove_device, e)
              (remove_found-Keeps id (Commands.remove_subs p homed id (length (listed_of s)) s)
                (rw (remove_subs-connections id (length (listed_of s)) s) h))
      ]

  update_device-Keeps :
      (json : Entries p.qt.Double) (s : Control p)
      → Keeps s
      → Keeps (Commands.update_device p homed json s)
  unfolding Commands.update_device Publishing.publish_service_status
  update_device-Keeps json s h =
      elim (Option-cases (Commands.device_named p homed (text_at "device" json) s.manager.store)) [
        | inl e ↦ rw (Commands.update_device, e) h
        | inr (id, e) ↦
            let s' : Control p =
              Commands.store_devices p homed
                (Publishing.update_object p homed id (Commands.updated p homed json) s) in
            rw
              (
                Commands.update_device,
                e,
                publish_exposes-manager p homed (device_of id s') false s',
              )
              h
      ]

  get_properties-Keeps :
      (json : Entries p.qt.Double) (s : Control p)
      → Keeps s
      → Keeps (Commands.get_properties p homed json s)
  unfolding Commands.get_properties
  get_properties-Keeps json s h =
      elim (Option-cases (Commands.device_named p homed (text_at "device" json) s.manager.store)) [
        | inl e ↦ rw (Commands.get_properties, e) h
        | inr (id, e) ↦ rw (Commands.get_properties, e, update_properties-manager p homed s) h
      ]

  service_command-Keeps :
      (topic : Text) (json : Entries p.qt.Double) (s : Control p)
      → Keeps s
      → Keeps (Commands.service_command p homed topic json s)
  unfolding Commands.service_command Commands.restart_service
  service_command-Keeps topic json s h =
      if_keeps Keeps (text_eq (homed.enum_key (text_at "action" json)) "restartService") h (
        if_keeps Keeps (text_eq (homed.enum_key (text_at "action" json)) "addDevice")
          (add_device-Keeps json s h)
          (if_keeps Keeps (text_eq (homed.enum_key (text_at "action" json)) "removeDevice")
            (remove_device-Keeps json s h)
            (if_keeps Keeps (text_eq (homed.enum_key (text_at "action" json)) "updateDevice")
              (update_device-Keeps json s h)
              (if_keeps Keeps (text_eq (homed.enum_key (text_at "action" json)) "getProperties")
                (get_properties-Keeps json s h) h))))

  entity_command-Keeps :
      (id slot : ℕ) (key : Text) (value : Variant p.qt.Double) (s : Control p)
      → Keeps s
      → Keeps (Received.entity_command p homed id slot key value s)
  unfolding Received.entity_command
  entity_command-Keeps id slot key value s h = elim (Option-cases (homed.argument value)) [
    | inl e ↦ rw (Received.entity_command, e) h
    | inr (argument, e) ↦
        rw (Received.entity_command, e)
          (if_keeps Keeps (Received.endpoint_of p homed slot key (device_of id s) == 0) h
            (commands id _ key argument s.manager h))
  ]

  entity_commands-Keeps :
      (id slot : ℕ) (json : Entries p.qt.Double) (s : Control p)
      → Keeps s
      → Keeps (Received.entity_commands p homed id slot json s)
  unfolding Received.entity_commands
  entity_commands-Keeps id slot end s h = h
  entity_commands-Keeps id slot (entry key value json) s h =
      entity_commands-Keeps id slot json _ (entity_command-Keeps id slot key value s h)

  device_command-Keeps :
      (parts : List Text) (json : Entries p.qt.Double) (s : Control p)
      → Keeps s
      → Keeps (Received.device_command p homed parts json s)
  unfolding Received.device_command
  device_command-Keeps parts json s h =
      elim (Option-cases (Commands.device_named p homed (Topics.part_at 0 parts) s.manager.store)) [
        | inl e ↦ rw (Received.device_command, e) h
        | inr (id, e) ↦
            elim (Option-cases (Received.slot_number p homed (Topics.part_at 1 parts))) [
              | inl none_eq ↦ rw (Received.device_command, e, none_eq) h
              | inr (slot, some_eq) ↦
                  rw (Received.device_command, e, some_eq) (entity_commands-Keeps id slot json s h)
            ]
      ]

  ha_status_received-Keeps :
      (message : Bytes) (s : Control p)
      → Keeps s
      → Keeps (Received.ha_status_received p homed message s)
  unfolding Received.ha_status_received
  ha_status_received-Keeps message s h =
      if_keeps Keeps (not (Received.same_bytes p homed message (Received.online_message p homed))) h
        h

  pub mqtt_received-Keeps :
      (message : Bytes) (topic : Text) (s : Control p)
      → Keeps s
      → Keeps (Received.mqtt_received p homed message topic s)
  unfolding Received.mqtt_received Received.ha_status_received
  mqtt_received-Keeps message topic s h =
      if_keeps Keeps (Received.is_command p homed topic)
        (service_command-Keeps topic (homed.from_json message) s h)
        (if_keeps Keeps (Received.is_td p homed topic)
          (device_command-Keeps (Received.td_parts p homed topic) (homed.from_json message) s h)
          (if_keeps Keeps (text_eq topic homed.ha_status) (ha_status_received-Keeps message s h) h))
