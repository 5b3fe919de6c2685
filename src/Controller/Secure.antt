-- ===== src/Controller/Secure.antt =====
-- The connections of the running program: their Noise objects and ping timers.
use homed_service_esphome.Prelude.{
  ℕ, ◌≡◌, refl, ap, ◌∙◌, false, List, [], ◌∷◌, some, arith, length, if_keeps,
}
use homed_service_esphome.Prelude.Text.{Text}
use homed_service_esphome.Prelude.Maps.{lookup, text_key}
use homed_service_esphome.Connection.Session.{Platform, Connection}
use homed_service_esphome.Connection.Ready.{IsGuarded}
use homed_service_esphome.Manager
use homed_service_esphome.Controller.Homed.{
  Homed, Control, put_out, subscribe, device_of, listed_of,
}
use homed_service_esphome.Controller.Topics
use homed_service_esphome.Controller.Publishing
use homed_service_esphome.Controller.Commands
use homed_service_esphome.Controller.Slots
use homed_service_esphome.Controller.Quiet.{
  publish_exposes-manager, update_properties-manager, publish_device_state-manager,
}
use homed_service_esphome.Controller.Handled.{mqtt_received-Keeps}
use homed_service_esphome.Controller.SoundSlots.{
  clear_numbered-manager, clear_keys-manager, publish_statuses-manager,
}
use homed_service_esphome.Controller.Running.{
  Running, started, message, happened, connected, mqtt_changed, discovered, reported, appeared,
  properties_due, database_due,
}
use homed_service_esphome.Controller.Guarded.{
  AreGuarded, call-AreGuarded, connect_device-AreGuarded, connect_listed-AreGuarded,
  disconnect_device-AreGuarded, route_command-AreGuarded,
}

module _ (p : Platform) (homed : Homed p.qt) where
  clear_stale_topics-connections :
      (id : ℕ) (s : Control p)
      → (Publishing.clear_stale_topics p homed id s).manager.connections ≡ s.manager.connections
  unfolding Publishing.clear_stale_topics
  clear_stale_topics-connections id s = ground (
    arith,
    clear_numbered-manager p homed (device_of id s) (length (device_of id s).endpoints) 1 s,
    clear_keys-manager p homed (device_of id s) (device_of id s).published_endpoints s,
  )

  publish_all-connections :
      (ids : List ℕ) (s : Control p)
      → (Slots.publish_all p homed ids s).manager.connections ≡ s.manager.connections
  unfolding Slots.publish_all
  publish_all-connections [] s = refl
  publish_all-connections (id ∷ ids) s =
      let cleared : Control p = Publishing.clear_stale_topics p homed id s in
      publish_all-connections ids _
      ∙ (ap (λ m. m.connections)
            (publish_exposes-manager p homed (device_of id cleared) false cleared)
          ∙ clear_stale_topics-connections id s)

  mqtt_connected-connections :
      (s : Control p) → (Slots.mqtt_connected p homed s).manager.connections ≡ s.manager.connections
  unfolding Slots.mqtt_connected Slots.greet_ha Publishing.publish_service_status
  mqtt_connected-connections s =
      let subscribed : Control p =
        put_out (subscribe (Topics.topic_of p.qt homed "td" "#"))
          (put_out (subscribe (Topics.service_kind p.qt homed "command")) s) in
      let all : Control p = Slots.publish_all p homed (listed_of s) subscribed in
      let kept = publish_all-connections (listed_of s) subscribed in
      ap (λ m. m.connections)
        (publish_statuses-manager p homed (listed_of s) (Slots.greet_ha p homed all))
      ∙ if_keeps (λ (t : Control p). t.manager.connections ≡ s.manager.connections) homed.ha_enabled
          kept kept

  entities_discovered-connections :
      (id : ℕ) (s : Control p)
      → (Slots.entities_discovered p homed id s).manager.connections ≡ s.manager.connections
  unfolding Slots.entities_discovered Publishing.publish_service_status
      Publishing.publish_device_status
  entities_discovered-connections id s =
      let stored : Control p = Commands.store_devices p homed s in
      let cleared : Control p = Publishing.clear_stale_topics p homed id stored in
      ap (λ m. m.connections) (publish_exposes-manager p homed (device_of id cleared) false cleared)
      ∙ clear_stale_topics-connections id stored

  availability_changed-connections :
      (id : ℕ) (s : Control p)
      → (Slots.availability_changed p homed id s).manager.connections ≡ s.manager.connections
  unfolding Slots.availability_changed Publishing.publish_device_status
  availability_changed-connections id s =
      if_keeps (λ (t : Control p). t.manager.connections ≡ s.manager.connections) _ refl refl

  Running-AreGuarded : (s : Control p) → Running p homed s → AreGuarded p s.manager.connections
  unfolding Slots.new_control Manager.connect_all Manager.new_manager Slots.state_changed
      Slots.on_properties_timer Slots.on_database_timer lookup
  Running-AreGuarded s (started store proper) =
      connect_listed-AreGuarded p store.listed (Manager.new_manager p store)
        (λ host conn found. absurd (ground (arith, found)))
  Running-AreGuarded s (message bytes topic s' r) =
      mqtt_received-Keeps p homed (AreGuarded p) (connect_device-AreGuarded p)
        (disconnect_device-AreGuarded p) (route_command-AreGuarded p) bytes topic s'
        (Running-AreGuarded s' r)
  Running-AreGuarded s (happened host e s' r) =
      call-AreGuarded p host e s'.manager (Running-AreGuarded s' r)
  Running-AreGuarded s (connected s' r) =
      rw (mqtt_connected-connections s') (Running-AreGuarded s' r)
  Running-AreGuarded s (mqtt_changed status s' r) = Running-AreGuarded s' r
  Running-AreGuarded s (discovered id s' r) =
      rw (entities_discovered-connections id s') (Running-AreGuarded s' r)
  Running-AreGuarded s (reported id endpoint_id s' r) =
      rw (publish_device_state-manager p homed (device_of id s') s') (Running-AreGuarded s' r)
  Running-AreGuarded s (appeared id s' r) =
      rw (availability_changed-connections id s') (Running-AreGuarded s' r)
  Running-AreGuarded s (properties_due s' r) =
      rw (update_properties-manager p homed (record s' { properties_timer = false }))
        (Running-AreGuarded s' r)
  Running-AreGuarded s (database_due s' r) = Running-AreGuarded s' r

  -- In every state that the program reaches, whatever its devices and its users send: a connection
  -- of the manager that waits for a server's hello or a handshake has a Noise object, and one that is
  -- ready has a complete Noise object and a running ping timer.
  pub Running-IsGuarded :
      (s : Control p) (host : Text) (conn : Connection p)
      → Running p homed s
      → lookup host s.manager.connections ≡ some conn
      → IsGuarded p conn
  Running-IsGuarded s host conn r found = Running-AreGuarded s r host conn found
