-- ===== src/Controller/Running.antt =====
-- The program as it runs: the Controller's slots, the messages to it and the events of the
-- connections, in any order.
use homed_service_esphome.Prelude.{ℕ, false, Bool, Bytes}
use homed_service_esphome.Prelude.Text.{Text}
use homed_service_esphome.Prelude.Maps.{text_key}
use homed_service_esphome.Device.{Store}
use homed_service_esphome.Connection.Session.{Platform}
use homed_service_esphome.Connection.Events.{Event, handle}
use homed_service_esphome.Manager
use homed_service_esphome.Controller.Homed.{Homed, Control, device_of}
use homed_service_esphome.Controller.Received.{mqtt_received}
use homed_service_esphome.Controller.Slots
use homed_service_esphome.Controller.Quiet.{update_properties-manager, publish_device_state-manager}
use homed_service_esphome.Controller.Registry.{IsProper}
use homed_service_esphome.Controller.Sound.{IsSound}
use homed_service_esphome.Controller.SoundSlots.{
  call-IsSound, mqtt_connected-IsSound, entities_discovered-IsSound, availability_changed-IsSound,
  new_control-IsSound,
}
use homed_service_esphome.Controller.SoundMessages.{mqtt_received-IsSound}

-- The states that the program reaches from the devices in the database. Each step is one call of
-- the event loop. What a connection signals reaches the Controller's slots in steps of their own.
pub data Running (p : Platform) (homed : Homed p.qt) : Control p → Type 0 where
  started :
      (store : Store p.qt.Double)
      → IsProper store
      → Running p homed (Slots.new_control p homed store)
  message :
      (bytes : Bytes) (topic : Text) (s : Control p)
      → Running p homed s
      → Running p homed (mqtt_received p homed bytes topic s)
  -- An event of the connection of `host`, its timers, or its socket.
  happened :
      (host : Text) (e : Event) (s : Control p)
      → Running p homed s
      → Running p homed (record s { manager = Manager.call p host (handle p e) s.manager })
  connected : (s : Control p) → Running p homed s → Running p homed (Slots.mqtt_connected p homed s)
  -- homed-common sets this.
  mqtt_changed :
      (status : Bool) (s : Control p)
      → Running p homed s
      → Running p homed (record s { mqtt_status = status })
  discovered :
      (id : ℕ) (s : Control p)
      → Running p homed s
      → Running p homed (Slots.entities_discovered p homed id s)
  reported :
      (id endpoint_id : ℕ) (s : Control p)
      → Running p homed s
      → Running p homed (Slots.state_changed p homed id endpoint_id s)
  appeared :
      (id : ℕ) (s : Control p)
      → Running p homed s
      → Running p homed (Slots.availability_changed p homed id s)
  properties_due :
      (s : Control p) → Running p homed s → Running p homed (Slots.on_properties_timer p homed s)
  database_due :
      (s : Control p) → Running p homed s → Running p homed (Slots.on_database_timer p homed s)

-- In every state that the program reaches from a database without two devices of one host, no two
-- devices in the list have the same host, the numbers of new objects are unused, and no null device
-- was used.
pub Running-IsSound :
    (p : Platform) (homed : Homed p.qt) (s : Control p) → Running p homed s → IsSound p s.manager
unfolding Slots.state_changed Slots.on_properties_timer Slots.on_database_timer
Running-IsSound p homed s (started store proper) = new_control-IsSound p homed store proper
Running-IsSound p homed s (message bytes topic s' r) =
    mqtt_received-IsSound p homed bytes topic s' (Running-IsSound p homed s' r)
Running-IsSound p homed s (happened host e s' r) =
    call-IsSound p homed host e s'.manager (Running-IsSound p homed s' r)
Running-IsSound p homed s (connected s' r) =
    mqtt_connected-IsSound p homed s' (Running-IsSound p homed s' r)
Running-IsSound p homed s (mqtt_changed status s' r) = Running-IsSound p homed s' r
Running-IsSound p homed s (discovered id s' r) =
    entities_discovered-IsSound p homed id s' (Running-IsSound p homed s' r)
Running-IsSound p homed s (reported id endpoint_id s' r) =
    rw (publish_device_state-manager p homed (device_of id s') s') (Running-IsSound p homed s' r)
Running-IsSound p homed s (appeared id s' r) =
    availability_changed-IsSound p homed id s' (Running-IsSound p homed s' r)
Running-IsSound p homed s (properties_due s' r) =
    rw (update_properties-manager p homed (record s' { properties_timer = false }))
      (Running-IsSound p homed s' r)
Running-IsSound p homed s (database_due s' r) = Running-IsSound p homed s' r
