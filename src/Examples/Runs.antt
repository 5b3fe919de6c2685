-- ===== src/Examples/Runs.antt =====
-- A run of the program with one device, to which another one is added.
use homed_service_esphome.Prelude.{◌≡◌, refl, some, ◌∷◌, [], arith}
use homed_service_esphome.Connection.Events.{Event, handle, connect_to_device}
use homed_service_esphome.Manager.{
  call, connect_all, connect_listed, connect_device, open_connection, new_manager,
}
use homed_service_esphome.Controller.Homed.{Control}
use homed_service_esphome.Controller.Received.{mqtt_received}
use homed_service_esphome.Controller.Slots.{new_control, mqtt_connected, entities_discovered}
use homed_service_esphome.Controller.Registry.{IsProper}
use homed_service_esphome.Controller.Sound.{IsSound}
use homed_service_esphome.Controller.Running.{
  Running, started, connected, message, happened, discovered, Running-IsSound,
}
use homed_service_esphome.Prelude.Maps.{lookup, insert, text_key}
use homed_service_esphome.Device.{by_host, find_host}
use homed_service_esphome.Connection.Session.{Connection}
use homed_service_esphome.Connection.Reach.{new_connection}
use homed_service_esphome.Connection.Ready.{IsGuarded}
use homed_service_esphome.Controller.Secure.{Running-IsGuarded}
use homed_service_esphome.Examples.{platform}
use homed_service_esphome.Examples.Control.{plain_homed, store, command_topic}

abbrev begun : Control platform
begun = mqtt_connected platform plain_homed (new_control platform plain_homed store)

-- The host b is added, and the connection of the host a opens.
abbrev added : Control platform
added = mqtt_received platform plain_homed (0 ∷ []) command_topic begun

abbrev opened : Control platform
opened = record added {
  manager = call platform "a" (handle platform (Event.connected [])) added.manager;
}

abbrev last : Control platform
last = entities_discovered platform plain_homed 0 opened

store-IsProper : IsProper store
store-IsProper = record { are_distinct = (tt, tt); are_old = (omega arith, tt) }

last-Running : Running platform plain_homed last
last-Running = discovered 0 opened (
    happened "a" (Event.connected []) added (
      message (0 ∷ []) command_topic begun
        (connected (new_control platform plain_homed store) (started store store-IsProper))))

Running-IsSound_example : IsSound platform last.manager
Running-IsSound_example = Running-IsSound platform plain_homed last last-Running

abbrev created : Control platform
created = new_control platform plain_homed store

-- The connection of the host a, when its socket has connected.
abbrev linked : Control platform
linked = record created {
  manager = call platform "a" (handle platform (Event.connected [])) created.manager;
}

abbrev link : Connection platform
link =
    handle platform (Event.connected [])
      (record (connect_to_device platform (new_connection platform 0 store)) {
        store = created.manager.store;
      })

linked-Running : Running platform plain_homed linked
linked-Running = happened "a" (Event.connected []) created (started store store-IsProper)

linked-found : lookup "a" linked.manager.connections ≡ some link
unfolding call lookup new_control connect_all connect_listed connect_device open_connection by_host
    find_host insert new_manager connect_to_device new_connection
linked-found = refl

Running-IsGuarded_example : IsGuarded platform link
Running-IsGuarded_example =
    Running-IsGuarded platform plain_homed linked "a" link linked-Running linked-found
