-- ===== src/Examples/Control.antt =====
-- A Controller with one device, and what holds of it.
use homed_service_esphome.Prelude.{
  ℕ, zero, suc, ◌≡◌, refl, true, false, List, [], ◌∷◌, ◌++◌, none, some, Bytes, arith,
  if◌then◌else◌, inl, inr, ◌≢◌, ◌==◌,
}
use homed_service_esphome.Prelude.Text.{Text}
use homed_service_esphome.Prelude.Maps.{lookup, text_key, nat_key}
use homed_service_esphome.Variant.{Entries, end, entry, text, int, find}
use homed_service_esphome.Command.{Argument}
use homed_service_esphome.Device.{
  DeviceObject, Endpoint, Store, text_value, by_host, find_host, by_name, find_name,
}
use homed_service_esphome.Discovery.CamelCase.{append_text}
use homed_service_esphome.Manager
use homed_service_esphome.Manager.Refinement.{
  Call, Refines, allowed_all, perform_all, perform, perform_all-Refines, hosts_of,
}
use homed_service_esphome.Manager.Routing.{
  IsRouted, perform-IsRouted, commanded, route_command-reaches,
}
use homed_service_esphome.Controller.Homed.{Homed, Control}
use homed_service_esphome.Controller.Topics
use homed_service_esphome.Controller.Commands
use homed_service_esphome.Controller.Received
use homed_service_esphome.Controller.Publishing
use homed_service_esphome.Controller.Sound.{IsSound}
use homed_service_esphome.Controller.SoundMessages.{mqtt_received-IsSound}
use homed_service_esphome.Controller.Sweeping.{without}
use homed_service_esphome.Controller.Removal.{is_removed, remove_device-without}
use homed_service_esphome.Controller.Adding.{add_device-refused, add_device-IsAdded, IsAdded}
use homed_service_esphome.Controller.Snapshot.{
  publish_device_state-split, special_outputs, common_output, has_common, merged, last_common,
  message_of, as_json,
}
use homed_service_esphome.Controller.Delivery.{mqtt_received-calls, calls_for}
use homed_service_esphome.Controller.SafeIds.{char_at, ha_safe_id-safe}
use homed_service_esphome.Examples.{platform, plain_qt, empty_device}

abbrev zeros : ℕ → Bytes
zeros zero = []
zeros (suc n) = 0 ∷ zeros n

-- The messages, by their lengths: for an entity, to add a device for the host b, for the host a, and to
-- remove the device a.
abbrev message_json : Bytes → Entries ℕ
message_json (x ∷ []) =
    entry "action" (text "addDevice") (entry "host" (text "b") (entry "key" (text "k") end))
message_json (x ∷ y ∷ []) =
    entry "action" (text "addDevice") (entry "host" (text "a") (entry "key" (text "k") end))
message_json (x ∷ y ∷ z ∷ rest) =
    entry "action" (text "removeDevice") (entry "device" (text "a") end)
message_json [] = entry "lamp" (text "on") end

abbrev pub plain_homed : Homed plain_qt
plain_homed = record {
  mqtt_topic = λ t. append_text "homed/" t;
  service_topic = "esphome";
  unique_id = "homed";
  version = "1";
  names = true;
  ha_enabled = true;
  ha_prefix = "homeassistant";
  ha_status = "homeassistant/status";
  expose_name = λ e. "expose";
  expose_discovery = λ e. true;
  expose_component = λ d id e. "switch";
  expose_title = λ d id e. "title";
  expose_request = λ d id e state_topic command_topic. end;
  enum_key = λ t. t;
  from_json = message_json;
  from_base64 = λ t. zeros 32;
  to_int = λ otherwise v. elim v [ int n ↦ n | _ ↦ otherwise ];
  to_uint = λ t. some 257;
  json_of_qint64 = λ n. int n;
  json_value = λ v. int 0;
  argument = λ v. some (record { to_text = "on"; to_float = 0; to_floats = [] });
}

abbrev pub lamp : Endpoint ℕ
lamp = record {
  meta = record {
    key = 7;
    kind = "switch";
    object_id = "lamp";
    special = false;
    round = none;
    icon = "";
    title = "";
    supports_position = false;
    climate_has_preset = false;
    climate_has_fan_mode = false;
  };
  exposes = [];
  state = ("status", text_value "off") ∷ [];
}

abbrev pub device : DeviceObject ℕ
device = record empty_device { name = "lamp"; host = "a"; endpoints = (1, lamp) ∷ [] }

abbrev pub store : Store ℕ
store = record { objects = λ id. device; listed = 0 ∷ []; fresh = 1 }

abbrev idle : Manager.Manager platform
idle = record { store = store; connections = []; deleted = []; failed = false }

abbrev control : Control platform
control = record {
  manager = idle;
  output = [];
  properties_timer = false;
  database_timer = false;
  mqtt_status = true;
}

abbrev calls : List Call
calls = Call.connect_all ∷ Call.disconnect_device 0 ∷ Call.connect_device 0 ∷ []

perform_all-Refines_example :
    Refines platform store
      (allowed_all store calls (λ host. false))
      (perform_all platform calls idle)
unfolding lookup by_host find_host
perform_all-Refines_example =
    perform_all-Refines platform store calls (λ host. false) idle (refl, refl, λ host. refl)
      (tt, (tt, (refl, tt)))

unconnected-IsRouted : IsRouted platform idle
unfolding lookup
unconnected-IsRouted host conn found = absurd (ground (arith, found))

perform-IsRouted_example : IsRouted platform (perform platform Call.connect_all idle)
perform-IsRouted_example = perform-IsRouted platform Call.connect_all idle unconnected-IsRouted

abbrev on : Argument
on = record { to_text = "on"; to_float = 0; to_floats = [] }

abbrev connected : Manager.Manager platform
connected = perform platform Call.connect_all idle

a_not_empty : ◌≢◌ {A = Text} "a" ""
a_not_empty = ground (arith, text_key.same_iff "a" "")

-- A sub-device of the device a, as the object 1.
abbrev with_sub : Manager.Manager platform
with_sub = record connected {
  store = record store {
    objects =
        λ id. if id == 1 then record device { host = "a-1"; parent_address = "a" } else device;
  };
}

route_command-reaches_example :
    (lookup "a" (Manager.route_command platform 1 1 "status" on with_sub).connections
      ≡ commanded platform 1 1 "status" on with_sub (lookup "a" with_sub.connections))
    × ((Manager.route_command platform 1 1 "status" on with_sub).store ≡ with_sub.store)
    × ((Manager.route_command platform 1 1 "status" on with_sub).deleted ≡ with_sub.deleted)
route_command-reaches_example =
    route_command-reaches platform 1 1 "status" on with_sub "a" "a" (inr (a_not_empty, refl))

idle-IsSound : IsSound platform idle
idle-IsSound = record {
  is_proper = record { are_distinct = (tt, tt); are_old = (omega arith, tt) };
  runs = refl;
}

abbrev pub command_topic : Text
command_topic = "homed/command/esphome"

mqtt_received-IsSound_example :
    IsSound platform
      (Received.mqtt_received platform plain_homed (0 ∷ []) command_topic control).manager
mqtt_received-IsSound_example =
    mqtt_received-IsSound platform plain_homed (0 ∷ []) command_topic control idle-IsSound

add_device-refused_example :
    Received.mqtt_received platform plain_homed (0 ∷ 0 ∷ []) command_topic control ≡ control
unfolding Topics.mid Topics.text_length by_host find_host find
add_device-refused_example =
    add_device-refused platform plain_homed (0 ∷ 0 ∷ []) command_topic control refl refl
      (inr (inr (inr refl)))

add_device-IsAdded_example :
    IsAdded platform plain_homed
      (0 ∷ [])
      command_topic
      control
      (Received.mqtt_received platform plain_homed (0 ∷ []) command_topic control)
unfolding Topics.mid Topics.text_length by_host find_host find lookup
add_device-IsAdded_example =
    add_device-IsAdded platform plain_homed (0 ∷ []) command_topic control idle-IsSound refl refl
      refl refl refl refl refl

remove_device-without_example :
    ((Commands.remove_device platform plain_homed
        (message_json (0 ∷ 0 ∷ 0 ∷ []))
        control).manager.store.listed
      ≡ without (is_removed platform plain_homed 0 store) (0 ∷ []))
    × (hosts_of platform
          (Commands.remove_device platform plain_homed
            (message_json (0 ∷ 0 ∷ 0 ∷ []))
            control).manager
          "a"
        ≡ false)
unfolding Commands.device_named by_host find_host by_name find_name find
remove_device-without_example =
    remove_device-without platform plain_homed (message_json (0 ∷ 0 ∷ 0 ∷ [])) 0 control
      idle-IsSound refl

publish_device_state-split_example :
    ((Publishing.publish_device_state platform plain_homed device control).output
      ≡ special_outputs platform plain_homed device device.endpoints
        ++ common_output platform plain_homed device
            (has_common device.endpoints)
            (merged platform plain_homed device device.endpoints []))
    × (find "status" (
          message_of platform plain_homed device
            (merged platform plain_homed device device.endpoints []))
        ≡ as_json platform plain_homed device (last_common "status" device.endpoints))
publish_device_state-split_example =
    publish_device_state-split platform plain_homed device control "status"

-- A message for the endpoint 257 of the device goes to its endpoint 1.
mqtt_received-calls_example :
    Received.mqtt_received platform plain_homed [] "homed/td/esphome/lamp/257" control
    ≡ record control {
      manager =
          perform_all platform (calls_for platform plain_homed 0 device 1 (message_json [])) idle;
    }
unfolding Topics.mid Topics.text_length Topics.starts_with Topics.split_slash by_name find_name
mqtt_received-calls_example =
    mqtt_received-calls platform plain_homed [] "homed/td/esphome/lamp/257" "lamp" ("257" ∷ []) 0
      control refl refl refl (inl refl)

ha_safe_id-safe_example :
    (char_at 2 (Topics.ha_safe_id plain_qt "10.0.0.1") ≡ some "_")
    × (char_at 2 (Topics.ha_safe_id plain_qt (Topics.ha_safe_id plain_qt "10.0.0.1"))
        ≡ char_at 2 (Topics.ha_safe_id plain_qt "10.0.0.1"))
ha_safe_id-safe_example = ha_safe_id-safe plain_qt "10.0.0.1" 2
