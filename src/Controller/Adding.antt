-- ===== src/Controller/Adding.antt =====
-- addDevice: what it refuses, and what it leaves of the list and of the connections.
use homed_service_esphome.Prelude.{
  ℕ, ◌≡◌, ◌<◌, refl, ap, ◌∙◌, true, false, List, [], ◌∷◌, ◌++◌, none, some, Bytes, arith, ◌^◌, ◌%◌,
  Bool-cases, ◌⊎◌, inl, inr, All, ◌==◌, length, if◌then◌else◌,
}
use homed_service_esphome.Prelude.Text.{Text, text_eq, is_empty}
use homed_service_esphome.Prelude.Maps.{text_key, lookup, lookup-insert_self}
use homed_service_esphome.Variant.{Entries, text_at, value_at}
use homed_service_esphome.Device.{DeviceObject, Store, by_host, find_host, append_device}
use homed_service_esphome.Connection.Session.{Platform, Connection, connecting, connect_to_host}
use homed_service_esphome.Manager
use homed_service_esphome.Manager.Refinement.{knows, hosts_of}
use homed_service_esphome.Controller.Homed.{Homed, Control, device_of, listed_of}
use homed_service_esphome.Controller.Publishing
use homed_service_esphome.Controller.Commands
use homed_service_esphome.Controller.Received
use homed_service_esphome.Controller.Sound.{IsSound}
use homed_service_esphome.Manager.Opening.{
  opened, with_opened, opened_connects, connect_device-opens,
}

module _ {Double : Type 0} where
  -- What byHost finds after an append.
  find_host-append :
      (objects : ℕ → DeviceObject Double) (d : DeviceObject Double) (id : ℕ) (ids : List ℕ)
      → find_host objects d.host ids ≡ none
      → All (λ j. j < id) ids
      → find_host (λ j. if id == j then d else objects j) d.host (ids ++ (id ∷ [])) ≡ some id
  unfolding find_host
  find_host-append objects d id [] e below = ground (arith, text_key.same_iff d.host d.host)
  find_host-append objects d id (j ∷ ids) e (first, below) =
      elim (Bool-cases (text_eq (objects j).host d.host)) [
        | inl same ↦ absurd (ground (arith, same, e))
        | inr other ↦
            let rest : find_host (λ j. if id == j then d else objects j) d.host (ids ++ (id ∷ []))
                ≡ some id =
              find_host-append objects d id ids (ground (arith, other, e)) below in
            ground (arith, first, other, rest)
      ]

  by_host-append_device :
      (d : DeviceObject Double) (store : Store Double)
      → by_host d.host store ≡ none
      → All (λ j. j < store.fresh) store.listed
      → by_host d.host (append_device d store) ≡ some store.fresh
  unfolding by_host append_device
  by_host-append_device d store absent below =
      find_host-append store.objects d store.fresh store.listed absent below

module _ (p : Platform) (homed : Homed p.qt) (message : Bytes) (topic : Text) where
  abbrev json : Entries p.qt.Double
  json = homed.from_json message

  received_add_device :
      (s : Control p)
      → Received.is_command p homed topic ≡ true
      → homed.enum_key (text_at "action" json) ≡ "addDevice"
      → Received.mqtt_received p homed message topic s ≡ Commands.add_device p homed json s
  unfolding Received.mqtt_received Commands.service_command
  received_add_device s is_command is_add =
      rw (Received.mqtt_received, is_command, Commands.service_command, is_add) refl

  -- addDevice without a host or a key, with a key that is not 32 bytes long, or for a host that a
  -- device of the list has: nothing changes, and nothing is published.
  pub add_device-refused :
      (s : Control p)
      → Received.is_command p homed topic ≡ true
      → homed.enum_key (text_at "action" json) ≡ "addDevice"
      → ((is_empty (text_at "host" json) ≡ true)
          ⊎ ((is_empty (text_at "key" json) ≡ true)
              ⊎ (((length (homed.from_base64 (text_at "key" json)) == 32) ≡ false)
                  ⊎ (knows s.manager.store (text_at "host" json) ≡ true))))
      → Received.mqtt_received p homed message topic s ≡ s
  unfolding Commands.add_device Commands.add_unknown
  add_device-refused s is_command is_add reason =
      received_add_device s is_command is_add ∙ elim reason [
        | inl no_host ↦ ground (arith, no_host)
        | inr (inl no_key) ↦ ground (arith, no_key)
        | inr (inr (inl size)) ↦ ground (arith, size)
        | inr (inr (inr known)) ↦ ground (arith, known)
      ]

  abbrev device_name : Text
  device_name =
      if is_empty (p.qt.mqtt_safe (text_at "name" json))
      then p.qt.mqtt_safe (text_at "host" json)
      else p.qt.mqtt_safe (text_at "name" json)

  abbrev device_port : ℕ
  device_port = homed.to_int 6053 (value_at "port" json) % 2 ^ 16

  -- The new device is the one that byHost finds for the host; it is the last of the list, under the
  -- name that was wished for or the host; it has a connection that is connecting; and the database
  -- will be written.
  pub record IsAdded (s s' : Control p) : Type 0 where
    pub found : by_host (text_at "host" json) s'.manager.store ≡ some s.manager.store.fresh
    pub listed : listed_of s' ≡ listed_of s ++ (s.manager.store.fresh ∷ [])
    pub named : (device_of s.manager.store.fresh s').name ≡ device_name
    pub stored : s'.database_timer ≡ true
    pub connection : Connection p
    pub connected : lookup (text_at "host" json) s'.manager.connections ≡ some connection
    pub for_device : connection.device ≡ s.manager.store.fresh
    pub connects : connection.state ≡ connecting
    pub calls : connection.out ≡ connect_to_host (text_at "host" json) device_port ∷ []

  abbrev added_device : DeviceObject p.qt.Double
  added_device =
      Commands.new_device p homed device_name (text_at "host" json) device_port
        (homed.from_base64 (text_at "key" json)) json

  -- The manager, when addDevice calls connectDevice.
  abbrev with_added : Manager.Manager p → Manager.Manager p
  with_added m = record m { store = append_device added_device m.store }

  added-listed :
      (m : Manager.Manager p)
      → (append_device added_device m.store).listed ≡ m.store.listed ++ (m.store.fresh ∷ [])
  unfolding append_device
  added-listed m = refl

  by_host-added :
      (m : Manager.Manager p)
      → by_host (text_at "host" json) m.store ≡ none
      → All (λ j. j < m.store.fresh) m.store.listed
      → by_host (text_at "host" json) (append_device added_device m.store) ≡ some m.store.fresh
  unfolding Commands.new_device
  by_host-added m absent below = by_host-append_device added_device m.store absent below

  abbrev added : Control p → Control p
  added s =
      Commands.add_checked p homed (text_at "host" json) device_port device_name
        (homed.from_base64 (text_at "key" json)) json s

  added-manager :
      (s : Control p)
      → (added s).manager ≡ Manager.connect_device p s.manager.store.fresh (with_added s.manager)
  unfolding Commands.add_checked Publishing.publish_service_status
  added-manager s = refl

  added-stored : (s : Control p) → (added s).database_timer ≡ true
  unfolding Commands.add_checked Publishing.publish_service_status
  added-stored s = refl

  add_device-checked :
      (s : Control p)
      → is_empty (text_at "host" json) ≡ false
      → is_empty (text_at "key" json) ≡ false
      → (length (homed.from_base64 (text_at "key" json)) == 32) ≡ true
      → by_host (text_at "host" json) s.manager.store ≡ none
      → Commands.add_device p homed json s ≡ added s
  unfolding Commands.add_device Commands.add_unknown
  add_device-checked s has_host has_key size absent =
      rw (Commands.add_device, has_host, has_key, size, Commands.add_unknown, absent) refl

  added-host :
      (m : Manager.Manager p)
      → (Manager.device_at p m.store.fresh (with_added m)).host ≡ text_at "host" json
  unfolding append_device Commands.new_device
  added-host m = ground arith

  added-name :
      (m : Manager.Manager p)
      → (Manager.device_at p m.store.fresh (with_added m)).name ≡ device_name
  unfolding append_device Commands.new_device
  added-name m = ground arith

  added-parent :
      (m : Manager.Manager p)
      → (Manager.device_at p m.store.fresh (with_added m)).parent_address ≡ ""
  unfolding append_device Commands.new_device
  added-parent m = ground arith

  added-port :
      (m : Manager.Manager p)
      → (Manager.device_at p m.store.fresh (with_added m)).port ≡ device_port
  unfolding append_device Commands.new_device
  added-port m = ground arith

  -- addDevice on the topic of commands, with a host that no device and no connection has, and with
  -- a key of 32 bytes, adds the device: IsAdded.
  pub add_device-IsAdded :
      (s : Control p)
      → IsSound p s.manager
      → Received.is_command p homed topic ≡ true
      → homed.enum_key (text_at "action" json) ≡ "addDevice"
      → is_empty (text_at "host" json) ≡ false
      → is_empty (text_at "key" json) ≡ false
      → (length (homed.from_base64 (text_at "key" json)) == 32) ≡ true
      → by_host (text_at "host" json) s.manager.store ≡ none
      → hosts_of p s.manager (text_at "host" json) ≡ false
      → IsAdded s (Received.mqtt_received p homed message topic s)
  add_device-IsAdded s sound is_command is_add has_host has_key size absent unconnected =
      let m : Manager.Manager p = s.manager in
      let s' : Control p = Received.mqtt_received p homed message topic s in
      let checked : s' ≡ added s =
        received_add_device s is_command is_add
        ∙ add_device-checked s has_host has_key size absent in
      let manager_eq : s'.manager
          ≡ with_opened p (text_at "host" json) m.store.fresh (with_added m) =
        ap (λ t. t.manager) checked
        ∙ (added-manager s
            ∙ connect_device-opens p m.store.fresh (text_at "host" json) m.store.fresh
                (with_added m) (added-parent m) (added-host m) unconnected
                (by_host-added m absent sound.is_proper.are_old)) in
      let opening : _ = opened_connects p m.store.fresh (append_device added_device m.store) in
      let store_eq : s'.manager.store ≡ append_device added_device m.store =
        ap (λ n. n.store) manager_eq ∙ opening.0 in
      record {
        found =
            ap (λ store. by_host (text_at "host" json) store) store_eq
            ∙ by_host-added m absent sound.is_proper.are_old;
        listed = ap (λ store. store.listed) store_eq ∙ added-listed m;
        named = ap (λ store. (store.objects m.store.fresh).name) store_eq ∙ added-name m;
        stored = ap (λ t. t.database_timer) checked ∙ added-stored s;
        connection = opened p m.store.fresh (append_device added_device m.store);
        connected =
            ap (λ n. lookup (text_at "host" json) n.connections) manager_eq
            ∙ lookup-insert_self (text_at "host" json)
                (opened p m.store.fresh (append_device added_device m.store)) m.connections;
        for_device = opening.1;
        connects = opening.2;
        calls = opening.3 ∙ rw (added-host m, added-port m) refl;
      }
