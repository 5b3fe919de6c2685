-- ===== src/Manager.antt =====
-- esphome.h and esphome.cpp: EspHomeManager, the connections by the host of their device. The device
-- objects are shared: a connection that runs works on the manager's Store, and hands it back.
pub mod Hosts
pub mod Refinement
pub mod Routing
pub mod Opening
use homed_service_esphome.Prelude.{
  ℕ, Bool, true, false, List, [], ◌∷◌, ◌++◌, Option, none, some, not, ◌||◌, if◌then◌else◌,
}
use homed_service_esphome.Prelude.Text.{Text, is_empty}
use homed_service_esphome.Prelude.Maps.{Map, lookup, insert, remove, has, text_key}
use homed_service_esphome.Device.{DeviceObject, Store, by_host}
use homed_service_esphome.Command.{Argument}
use homed_service_esphome.Connection.Session.{Platform, Connection}
use homed_service_esphome.Connection.Events.{
  connect_to_device, disconnect_from_device, send_command,
}
use homed_service_esphome.Connection.Reach.{new_connection}

-- `deleted`: the connections that were deleted, with what they did until then. `failed`: a null
-- device was used; nothing is known of the program after that.
pub record Manager (p : Platform) : Type 0 where
  pub store : Store p.qt.Double
  pub connections : Map Text (Connection p)
  pub deleted : List (Connection p)
  pub failed : Bool

module _ (p : Platform) where
  abbrev pub device_at : ℕ → Manager p → DeviceObject p.qt.Double
  device_at id m = m.store.objects id

  -- A call of the connection of `host`, if there is one.
  unfoldable pub call : Text → (Connection p → Connection p) → Manager p → Manager p
  call host f m = elim (lookup host m.connections) [
    | none ↦ m
    | some conn ↦
        let conn' = f (record conn { store = m.store }) in
        record m { store = conn'.store; connections = insert host conn' m.connections }
  ]

  -- The device that the connection gets is the first one in the list with this host.
  unfoldable pub open_connection : Text → Manager p → Manager p
  open_connection host m = elim (by_host host m.store) [
    | none ↦ record m { failed = true }
    | some found ↦
        let conn = connect_to_device p (new_connection p found m.store) in
        record m { store = conn.store; connections = insert host conn m.connections }
  ]

  unfoldable pub connect_device : ℕ → Manager p → Manager p
  connect_device id m =
      if not (is_empty (device_at id m).parent_address) || has (device_at id m).host m.connections
      then m
      else open_connection (device_at id m).host m

  unfoldable pub connect_listed : List ℕ → Manager p → Manager p
  connect_listed [] m = m
  connect_listed (id ∷ ids) m =
      connect_listed ids
        (if not (is_empty (device_at id m).parent_address) then m else connect_device id m)

  unfoldable pub connect_all : Manager p → Manager p
  connect_all m = connect_listed m.store.listed m

  unfoldable pub disconnect_device : ℕ → Manager p → Manager p
  disconnect_device id m = elim (lookup (device_at id m).host m.connections) [
    | none ↦ m
    | some conn ↦
        let conn' = disconnect_from_device p (record conn { store = m.store }) in
        record m {
          store = conn'.store;
          connections = remove (device_at id m).host m.connections;
          deleted = m.deleted ++ (conn' ∷ []);
        }
  ]

  -- `connHost`
  unfoldable pub connection_host : DeviceObject p.qt.Double → Text
  connection_host d = if is_empty d.parent_address then d.host else d.parent_address

  -- EspHomeManager::sendCommand
  unfoldable pub route_command : (id endpoint_id : ℕ) → Text → Argument → Manager p → Manager p
  route_command id endpoint_id action value m =
      call (connection_host (device_at id m)) (send_command p id endpoint_id action value) m

-- The constructor.
unfoldable pub new_manager : (p : Platform) → Store p.qt.Double → Manager p
new_manager p store = record { store = store; connections = []; deleted = []; failed = false }
