-- ===== src/Manager/Hosts.antt =====
-- What the manager's calls leave of the shared objects.
use homed_service_esphome.Prelude.{ℕ, ◌≡◌, List, arith, Option-cases, inl, inr}
use homed_service_esphome.Prelude.Text.{Text}
use homed_service_esphome.Prelude.Maps.{lookup, text_key}
use homed_service_esphome.Command.{Argument}
use homed_service_esphome.Connection.Session.{Platform, Connection, send_message, send_raw}
use homed_service_esphome.Connection.Events.{
  connect_to_device, disconnect_from_device, send_command,
}
use homed_service_esphome.Connection.Reach.{new_connection}
use homed_service_esphome.Manager

module _ (p : Platform) where
  pub connect_to_device-store : (s : Connection p) → (connect_to_device p s).store ≡ s.store
  unfolding connect_to_device
  connect_to_device-store s = ground arith

  pub send_message-store :
      (type : ℕ) (payload : List ℕ) (s : Connection p)
      → (send_message type payload s).store ≡ s.store
  unfolding send_message send_raw
  send_message-store type payload s = ground arith

  pub send_command-store :
      (id endpoint_id : ℕ) (action : Text) (value : Argument) (s : Connection p)
      → (send_command p id endpoint_id action value s).store ≡ s.store
  unfolding send_command
  send_command-store id endpoint_id action value s = grind (arith, send_message-store)

  pub connect_device-store :
      (id : ℕ) (m : Manager.Manager p) → (Manager.connect_device p id m).store ≡ m.store
  unfolding Manager.connect_device Manager.open_connection new_connection connect_to_device
  connect_device-store id m = ground arith

  pub disconnect_device-store :
      (id : ℕ) (m : Manager.Manager p) → (Manager.disconnect_device p id m).store ≡ m.store
  unfolding Manager.disconnect_device disconnect_from_device
  disconnect_device-store id m = ground arith

  call-store :
      (host : Text) (f : Connection p → Connection p) (m : Manager.Manager p)
      → ((s : Connection p) → (f s).store ≡ s.store)
      → (Manager.call p host f m).store ≡ m.store
  unfolding Manager.call
  call-store host f m keeps = elim (Option-cases (lookup host m.connections)) [
    | inl e ↦ ground (arith, e)
    | inr (conn, e) ↦ ground (arith, e, keeps (record conn { store = m.store }))
  ]

  pub route_command-store :
      (id endpoint_id : ℕ) (action : Text) (value : Argument) (m : Manager.Manager p)
      → (Manager.route_command p id endpoint_id action value m).store ≡ m.store
  unfolding Manager.route_command
  route_command-store id endpoint_id action value m =
      call-store (Manager.connection_host p (Manager.device_at p id m))
        (send_command p id endpoint_id action value) m
        (send_command-store id endpoint_id action value)
