-- ===== src/Manager/Routing.antt =====
-- Which connection a command reaches, and which device a connection is for.
use homed_service_esphome.Prelude.{
  ℕ, ◌≡◌, ◌≢◌, ◌⊎◌, ap, List, [], ◌∷◌, Option, none, some, arith, Option-cases, Bool-cases, inl,
  inr, not, ◌||◌, if◌then◌else◌,
}
use homed_service_esphome.Prelude.Text.{Text, text_eq, is_empty}
use homed_service_esphome.Prelude.Maps.{lookup, has, text_key, lookup-insert, lookup-remove, insert}
use homed_service_esphome.Device.{DeviceObject, Store, by_host, find_host}
use homed_service_esphome.Command.{Argument}
use homed_service_esphome.Connection.Session.{Platform, Connection, send_message, send_raw}
use homed_service_esphome.Connection.Events.{
  connect_to_device, send_command, disconnect_from_device,
}
use homed_service_esphome.Connection.Reach.{new_connection}
use homed_service_esphome.Manager.Hosts.{send_command-store, connect_to_device-store}
use homed_service_esphome.Manager.Refinement.{
  Call, connect_all, connect_device, disconnect_device, route_command, perform,
}
use homed_service_esphome.Manager

module _ (p : Platform) where
  send_message-device :
      (type : ℕ) (payload : List ℕ) (s : Connection p)
      → (send_message type payload s).device ≡ s.device
  unfolding send_message send_raw
  send_message-device type payload s = ground arith

  send_command-device :
      (id endpoint_id : ℕ) (action : Text) (value : Argument) (s : Connection p)
      → (send_command p id endpoint_id action value s).device ≡ s.device
  unfolding send_command
  send_command-device id endpoint_id action value s = grind (arith, send_message-device)

  connect_to_device-device : (s : Connection p) → (connect_to_device p s).device ≡ s.device
  unfolding connect_to_device
  connect_to_device-device s = ground arith

  -- What is left of the connection of `host`.
  abbrev pub commanded :
      (id endpoint_id : ℕ)
      → Text
      → Argument
      → Manager.Manager p
      → Option (Connection p)
      → Option (Connection p)
  commanded id endpoint_id action value m none = none
  commanded id endpoint_id action value m (some conn) =
      some (send_command p id endpoint_id action value (record conn { store = m.store }))

  -- The address at which a device's connection is kept: a device without a parent has it under its
  -- own host, a sub-device under its parent's address.
  abbrev pub HasAddress : DeviceObject p.qt.Double → Text → Type 0
  HasAddress d at =
      ((d.parent_address ≡ "") × (at ≡ d.host))
      ⊎ ((d.parent_address ≢ "") × (at ≡ d.parent_address))

  connection_host-address :
      (d : DeviceObject p.qt.Double) (at : Text)
      → HasAddress d at
      → Manager.connection_host p d ≡ at
  unfolding Manager.connection_host
  connection_host-address d at (inl (own, e)) =
      ground (arith, own, e, text_key.same_iff d.parent_address "")
  connection_host-address d at (inr (sub, e)) =
      ground (arith, sub, e, text_key.same_iff d.parent_address "")

  -- A command for a device without a parent goes to the connection of its host, and one for a
  -- sub-device to the connection of its parent's address, if there is one: that connection's
  -- sendCommand runs for the device itself. All other connections, the device objects and the deleted
  -- connections stay as they are.
  pub route_command-reaches :
      (id endpoint_id : ℕ) (action : Text) (value : Argument) (m : Manager.Manager p)
      (at host : Text)
      → HasAddress (m.store.objects id) at
      → (lookup host (Manager.route_command p id endpoint_id action value m).connections ≡ (
          if text_eq at host
          then commanded id endpoint_id action value m (lookup host m.connections)
          else lookup host m.connections))
        × ((Manager.route_command p id endpoint_id action value m).store ≡ m.store)
        × ((Manager.route_command p id endpoint_id action value m).deleted ≡ m.deleted)
  unfolding Manager.route_command Manager.call
  route_command-reaches id endpoint_id action value m at host addressed =
      let its = connection_host-address (m.store.objects id) at addressed in
      elim (Option-cases (lookup at m.connections)) [
        | inl e ↦ ground (arith, its, e, text_key.same_iff at host)
        | inr (conn, e) ↦
            let ran : Connection p =
              send_command p id endpoint_id action value (record conn { store = m.store }) in
            ground (
              arith,
              its,
              e,
              text_key.same_iff at host,
              lookup-insert at host ran m.connections,
              send_command-store p id endpoint_id action value (record conn { store = m.store }),
            )
      ]

  -- Each connection stands under the host of the device that it is for.
  abbrev pub IsRouted : Manager.Manager p → Type 0
  IsRouted m =
      (host : Text) (conn : Connection p)
      → lookup host m.connections ≡ some conn
      → (m.store.objects conn.device).host ≡ host

  find_host-host :
      (objects : ℕ → DeviceObject p.qt.Double) (host : Text) (ids : List ℕ) (id : ℕ)
      → find_host objects host ids ≡ some id
      → (objects id).host ≡ host
  unfolding find_host
  find_host-host objects host [] id e = absurd (ground (arith, e))
  find_host-host objects host (j ∷ ids) id e = elim (Bool-cases (text_eq (objects j).host host)) [
    | inl same ↦ ground (arith, same, e, text_key.same_iff (objects j).host host)
    | inr other ↦ find_host-host objects host ids id (ground (arith, other, e))
  ]

  -- Storing a connection under the host of its device keeps every connection in its place.
  stored-IsRouted :
      (at : Text) (conn : Connection p) (m : Manager.Manager p)
      → IsRouted m
      → conn.store ≡ m.store
      → (m.store.objects conn.device).host ≡ at
      → IsRouted (record m { store = conn.store; connections = insert at conn m.connections })
  stored-IsRouted at conn m routed same its_host host other found =
      elim (Bool-cases (text_eq at host)) [
        | inl e ↦ ground (
          arith,
          e,
          same,
          its_host,
          found,
          lookup-insert at host conn m.connections,
          text_key.same_iff at host,
        )
        | inr e ↦
            rw (ap (λ s. s.objects) same) (
              routed host other
                (ground (arith, e, found, lookup-insert at host conn m.connections)))
      ]

  by_host-host :
      (host : Text) (store : Store p.qt.Double) (id : ℕ)
      → by_host host store ≡ some id
      → (store.objects id).host ≡ host
  unfolding by_host
  by_host-host host store id e = find_host-host store.objects host store.listed id e

  open_connection-IsRouted :
      (at : Text) (m : Manager.Manager p) → IsRouted m → IsRouted (Manager.open_connection p at m)
  unfolding Manager.open_connection new_connection
  open_connection-IsRouted at m routed = elim (Option-cases (by_host at m.store)) [
    | inl e ↦ rw (Manager.open_connection, e) routed
    | inr (id, e) ↦
        rw (Manager.open_connection, e)
          (stored-IsRouted at (connect_to_device p (new_connection p id m.store)) m routed
            (connect_to_device-store p (new_connection p id m.store))
            (rw (connect_to_device-device (new_connection p id m.store))
              (by_host-host at m.store id e)))
  ]

  connect_device-IsRouted :
      (id : ℕ) (m : Manager.Manager p) → IsRouted m → IsRouted (Manager.connect_device p id m)
  unfolding Manager.connect_device
  connect_device-IsRouted id m routed =
      elim (Bool-cases (
        not (is_empty (Manager.device_at p id m).parent_address)
        || has (Manager.device_at p id m).host m.connections)) [
          | inl e ↦ rw e routed
          | inr e ↦ rw e (open_connection-IsRouted (Manager.device_at p id m).host m routed)
        ]

  connect_listed-IsRouted :
      (ids : List ℕ) (m : Manager.Manager p)
      → IsRouted m
      → IsRouted (Manager.connect_listed p ids m)
  unfolding Manager.connect_listed
  connect_listed-IsRouted [] m routed = routed
  connect_listed-IsRouted (id ∷ ids) m routed =
      connect_listed-IsRouted ids
        (if not (is_empty (Manager.device_at p id m).parent_address)
          then m
          else Manager.connect_device p id m)
        (elim (Bool-cases (not (is_empty (Manager.device_at p id m).parent_address))) [
          | inl e ↦ rw e routed
          | inr e ↦ rw e (connect_device-IsRouted id m routed)
        ])

  disconnect_device-IsRouted :
      (id : ℕ) (m : Manager.Manager p) → IsRouted m → IsRouted (Manager.disconnect_device p id m)
  unfolding Manager.disconnect_device disconnect_from_device
  disconnect_device-IsRouted id m routed =
      elim (Option-cases (lookup (Manager.device_at p id m).host m.connections)) [
        | inl e ↦ rw (Manager.disconnect_device, e) routed
        | inr (conn, e) ↦
            rw (Manager.disconnect_device, e)
              (λ host other found. routed host other (
                ground
                  (arith, found, lookup-remove (Manager.device_at p id m).host host m.connections)))
      ]

  route_command-IsRouted :
      (id endpoint_id : ℕ) (action : Text) (value : Argument) (m : Manager.Manager p)
      → IsRouted m
      → IsRouted (Manager.route_command p id endpoint_id action value m)
  unfolding Manager.route_command Manager.call
  route_command-IsRouted id endpoint_id action value m routed =
      let at : Text = Manager.connection_host p (Manager.device_at p id m) in
      elim (Option-cases (lookup at m.connections)) [
        | inl e ↦ rw (Manager.route_command, Manager.call, e) routed
        | inr (conn, e) ↦
            let before : Connection p = record conn { store = m.store } in
            rw (Manager.route_command, Manager.call, e)
              (stored-IsRouted at (send_command p id endpoint_id action value before) m routed
                (send_command-store p id endpoint_id action value before)
                (rw (send_command-device id endpoint_id action value before) (routed at conn e)))
      ]

  -- Every call of the manager keeps this: each connection stands under the host of the device that
  -- it is for.
  pub perform-IsRouted : (c : Call) (m : Manager.Manager p) → IsRouted m → IsRouted (perform p c m)
  unfolding perform Manager.connect_all
  perform-IsRouted connect_all m routed = connect_listed-IsRouted m.store.listed m routed
  perform-IsRouted (connect_device id) m routed = connect_device-IsRouted id m routed
  perform-IsRouted (disconnect_device id) m routed = disconnect_device-IsRouted id m routed
  perform-IsRouted (route_command id endpoint_id action value) m routed =
      route_command-IsRouted id endpoint_id action value m routed
