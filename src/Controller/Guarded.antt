-- ===== src/Controller/Guarded.antt =====
-- The connections under the manager's calls and under events: their Noise objects and ping timers.
use homed_service_esphome.Prelude.{
  ℕ, ◌≡◌, refl, List, [], ◌∷◌, some, arith, Option-cases, Bool-cases, inl, inr, if_keeps, not, ◌||◌,
}
use homed_service_esphome.Prelude.Text.{Text, text_eq, is_empty}
use homed_service_esphome.Prelude.Maps.{
  Map, lookup, has, insert, remove, text_key, lookup-insert, lookup-remove,
}
use homed_service_esphome.Device.{by_host}
use homed_service_esphome.Command.{Argument}
use homed_service_esphome.Connection.Session.{Platform, Connection}
use homed_service_esphome.Connection.Events.{Event, handle, connect_to_device}
use homed_service_esphome.Connection.Reach.{new_connection}
use homed_service_esphome.Connection.Ready.{IsGuarded, handle-IsGuarded}
use homed_service_esphome.Manager

module _ (p : Platform) where
  abbrev pub AreGuarded : Map Text (Connection p) → Type 0
  AreGuarded connections =
      (host : Text) (conn : Connection p) → lookup host connections ≡ some conn → IsGuarded p conn

  insert-AreGuarded :
      (at : Text) (conn : Connection p) (connections : Map Text (Connection p))
      → AreGuarded connections
      → IsGuarded p conn
      → AreGuarded (insert at conn connections)
  insert-AreGuarded at conn connections h this host other found =
      elim (Bool-cases (text_eq at host)) [
        | inl e ↦ ground (arith, e, found, this, lookup-insert at host conn connections)
        | inr e ↦ h host other (ground (arith, e, found, lookup-insert at host conn connections))
      ]

  remove-AreGuarded :
      (at : Text) (connections : Map Text (Connection p))
      → AreGuarded connections
      → AreGuarded (remove at connections)
  remove-AreGuarded at connections h host other found =
      h host other (ground (arith, found, lookup-remove at host connections))

  pub call-AreGuarded :
      (host : Text) (e : Event) (m : Manager.Manager p)
      → AreGuarded m.connections
      → AreGuarded (Manager.call p host (handle p e) m).connections
  unfolding Manager.call
  call-AreGuarded host e m h = elim (Option-cases (lookup host m.connections)) [
    | inl none_eq ↦ rw (Manager.call, none_eq) h
    | inr (conn, some_eq) ↦
        rw (Manager.call, some_eq)
          (insert-AreGuarded host (handle p e (record conn { store = m.store })) m.connections h
            (handle-IsGuarded p e (record conn { store = m.store }) (h host conn some_eq)))
  ]

  pub connect_device-AreGuarded :
      (id : ℕ) (m : Manager.Manager p)
      → AreGuarded m.connections
      → AreGuarded (Manager.connect_device p id m).connections
  unfolding Manager.connect_device Manager.open_connection new_connection handle
  connect_device-AreGuarded id m h =
      let at : Text = (Manager.device_at p id m).host in
      if_keeps (λ (n : Manager.Manager p). AreGuarded n.connections)
        (not (is_empty (Manager.device_at p id m).parent_address) || has at m.connections) h
        (elim (Option-cases (by_host at m.store)) [
          | inl e ↦ rw (Manager.open_connection, e) h
          | inr (found, e) ↦
              rw (Manager.open_connection, e)
                (insert-AreGuarded at (connect_to_device p (new_connection p found m.store))
                  m.connections h
                  (handle-IsGuarded p Event.connect_call (new_connection p found m.store) refl))
        ])

  pub connect_listed-AreGuarded :
      (ids : List ℕ) (m : Manager.Manager p)
      → AreGuarded m.connections
      → AreGuarded (Manager.connect_listed p ids m).connections
  unfolding Manager.connect_listed
  connect_listed-AreGuarded [] m h = h
  connect_listed-AreGuarded (id ∷ ids) m h = connect_listed-AreGuarded ids _ (
      if_keeps (λ (n : Manager.Manager p). AreGuarded n.connections)
        (not (is_empty (Manager.device_at p id m).parent_address)) h
        (connect_device-AreGuarded id m h))

  pub disconnect_device-AreGuarded :
      (id : ℕ) (m : Manager.Manager p)
      → AreGuarded m.connections
      → AreGuarded (Manager.disconnect_device p id m).connections
  unfolding Manager.disconnect_device
  disconnect_device-AreGuarded id m h =
      elim (Option-cases (lookup (Manager.device_at p id m).host m.connections)) [
        | inl e ↦ rw (Manager.disconnect_device, e) h
        | inr (conn, e) ↦
            rw (Manager.disconnect_device, e)
              (remove-AreGuarded (Manager.device_at p id m).host m.connections h)
      ]

  pub route_command-AreGuarded :
      (id endpoint_id : ℕ) (action : Text) (value : Argument) (m : Manager.Manager p)
      → AreGuarded m.connections
      → AreGuarded (Manager.route_command p id endpoint_id action value m).connections
  unfolding Manager.route_command handle
  route_command-AreGuarded id endpoint_id action value m h =
      call-AreGuarded (Manager.connection_host p (Manager.device_at p id m))
        (Event.command_call id endpoint_id action value) m h
