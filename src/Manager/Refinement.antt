-- ===== src/Manager/Refinement.antt =====
-- EspHomeManager as a set of hosts: which connections exist after any calls of it.
use homed_service_esphome.Prelude.{
  ℕ, ◌≡◌, ap, ◌∙◌, Bool, true, false, List, [], ◌∷◌, Option, none, some, arith, Option-cases, inl,
  inr, not, ◌||◌, ◌&&◌, All, All-map, if◌then◌else◌,
}
use homed_service_esphome.Prelude.Text.{Text, text_eq, is_empty}
use homed_service_esphome.Prelude.Maps.{lookup, has, text_key, has-insert, has-remove}
use homed_service_esphome.Device.{DeviceObject, Store, by_host, find_host}
use homed_service_esphome.Command.{Argument}
use homed_service_esphome.Connection.Session.{Platform, Connection}
use homed_service_esphome.Connection.Events.{send_command, connect_to_device}
use homed_service_esphome.Manager.Hosts.{
  connect_device-store, disconnect_device-store, route_command-store,
}
use homed_service_esphome.Connection.Reach.{new_connection}
use homed_service_esphome.Manager

-- What the controller calls.
pub data Call : Type 0 where
  connect_all : Call
  connect_device disconnect_device : ℕ → Call
  route_command : (id endpoint_id : ℕ) → Text → Argument → Call

-- The hosts that have a connection.
abbrev pub Hosts : Type 0
Hosts = Text → Bool

abbrev is_some : Option ℕ → Bool
is_some none = false
is_some (some id) = true

module _ {Double : Type 0} where
  -- A device with a connection of its own adds its host.
  abbrev pub with_device : DeviceObject Double → Hosts → Hosts
  with_device d hosts host = (is_empty d.parent_address && text_eq d.host host) || hosts host

  abbrev pub with_devices : Store Double → List ℕ → Hosts → Hosts
  with_devices store [] hosts = hosts
  with_devices store (id ∷ ids) hosts =
      with_devices store ids (with_device (store.objects id) hosts)

  abbrev pub without_device : DeviceObject Double → Hosts → Hosts
  without_device d hosts host = not (text_eq d.host host) && hosts host

  abbrev pub allowed : Store Double → Call → Hosts → Hosts
  allowed store connect_all hosts = with_devices store store.listed hosts
  allowed store (connect_device id) hosts = with_device (store.objects id) hosts
  allowed store (disconnect_device id) hosts = without_device (store.objects id) hosts
  allowed store (route_command id endpoint_id action value) hosts = hosts

  abbrev pub allowed_all : Store Double → List Call → Hosts → Hosts
  allowed_all store [] hosts = hosts
  allowed_all store (c ∷ calls) hosts = allowed_all store calls (allowed store c hosts)

  abbrev pub knows : Store Double → Text → Bool
  knows store host = is_some (by_host host store)

  -- The call is for a device that the list has by its host.
  abbrev pub IsKnown : Store Double → Call → Type 0
  IsKnown store (connect_device id) = knows store (store.objects id).host ≡ true
  IsKnown store _ = Unit

  find_host-found :
      (objects : ℕ → DeviceObject Double) (ids : List ℕ)
      → All (λ id. is_some (find_host objects (objects id).host ids) ≡ true) ids
  unfolding find_host
  find_host-found objects [] = tt
  find_host-found objects (id ∷ ids) = (
    ground (arith, text_key.same_iff (objects id).host (objects id).host),
    All-map (λ j found. ground (arith, found)) ids (find_host-found objects ids),
  )

  -- A device in the list is found by its host.
  pub listed_known :
      (store : Store Double) → All (λ id. knows store (store.objects id).host ≡ true) store.listed
  unfolding by_host
  listed_known store = find_host-found store.objects store.listed

module _ (p : Platform) where
  unfoldable pub perform : Call → Manager.Manager p → Manager.Manager p
  perform connect_all m = Manager.connect_all p m
  perform (connect_device id) m = Manager.connect_device p id m
  perform (disconnect_device id) m = Manager.disconnect_device p id m
  perform (route_command id endpoint_id action value) m =
      Manager.route_command p id endpoint_id action value m

  unfoldable pub perform_all : List Call → Manager.Manager p → Manager.Manager p
  perform_all [] m = m
  perform_all (c ∷ calls) m = perform_all calls (perform c m)

  abbrev pub hosts_of : Manager.Manager p → Hosts
  hosts_of m host = has host m.connections

  open_connection-hosts :
      (at : Text) (m : Manager.Manager p) (host : Text)
      → knows m.store at ≡ true
      → (hosts_of (Manager.open_connection p at m) host ≡ (text_eq at host || hosts_of m host))
        × ((Manager.open_connection p at m).failed ≡ m.failed)
  unfolding Manager.open_connection
  open_connection-hosts at m host known = elim (Option-cases (by_host at m.store)) [
    | inl e ↦ absurd (ground (arith, e, known))
    | inr (found, e) ↦ ground (
      arith,
      e,
      has-insert at host (connect_to_device p (new_connection p found m.store)) m.connections,
    )
  ]

  pub connect_device-hosts :
      (id : ℕ) (m : Manager.Manager p) (host : Text)
      → knows m.store (m.store.objects id).host ≡ true
      → (hosts_of (Manager.connect_device p id m) host
          ≡ with_device (m.store.objects id) (hosts_of m) host)
        × ((Manager.connect_device p id m).failed ≡ m.failed)
  unfolding Manager.connect_device
  connect_device-hosts id m host known = ground (
    arith,
    open_connection-hosts (m.store.objects id).host m host known,
    text_key.same_iff (m.store.objects id).host host,
  )

  pub disconnect_device-hosts :
      (id : ℕ) (m : Manager.Manager p) (host : Text)
      → (hosts_of (Manager.disconnect_device p id m) host
          ≡ without_device (m.store.objects id) (hosts_of m) host)
        × ((Manager.disconnect_device p id m).failed ≡ m.failed)
  unfolding Manager.disconnect_device
  disconnect_device-hosts id m host = ground (
    arith,
    has-remove (m.store.objects id).host host m.connections,
    text_key.same_iff (m.store.objects id).host host,
  )

  call-hosts :
      (at : Text) (f : Connection p → Connection p) (m : Manager.Manager p) (host : Text)
      → (hosts_of (Manager.call p at f m) host ≡ hosts_of m host)
        × ((Manager.call p at f m).failed ≡ m.failed)
  unfolding Manager.call
  call-hosts at f m host = elim (Option-cases (lookup at m.connections)) [
    | inl e ↦ ground (arith, e)
    | inr (conn, e) ↦ ground (
      arith,
      e,
      has-insert at host (f (record conn { store = m.store })) m.connections,
      text_key.same_iff at host,
    )
  ]

  pub route_command-hosts :
      (id endpoint_id : ℕ) (action : Text) (value : Argument) (m : Manager.Manager p) (host : Text)
      → (hosts_of (Manager.route_command p id endpoint_id action value m) host ≡ hosts_of m host)
        × ((Manager.route_command p id endpoint_id action value m).failed ≡ m.failed)
  unfolding Manager.route_command
  route_command-hosts id endpoint_id action value m host =
      call-hosts (Manager.connection_host p (Manager.device_at p id m))
        (send_command p id endpoint_id action value) m host

  -- The manager stands for the set `hosts`, over these device objects.
  abbrev pub Refines : Store p.qt.Double → Hosts → Manager.Manager p → Type 0
  Refines store hosts m =
      (m.store ≡ store) × (m.failed ≡ false) × ((host : Text) → hosts_of m host ≡ hosts host)

  connect_device-Refines :
      (store : Store p.qt.Double) (hosts : Hosts) (m : Manager.Manager p) (id : ℕ)
      → Refines store hosts m
      → knows store (store.objects id).host ≡ true
      → Refines store (with_device (store.objects id) hosts) (Manager.connect_device p id m)
  connect_device-Refines store hosts m id (same, runs, agree) known = (
    connect_device-store p id m ∙ same,
    (connect_device-hosts id m "" (rw same known)).1 ∙ runs,
    λ host. ground (arith, same, agree host, connect_device-hosts id m host (rw same known)),
  )

  disconnect_device-Refines :
      (store : Store p.qt.Double) (hosts : Hosts) (m : Manager.Manager p) (id : ℕ)
      → Refines store hosts m
      → Refines store (without_device (store.objects id) hosts) (Manager.disconnect_device p id m)
  disconnect_device-Refines store hosts m id (same, runs, agree) = (
    disconnect_device-store p id m ∙ same,
    (disconnect_device-hosts id m "").1 ∙ runs,
    λ host. ground (arith, same, agree host, disconnect_device-hosts id m host),
  )

  route_command-Refines :
      (store : Store p.qt.Double) (hosts : Hosts) (m : Manager.Manager p) (id endpoint_id : ℕ)
      (action : Text) (value : Argument)
      → Refines store hosts m
      → Refines store hosts (Manager.route_command p id endpoint_id action value m)
  route_command-Refines store hosts m id endpoint_id action value (same, runs, agree) = (
    route_command-store p id endpoint_id action value m ∙ same,
    (route_command-hosts id endpoint_id action value m "").1 ∙ runs,
    λ host. (route_command-hosts id endpoint_id action value m host).0 ∙ agree host,
  )

  -- Skipping a sub-device and calling connectDevice for it come to the same.
  connect_step-same :
      (id : ℕ) (m : Manager.Manager p)
      → (if not (is_empty (Manager.device_at p id m).parent_address)
          then m
          else Manager.connect_device p id m)
        ≡ Manager.connect_device p id m
  unfolding Manager.connect_device
  connect_step-same id m = ground arith

  connect_listed-Refines :
      (store : Store p.qt.Double) (ids : List ℕ) (hosts : Hosts) (m : Manager.Manager p)
      → Refines store hosts m
      → All (λ id. knows store (store.objects id).host ≡ true) ids
      → Refines store (with_devices store ids hosts) (Manager.connect_listed p ids m)
  unfolding Manager.connect_listed
  connect_listed-Refines store [] hosts m r known = r
  connect_listed-Refines store (id ∷ ids) hosts m r (first, known) =
      connect_listed-Refines store ids (with_device (store.objects id) hosts)
        (if not (is_empty (Manager.device_at p id m).parent_address)
          then m
          else Manager.connect_device p id m)
        (rw (connect_step-same id m) (connect_device-Refines store hosts m id r first)) known

  connect_all-Refines :
      (store : Store p.qt.Double) (ids : List ℕ) (hosts : Hosts) (m : Manager.Manager p)
      → Refines store hosts m
      → ids ≡ store.listed
      → Refines store (with_devices store store.listed hosts) (Manager.connect_listed p ids m)
  connect_all-Refines store ids hosts m r e =
      rw e (connect_listed-Refines store store.listed hosts m r (listed_known store))

  perform-Refines :
      (store : Store p.qt.Double) (c : Call) (hosts : Hosts) (m : Manager.Manager p)
      → Refines store hosts m
      → IsKnown store c
      → Refines store (allowed store c hosts) (perform c m)
  unfolding perform Manager.connect_all
  perform-Refines store connect_all hosts m (same, runs, agree) known =
      connect_all-Refines store m.store.listed hosts m (same, runs, agree) (ap (λ s. s.listed) same)
  perform-Refines store (connect_device id) hosts m r known =
      connect_device-Refines store hosts m id r known
  perform-Refines store (disconnect_device id) hosts m r known =
      disconnect_device-Refines store hosts m id r
  perform-Refines store (route_command id endpoint_id action value) hosts m r known =
      route_command-Refines store hosts m id endpoint_id action value r

  -- Whatever the controller calls, for devices in the list: the manager never uses a null device, the
  -- device objects stay as they are, and the hosts that have a connection are those that the calls
  -- say, one after the other. A call that connects adds the host of a device without a parent, a
  -- call that disconnects takes a device's host away, a command changes nothing.
  pub perform_all-Refines :
      (store : Store p.qt.Double) (calls : List Call) (hosts : Hosts) (m : Manager.Manager p)
      → Refines store hosts m
      → All (IsKnown store) calls
      → Refines store (allowed_all store calls hosts) (perform_all calls m)
  unfolding perform_all
  perform_all-Refines store [] hosts m r known = r
  perform_all-Refines store (c ∷ calls) hosts m r (first, known) =
      perform_all-Refines store calls (allowed store c hosts) (perform c m)
        (perform-Refines store c hosts m r first) known
