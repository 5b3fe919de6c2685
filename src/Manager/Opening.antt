-- ===== src/Manager/Opening.antt =====
-- The connection that connectDevice opens.
use homed_service_esphome.Prelude.{ℕ, ◌≡◌, refl, ap, ◌∙◌, false, [], ◌∷◌, some}
use homed_service_esphome.Prelude.Text.{Text}
use homed_service_esphome.Prelude.Maps.{text_key, insert}
use homed_service_esphome.Device.{Store, by_host}
use homed_service_esphome.Connection.Session.{Platform, Connection, connecting, connect_to_host}
use homed_service_esphome.Connection.Events.{connect_to_device}
use homed_service_esphome.Connection.Reach.{new_connection}
use homed_service_esphome.Manager
use homed_service_esphome.Manager.Refinement.{hosts_of}

module _ (p : Platform) where
  abbrev pub opened : ℕ → Store p.qt.Double → Connection p
  opened id store = connect_to_device p (new_connection p id store)

  -- Such a connection is connecting; all that it has done is to call connectToHost.
  pub opened_connects :
      (id : ℕ) (store : Store p.qt.Double)
      → ((opened id store).store ≡ store)
        × ((opened id store).device ≡ id)
        × ((opened id store).state ≡ connecting)
        × ((opened id store).out
            ≡ connect_to_host (store.objects id).host (store.objects id).port ∷ [])
  unfolding connect_to_device new_connection
  opened_connects id store = (refl, refl, refl, refl)

  abbrev pub with_opened : Text → ℕ → Manager.Manager p → Manager.Manager p
  with_opened host found m = record m {
    store = (opened found m.store).store;
    connections = insert host (opened found m.store) m.connections;
  }

  -- connectDevice for a device without a parent and without a connection.
  pub connect_device-opens :
      (id : ℕ) (host : Text) (found : ℕ) (m : Manager.Manager p)
      → (Manager.device_at p id m).parent_address ≡ ""
      → (Manager.device_at p id m).host ≡ host
      → hosts_of p m host ≡ false
      → by_host host m.store ≡ some found
      → Manager.connect_device p id m ≡ with_opened host found m
  unfolding Manager.connect_device Manager.open_connection
  connect_device-opens id host found m no_parent its_host unconnected e =
      let no_connection : hosts_of p m (Manager.device_at p id m).host ≡ false =
        rw its_host unconnected in
      rw (Manager.connect_device, no_parent, no_connection) refl
      ∙ (ap (λ at. Manager.open_connection p at m) its_host ∙ rw (Manager.open_connection, e) refl)
