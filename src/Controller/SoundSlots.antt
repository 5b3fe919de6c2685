-- ===== src/Controller/SoundSlots.antt =====
-- What the Controller's slots and the events of the connections keep.
use homed_service_esphome.Prelude.{
  ℕ, ◌+◌, zero, suc, ◌≡◌, refl, false, List, [], ◌∷◌, length, Option-cases, inl, inr, if_keeps,
}
use homed_service_esphome.Prelude.Text.{Text}
use homed_service_esphome.Prelude.Maps.{lookup, text_key}
use homed_service_esphome.Device.{DeviceObject, Store}
use homed_service_esphome.Connection.Session.{Platform}
use homed_service_esphome.Connection.Events.{Event, handle}
use homed_service_esphome.Manager
use homed_service_esphome.Manager.Refinement.{
  connect_all, perform_all, perform, hosts_of, perform_all-Refines,
}
use homed_service_esphome.Controller.Homed.{
  Homed, Control, subscribe, put_out, device_of, listed_of,
}
use homed_service_esphome.Controller.Topics
use homed_service_esphome.Controller.Publishing
use homed_service_esphome.Controller.Commands
use homed_service_esphome.Controller.Slots
use homed_service_esphome.Controller.Quiet.{publish_exposes-manager}
use homed_service_esphome.Controller.Registry.{IsProper, IsProper-modify}
use homed_service_esphome.Controller.Enlisted.{handle-IsEnlisted}
use homed_service_esphome.Controller.Sound.{IsSound}

module _ (p : Platform) (homed : Homed p.qt) where
  abbrev Keeps : Control p → Type 0
  Keeps s = IsSound p s.manager

  pub call-IsSound :
      (host : Text) (e : Event) (m : Manager.Manager p)
      → IsSound p m
      → IsSound p (Manager.call p host (handle p e) m)
  unfolding Manager.call
  call-IsSound host e m sound = elim (Option-cases (lookup host m.connections)) [
    | inl none_eq ↦ rw (Manager.call, none_eq) sound
    | inr (conn, some_eq) ↦
        rw (Manager.call, some_eq)
          (record {
            is_proper = handle-IsEnlisted p e (record conn { store = m.store }) sound.is_proper;
            runs = sound.runs;
          })
  ]

  pub clear_numbered-manager :
      (d : DeviceObject p.qt.Double) (count from : ℕ) (s : Control p)
      → (Publishing.clear_numbered p homed d count from s).manager ≡ s.manager
  unfolding Publishing.clear_numbered
  clear_numbered-manager d zero from s = refl
  clear_numbered-manager d (suc count) from s = clear_numbered-manager d count (from + 1) _

  pub clear_keys-manager :
      (d : DeviceObject p.qt.Double) (keys : List Text) (s : Control p)
      → (Publishing.clear_keys p homed d keys s).manager ≡ s.manager
  unfolding Publishing.clear_keys
  clear_keys-manager d [] s = refl
  clear_keys-manager d (key ∷ keys) s = clear_keys-manager d keys _

  clear_stale_topics-IsSound :
      (id : ℕ) (s : Control p)
      → IsSound p s.manager
      → IsSound p (Publishing.clear_stale_topics p homed id s).manager
  unfolding Publishing.clear_stale_topics
  clear_stale_topics-IsSound id s sound =
      elim (device_of id s).published_endpoints
        as (λ keys. Keeps (elim keys [
          | [] ↦
              Publishing.clear_numbered p homed (device_of id s) (length (device_of id s).endpoints)
                1 s
          | key ∷ keys ↦
              Publishing.update_object p homed id (λ e. record e { published_endpoints = [] })
                (Publishing.clear_keys p homed (device_of id s) (key ∷ keys) s)
        ])) [
          | [] ↦
              rw (clear_numbered-manager (device_of id s) (length (device_of id s).endpoints) 1 s)
                sound
          | key ∷ keys ↦ rw (clear_keys-manager (device_of id s) (key ∷ keys) s) (record {
            is_proper =
                IsProper-modify id (λ e. record e { published_endpoints = [] }) s.manager.store
                  (λ d. refl) sound.is_proper;
            runs = sound.runs;
          })
        ]

  publish_all-IsSound :
      (ids : List ℕ) (s : Control p)
      → IsSound p s.manager
      → IsSound p (Slots.publish_all p homed ids s).manager
  unfolding Slots.publish_all
  publish_all-IsSound [] s sound = sound
  publish_all-IsSound (id ∷ ids) s sound =
      let cleared : Control p = Publishing.clear_stale_topics p homed id s in
      publish_all-IsSound ids
        (Publishing.publish_exposes p homed (device_of id cleared) false cleared)
        (rw (publish_exposes-manager p homed (device_of id cleared) false cleared)
          (clear_stale_topics-IsSound id s sound))

  pub publish_statuses-manager :
      (ids : List ℕ) (s : Control p) → (Slots.publish_statuses p homed ids s).manager ≡ s.manager
  unfolding Slots.publish_statuses Publishing.publish_device_status
  publish_statuses-manager [] s = refl
  publish_statuses-manager (id ∷ ids) s = publish_statuses-manager ids _

  pub mqtt_connected-IsSound :
      (s : Control p) → IsSound p s.manager → IsSound p (Slots.mqtt_connected p homed s).manager
  unfolding Slots.mqtt_connected Slots.greet_ha Publishing.publish_service_status
  mqtt_connected-IsSound s sound =
      let subscribed : Control p =
        put_out (subscribe (Topics.topic_of p.qt homed "td" "#"))
          (put_out (subscribe (Topics.service_kind p.qt homed "command")) s) in
      let all : Control p = Slots.publish_all p homed (listed_of s) subscribed in
      rw (publish_statuses-manager (listed_of s) (Slots.greet_ha p homed all)) (
        if_keeps Keeps homed.ha_enabled (publish_all-IsSound (listed_of s) subscribed sound)
          (publish_all-IsSound (listed_of s) subscribed sound))

  pub entities_discovered-IsSound :
      (id : ℕ) (s : Control p)
      → IsSound p s.manager
      → IsSound p (Slots.entities_discovered p homed id s).manager
  unfolding Slots.entities_discovered Publishing.publish_service_status
      Publishing.publish_device_status
  entities_discovered-IsSound id s sound =
      let cleared : Control p =
        Publishing.clear_stale_topics p homed id (Commands.store_devices p homed s) in
      rw (publish_exposes-manager p homed (device_of id cleared) false cleared)
        (clear_stale_topics-IsSound id (Commands.store_devices p homed s) sound)

  pub availability_changed-IsSound :
      (id : ℕ) (s : Control p)
      → IsSound p s.manager
      → IsSound p (Slots.availability_changed p homed id s).manager
  unfolding Slots.availability_changed Publishing.publish_device_status
  availability_changed-IsSound id s sound = if_keeps Keeps _ sound sound

  -- The constructor makes connections for devices of the list only.
  pub new_control-IsSound :
      (store : Store p.qt.Double)
      → IsProper store
      → IsSound p (Slots.new_control p homed store).manager
  unfolding Slots.new_control Manager.new_manager perform_all perform
  new_control-IsSound store proper =
      let m : Manager.Manager p = Manager.new_manager p store in
      let made =
        perform_all-Refines p store (connect_all ∷ []) (hosts_of p m) m (refl, refl, λ host. refl)
          (tt, tt) in
      record { is_proper = rw made.0 proper; runs = made.1 }
