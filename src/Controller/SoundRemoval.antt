-- ===== src/Controller/SoundRemoval.antt =====
-- What every message to the Controller keeps, for the message removeDevice.
use homed_service_esphome.Prelude.{
  ℕ, zero, suc, ◌≡◌, refl, ◌∙◌, not, ◌||◌, Option-cases, inl, inr, ◌==◌, length, if_keeps,
}
use homed_service_esphome.Prelude.Text.{Text, text_eq}
use homed_service_esphome.Variant.{Entries, text_at}
use homed_service_esphome.Command.{Argument}
use homed_service_esphome.Connection.Session.{Platform, address}
use homed_service_esphome.Manager.{Manager}
use homed_service_esphome.Manager
use homed_service_esphome.Manager.Hosts.{disconnect_device-store, route_command-store}
use homed_service_esphome.Manager.Refinement.{disconnect_device-hosts, route_command-hosts}
use homed_service_esphome.Controller.Homed.{Homed, Control, device_of, listed_of}
use homed_service_esphome.Controller.Publishing
use homed_service_esphome.Controller.Commands
use homed_service_esphome.Controller.Quiet.{retract-manager}
use homed_service_esphome.Controller.Registry.{IsProper-remove_at}
use homed_service_esphome.Controller.Sound.{IsSound}

module _ (p : Platform) (homed : Homed p.qt) where
  abbrev Keeps : Control p → Type 0
  Keeps s = IsSound p s.manager

  pub remove_sub-manager :
      (i sub : ℕ) (s : Control p)
      → (Commands.remove_sub p homed i sub s).manager ≡ record s.manager {
        store = record s.manager.store { listed = Commands.remove_at i s.manager.store.listed };
      }
  unfolding Commands.remove_sub Commands.unlist_at
  remove_sub-manager i sub s = rw (retract-manager p homed (device_of sub s) s) refl

  -- The manager's calls leave the device objects alone.
  kept-IsSound :
      (m m' : Manager.Manager p)
      → m'.store ≡ m.store
      → m'.failed ≡ m.failed
      → IsSound p m
      → IsSound p m'
  kept-IsSound m m' store_eq failed_eq sound = record {
    is_proper = rw store_eq sound.is_proper;
    runs = failed_eq ∙ sound.runs;
  }

  disconnect_device-IsSound :
      (id : ℕ) (m : Manager.Manager p) → IsSound p m → IsSound p (Manager.disconnect_device p id m)
  disconnect_device-IsSound id m sound =
      kept-IsSound m (Manager.disconnect_device p id m) (disconnect_device-store p id m)
        (disconnect_device-hosts p id m "").1 sound

  pub route_command-IsSound :
      (id endpoint_id : ℕ) (action : Text) (value : Argument) (m : Manager.Manager p)
      → IsSound p m
      → IsSound p (Manager.route_command p id endpoint_id action value m)
  route_command-IsSound id endpoint_id action value m sound =
      kept-IsSound m (Manager.route_command p id endpoint_id action value m)
        (route_command-store p id endpoint_id action value m)
        (route_command-hosts p id endpoint_id action value m "").1 sound

  unlisted-IsSound :
      (i : ℕ) (m : Manager.Manager p)
      → IsSound p m
      → IsSound p
          (record m { store = record m.store { listed = Commands.remove_at i m.store.listed } })
  unlisted-IsSound i m sound = record {
    is_proper = IsProper-remove_at i m.store sound.is_proper;
    runs = sound.runs;
  }

  remove_sub-IsSound :
      (i sub : ℕ) (s : Control p)
      → IsSound p s.manager
      → IsSound p (Commands.remove_sub p homed i sub s).manager
  remove_sub-IsSound i sub s sound =
      rw (remove_sub-manager i sub s) (unlisted-IsSound i s.manager sound)

  remove_sub_at-IsSound :
      (id i : ℕ) (s : Control p)
      → IsSound p s.manager
      → IsSound p (Commands.remove_sub_at p homed id i s).manager
  unfolding Commands.remove_sub_at
  remove_sub_at-IsSound id i s sound = elim (Option-cases (Commands.id_at i (listed_of s))) [
    | inl e ↦ rw (Commands.remove_sub_at, e) sound
    | inr (sub, e) ↦
        rw (Commands.remove_sub_at, e)
          (if_keeps Keeps
            (sub == id
              || not (text_eq (device_of sub s).parent_address (address p.qt (device_of id s))))
            sound (remove_sub-IsSound i sub s sound))
  ]

  pub remove_subs-IsSound :
      (id n : ℕ) (s : Control p)
      → IsSound p s.manager
      → IsSound p (Commands.remove_subs p homed id n s).manager
  unfolding Commands.remove_subs
  remove_subs-IsSound id zero s sound = sound
  remove_subs-IsSound id (suc i) s sound =
      remove_subs-IsSound id i (Commands.remove_sub_at p homed id i s)
        (remove_sub_at-IsSound id i s sound)

  remove_found-IsSound :
      (id : ℕ) (s : Control p)
      → IsSound p s.manager
      → IsSound p (Commands.remove_found p homed id s).manager
  unfolding Commands.remove_found Publishing.publish_service_status Commands.disconnect
      Commands.unlist_at
  remove_found-IsSound id s sound =
      let after : Control p =
        Commands.retract p homed (device_of id s) (Commands.disconnect p homed id s) in
      let gone : IsSound p after.manager =
        rw (retract-manager p homed (device_of id s) (Commands.disconnect p homed id s))
          (disconnect_device-IsSound id s.manager sound) in
      elim (Option-cases (Commands.position id (listed_of s))) [
        | inl e ↦ rw (Commands.remove_found, e) gone
        | inr (i, e) ↦ rw (Commands.remove_found, e) (unlisted-IsSound i after.manager gone)
      ]

  pub remove_device-IsSound :
      (json : Entries p.qt.Double) (s : Control p)
      → IsSound p s.manager
      → IsSound p (Commands.remove_device p homed json s).manager
  unfolding Commands.remove_device
  remove_device-IsSound json s sound =
      elim (Option-cases (Commands.device_named p homed (text_at "device" json) s.manager.store)) [
        | inl e ↦ rw (Commands.remove_device, e) sound
        | inr (id, e) ↦
            rw (Commands.remove_device, e)
              (remove_found-IsSound id (Commands.remove_subs p homed id (length (listed_of s)) s)
                (remove_subs-IsSound id (length (listed_of s)) s sound))
      ]
