-- ===== src/Controller/Removal.antt =====
-- removeDevice: what is left of the list of devices, and of the connections.
use homed_service_esphome.Prelude.{
  ℕ, zero, suc, ◌≡◌, refl, sym, ap, ◌∙◌, Bool, false, List, [], ◌∷◌, some, arith, not, ◌||◌,
  Bool-cases, Option-cases, inl, inr, ◌==◌, length,
}
use homed_service_esphome.Prelude.Text.{Text, text_eq}
use homed_service_esphome.Prelude.Maps.{text_key, has}
use homed_service_esphome.Variant.{Entries, text_at}
use homed_service_esphome.Device.{Store}
use homed_service_esphome.Connection.Session.{Platform, address}
use homed_service_esphome.Manager
use homed_service_esphome.Manager.Hosts.{disconnect_device-store}
use homed_service_esphome.Manager.Refinement.{disconnect_device-hosts, hosts_of}
use homed_service_esphome.Controller.Homed.{Homed, Control, device_of, listed_of}
use homed_service_esphome.Controller.Publishing
use homed_service_esphome.Controller.Commands.{id_at, remove_at, position}
use homed_service_esphome.Controller.Commands
use homed_service_esphome.Controller.Quiet.{retract-manager}
use homed_service_esphome.Controller.Registry.{AreDistinct}
use homed_service_esphome.Controller.Sound.{IsSound}
use homed_service_esphome.Controller.SoundRemoval.{remove_subs-IsSound, remove_sub-manager}
-- The elements of which the test does not hold, in their order.
use homed_service_esphome.Controller.Sweeping.{
  without, sweep_at, sweep, sweep_at-none, sweep_at-some, sweep-without, unlist_first,
  unlist_first-without,
}

module _ (p : Platform) (homed : Homed p.qt) where
  -- The test of the loop: another device, on the connection of this one.
  abbrev is_sub : ℕ → Store p.qt.Double → ℕ → Bool
  is_sub id store sub = not (
      sub == id
      || not (text_eq (store.objects sub).parent_address (address p.qt (store.objects id))))

  -- The device, or one of its sub-devices.
  abbrev pub is_removed : ℕ → Store p.qt.Double → ℕ → Bool
  is_removed id store sub =
      sub == id || text_eq (store.objects sub).parent_address (address p.qt (store.objects id))

  abbrev relisted : List ℕ → Manager.Manager p → Manager.Manager p
  relisted ids m = record m { store = record m.store { listed = ids } }

  remove_sub_at-manager :
      (id i : ℕ) (s : Control p)
      → (Commands.remove_sub_at p homed id i s).manager
        ≡ relisted (sweep_at (is_sub id s.manager.store) i (listed_of s)) s.manager
  unfolding Commands.remove_sub_at
  remove_sub_at-manager id i s =
      let test : ℕ → Bool = is_sub id s.manager.store in
      elim (Option-cases (id_at i (listed_of s))) [
        | inl e ↦
            rw (Commands.remove_sub_at, e)
              (ap (λ ids. relisted ids s.manager) (sym (sweep_at-none test i (listed_of s) e)))
        | inr (sub, e) ↦
            elim (Bool-cases (
              sub == id
              || not (text_eq (device_of sub s).parent_address (address p.qt (device_of id s))))) [
                | inl skip ↦
                    rw (Commands.remove_sub_at, e, skip)
                      (ap (λ ids. relisted ids s.manager)
                        (sym (sweep_at-some test i (listed_of s) sub e ∙ rw skip refl)))
                | inr taken ↦
                    rw (Commands.remove_sub_at, e, taken)
                      (remove_sub-manager p homed i sub s
                        ∙ ap (λ ids. relisted ids s.manager)
                            (sym (sweep_at-some test i (listed_of s) sub e ∙ rw taken refl)))
              ]
      ]

  remove_subs-manager :
      (id n : ℕ) (s : Control p)
      → (Commands.remove_subs p homed id n s).manager
        ≡ relisted (sweep (is_sub id s.manager.store) n (listed_of s)) s.manager
  unfolding Commands.remove_subs sweep
  remove_subs-manager id zero s = refl
  remove_subs-manager id (suc i) s =
      remove_subs-manager id i (Commands.remove_sub_at p homed id i s)
      ∙ ap (λ m. relisted (sweep (is_sub id m.store) i m.store.listed) m)
          (remove_sub_at-manager id i s)

  abbrev retracted : ℕ → Control p → Control p
  retracted id s = Commands.retract p homed (device_of id s) (Commands.disconnect p homed id s)

  retracted-manager :
      (id : ℕ) (s : Control p) → (retracted id s).manager ≡ Manager.disconnect_device p id s.manager
  unfolding Commands.disconnect
  retracted-manager id s =
      retract-manager p homed (device_of id s) (Commands.disconnect p homed id s)

  retracted-listed : (id : ℕ) (s : Control p) → listed_of (retracted id s) ≡ listed_of s
  retracted-listed id s =
      ap (λ m. m.store.listed) (retracted-manager id s)
      ∙ ap (λ store. store.listed) (disconnect_device-store p id s.manager)

  remove_found-listed :
      (id : ℕ) (s : Control p)
      → AreDistinct s.manager.store.objects (listed_of s)
      → listed_of (Commands.remove_found p homed id s) ≡ without (λ j. j == id) (listed_of s)
  unfolding Commands.remove_found Publishing.publish_service_status Commands.unlist_at
  remove_found-listed id s distinct =
      let only : unlist_first s.manager.store.objects id (listed_of s)
          ≡ without (λ j. j == id) (listed_of s) =
        unlist_first-without s.manager.store.objects id (listed_of s) distinct in
      elim (Option-cases (position id (listed_of s))) [
        | inl e ↦ rw (Commands.remove_found, e) (retracted-listed id s ∙ ground (arith, e, only))
        | inr (i, e) ↦
            rw (Commands.remove_found, e)
              (ap (λ ids. remove_at i ids) (retracted-listed id s) ∙ ground (arith, e, only))
      ]

  remove_found-connections :
      (id : ℕ) (s : Control p)
      → (Commands.remove_found p homed id s).manager.connections
        ≡ (Manager.disconnect_device p id s.manager).connections
  unfolding Commands.remove_found Publishing.publish_service_status Commands.unlist_at
  remove_found-connections id s = elim (Option-cases (position id (listed_of s))) [
    | inl e ↦ rw (Commands.remove_found, e) (ap (λ m. m.connections) (retracted-manager id s))
    | inr (i, e) ↦ rw (Commands.remove_found, e) (ap (λ m. m.connections) (retracted-manager id s))
  ]

  remove_found-disconnects :
      (id : ℕ) (s : Control p) (host : Text)
      → (device_of id s).host ≡ host
      → hosts_of p (Commands.remove_found p homed id s).manager host ≡ false
  remove_found-disconnects id s host its_host =
      ap (λ connections. has host connections) (remove_found-connections id s)
      ∙ ((disconnect_device-hosts p id s.manager host).0
          ∙ ground (arith, its_host, text_key.same_iff (device_of id s).host host))

  subs_and_device :
      (id : ℕ) (store : Store p.qt.Double) (ids : List ℕ)
      → without (λ j. j == id) (without (is_sub id store) ids) ≡ without (is_removed id store) ids
  subs_and_device id store [] = refl
  subs_and_device id store (j ∷ ids) = ground (arith, subs_and_device id store ids)

  -- Let no two devices of the list have the same host, and let removeDevice find the device that the
  -- message names. Then the list loses this device and all devices whose parentAddress is its
  -- address, and no other, and keeps the order of the rest. The host of the device has no connection any more.
  pub remove_device-without :
      (json : Entries p.qt.Double) (id : ℕ) (s : Control p)
      → IsSound p s.manager
      → Commands.device_named p homed (text_at "device" json) s.manager.store ≡ some id
      → (listed_of (Commands.remove_device p homed json s)
          ≡ without (is_removed id s.manager.store) (listed_of s))
        × (hosts_of p (Commands.remove_device p homed json s).manager (device_of id s).host ≡ false)
  unfolding Commands.remove_device
  remove_device-without json id s sound found =
      let swept : Control p = Commands.remove_subs p homed id (length (listed_of s)) s in
      let swept_manager : swept.manager
          ≡ relisted (without (is_sub id s.manager.store) (listed_of s)) s.manager =
        remove_subs-manager id (length (listed_of s)) s
        ∙ ap (λ ids. relisted ids s.manager)
            (sweep-without (is_sub id s.manager.store) (listed_of s)) in
      rw (Commands.remove_device, found)
        (
          remove_found-listed id swept
                (remove_subs-IsSound p homed id (length (listed_of s)) s
                  sound).is_proper.are_distinct
              ∙ (ap (λ m. without (λ j. j == id) m.store.listed) swept_manager
                  ∙ subs_and_device id s.manager.store (listed_of s)),
          remove_found-disconnects id swept (device_of id s).host
              (ap (λ m. (m.store.objects id).host) swept_manager),
        )
