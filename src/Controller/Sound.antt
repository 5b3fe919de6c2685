-- ===== src/Controller/Sound.antt =====
-- What every message to the Controller keeps, for the message addDevice.
use homed_service_esphome.Prelude.{
  ℕ, ◌≡◌, ◌∙◌, false, none, Bytes, not, ◌||◌, Option-cases, inl, inr, ◌==◌, length, if_keeps,
  if◌then◌else◌,
}
use homed_service_esphome.Prelude.Text.{Text, is_empty}
use homed_service_esphome.Variant.{Entries, text_at}
use homed_service_esphome.Device.{append_device, by_host}
use homed_service_esphome.Connection.Session.{Platform}
use homed_service_esphome.Manager.{Manager}
use homed_service_esphome.Manager
use homed_service_esphome.Manager.Hosts.{connect_device-store}
use homed_service_esphome.Manager.Refinement.{connect_device-hosts}
use homed_service_esphome.Controller.Homed.{Homed, Control}
use homed_service_esphome.Controller.Publishing
use homed_service_esphome.Controller.Commands
use homed_service_esphome.Controller.Registry.{
  IsProper, IsProper-append_device, append_device-knows,
}

module _ (p : Platform) where
  -- No two devices in the list have the same host, and no null device was used.
  pub record IsSound (m : Manager.Manager p) : Type 0 where
    pub is_proper : IsProper m.store
    pub runs : m.failed ≡ false

module _ (p : Platform) (homed : Homed p.qt) where
  abbrev pub Keeps : Control p → Type 0
  Keeps s = IsSound p s.manager

  pub add_checked-IsSound :
      (host : Text) (port : ℕ) (name : Text) (key_bytes : Bytes) (json : Entries p.qt.Double)
      (s : Control p)
      → by_host host s.manager.store ≡ none
      → IsSound p s.manager
      → IsSound p (Commands.add_checked p homed host port name key_bytes json s).manager
  unfolding Commands.add_checked Publishing.publish_service_status Commands.new_device
  add_checked-IsSound host port name key_bytes json s absent sound =
      let d = Commands.new_device p homed name host port key_bytes json in
      let m : Manager.Manager p = record s.manager { store = append_device d s.manager.store } in
      record {
        is_proper =
            rw (connect_device-store p s.manager.store.fresh m)
              (IsProper-append_device d s.manager.store absent sound.is_proper);
        runs =
            (connect_device-hosts p s.manager.store.fresh m ""
              (append_device-knows d s.manager.store)).1
            ∙ sound.runs;
      }

  add_unknown-IsSound :
      (host : Text) (port : ℕ) (name : Text) (key_bytes : Bytes) (json : Entries p.qt.Double)
      (s : Control p)
      → IsSound p s.manager
      → IsSound p (Commands.add_unknown p homed host port name key_bytes json s).manager
  unfolding Commands.add_unknown
  add_unknown-IsSound host port name key_bytes json s sound =
      elim (Option-cases (by_host host s.manager.store)) [
        | inl e ↦
            rw (Commands.add_unknown, e)
              (add_checked-IsSound host port (if is_empty name then p.qt.mqtt_safe host else name)
                key_bytes json s e sound)
        | inr (id, e) ↦ rw (Commands.add_unknown, e) sound
      ]

  pub add_device-IsSound :
      (json : Entries p.qt.Double) (s : Control p)
      → IsSound p s.manager
      → IsSound p (Commands.add_device p homed json s).manager
  unfolding Commands.add_device
  add_device-IsSound json s sound =
      if_keeps Keeps (is_empty (text_at "host" json) || is_empty (text_at "key" json)) sound (
        if_keeps Keeps (not (length (homed.from_base64 (text_at "key" json)) == 32)) sound
          (add_unknown-IsSound _ _ _ _ json s sound))
