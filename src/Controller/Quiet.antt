-- ===== src/Controller/Quiet.antt =====
-- Publishing leaves the manager, and with it the device objects and the connections, as they are.
use homed_service_esphome.Prelude.{
  ℕ, ◌≡◌, refl, ◌∙◌, Bool, true, false, List, [], ◌∷◌, arith, not, if◌then◌else◌,
}
use homed_service_esphome.Prelude.Text.{is_empty}
use homed_service_esphome.Prelude.Maps.{Map}
use homed_service_esphome.Device.{DeviceObject, Endpoint, StateMap}
use homed_service_esphome.Exposes.{Expose}
use homed_service_esphome.Variant.{end}
use homed_service_esphome.Connection.Session.{Platform}
use homed_service_esphome.Controller.Homed.{Homed, Control, device_of}
use homed_service_esphome.Controller.Topics
use homed_service_esphome.Controller.Publishing
use homed_service_esphome.Controller.Commands

module _ (p : Platform) (homed : Homed p.qt) where
  open p.qt use {Double}

  discover_exposes-manager :
      (d : DeviceObject Double) (id : ℕ) (ep : Endpoint Double) (removed : Bool)
      (exposes : List Expose) (s : Control p)
      → (Publishing.discover_exposes p homed d id ep removed exposes s).manager ≡ s.manager
  unfolding Publishing.discover_exposes
  discover_exposes-manager d id ep removed [] s = refl
  discover_exposes-manager d id ep removed (expose ∷ exposes) s =
      discover_exposes-manager d id ep removed exposes (
        if not (homed.expose_discovery expose)
        then s
        else Publishing.mqtt_publish p homed (Publishing.config_topic p homed d id ep expose)
            (if removed then end else Publishing.config_json p homed d id ep expose) true s)
      ∙ ground arith

  discover_endpoints-manager :
      (d : DeviceObject Double) (removed : Bool) (endpoints : Map ℕ (Endpoint Double))
      (s : Control p)
      → (Publishing.discover_endpoints p homed d removed endpoints s).manager ≡ s.manager
  unfolding Publishing.discover_endpoints
  discover_endpoints-manager d removed [] s = refl
  discover_endpoints-manager d removed ((id, ep) ∷ endpoints) s =
      discover_endpoints-manager d removed endpoints (
        if is_empty ep.meta.object_id
        then s
        else Publishing.discover_exposes p homed d id ep removed ep.exposes s)
      ∙ ground (arith, discover_exposes-manager d id ep removed ep.exposes s)

  pub publish_exposes-manager :
      (d : DeviceObject Double) (removed : Bool) (s : Control p)
      → (Publishing.publish_exposes p homed d removed s).manager ≡ s.manager
  unfolding Publishing.publish_exposes Publishing.publish_ha_discovery
  publish_exposes-manager d removed s =
      ground (arith, discover_endpoints-manager d removed d.endpoints s)

  publish_states-manager :
      (d : DeviceObject Double) (endpoints : Map ℕ (Endpoint Double)) (common : StateMap Double)
      (has_common : Bool) (s : Control p)
      → (Publishing.publish_states p homed d endpoints common has_common s).manager ≡ s.manager
  unfolding Publishing.publish_states
  publish_states-manager d [] common has_common s = ground arith
  publish_states-manager d ((id, ep) ∷ endpoints) common has_common s = ground (
    arith,
    publish_states-manager d endpoints common has_common s,
    publish_states-manager d endpoints (Publishing.insert_all p homed ep.state common) true s,
    publish_states-manager d endpoints common has_common (
        Publishing.mqtt_publish p homed (Topics.numbered_topic p.qt homed d id)
          (Publishing.state_json p homed ep.state) false s),
  )

  pub publish_device_state-manager :
      (d : DeviceObject Double) (s : Control p)
      → (Publishing.publish_device_state p homed d s).manager ≡ s.manager
  unfolding Publishing.publish_device_state
  publish_device_state-manager d s = ground (arith, publish_states-manager d d.endpoints [] false s)

  update_listed-manager :
      (ids : List ℕ) (s : Control p) → (Commands.update_listed p homed ids s).manager ≡ s.manager
  unfolding Commands.update_listed
  update_listed-manager [] s = refl
  update_listed-manager (id ∷ ids) s =
      update_listed-manager ids (
        if not (device_of id s).active
        then s
        else Publishing.publish_device_state p homed (device_of id s) s)
      ∙ ground (arith, publish_device_state-manager (device_of id s) s)

  pub update_properties-manager :
      (s : Control p) → (Commands.update_properties p homed s).manager ≡ s.manager
  unfolding Commands.update_properties
  update_properties-manager s = update_listed-manager s.manager.store.listed s

  pub publish_service_status-manager :
      (s : Control p) → (Publishing.publish_service_status p homed s).manager ≡ s.manager
  unfolding Publishing.publish_service_status
  publish_service_status-manager s = refl

  pub retract-manager :
      (d : DeviceObject Double) (s : Control p) → (Commands.retract p homed d s).manager ≡ s.manager
  unfolding Commands.retract
  retract-manager d s = publish_exposes-manager d true s
