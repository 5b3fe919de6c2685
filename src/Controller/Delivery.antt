-- ===== src/Controller/Delivery.antt =====
-- A message on a td topic, as calls of the manager.
use homed_service_esphome.Prelude.{
  ℕ, zero, suc, ◌≡◌, ◌⊎◌, ◌%◌, refl, sym, ap, ◌∙◌, true, false, List, [], ◌∷◌, ◌++◌, Option, none,
  some, Bytes, arith, Option-cases, inl, inr, ◌==◌, if◌then◌else◌,
}
use homed_service_esphome.Prelude.Text.{Text, text_eq}
use homed_service_esphome.Prelude.Maps.{Map}
use homed_service_esphome.Variant.{Variant, Entries, end, entry}
use homed_service_esphome.Device.{DeviceObject, Endpoint, Store, by_name, by_host}
use homed_service_esphome.Command.{Argument}
use homed_service_esphome.Connection.Session.{Platform}
use homed_service_esphome.Manager
use homed_service_esphome.Manager.Hosts.{route_command-store}
use homed_service_esphome.Manager.Refinement.{Call, perform, perform_all}
use homed_service_esphome.Controller.Homed.{Homed, Control, device_of}
use homed_service_esphome.Controller.Topics
use homed_service_esphome.Controller.Commands
use homed_service_esphome.Controller.Received

-- The endpoint with an object id, if there is one.
unfoldable pub named_endpoint : {Double : Type 0} → Text → Map ℕ (Endpoint Double) → Option ℕ
named_endpoint object_id [] = none
named_endpoint object_id ((id, ep) ∷ endpoints) =
    if text_eq ep.meta.object_id object_id then some id else named_endpoint object_id endpoints

module _ (p : Platform) (homed : Homed p.qt) where
  -- The endpoint that a key of the message is for: the number in the topic, if there is one and it
  -- is not 0, or else the endpoint with this object id. An endpoint 0 gets no command.
  abbrev target : DeviceObject p.qt.Double → ℕ → Text → Option ℕ
  target d zero key = named_endpoint key d.endpoints
  target d slot key = some slot

  abbrev call_for : ℕ → Text → Option Argument → Option ℕ → List Call
  call_for id key none endpoint = []
  call_for id key (some argument) none = []
  call_for id key (some argument) (some endpoint) =
      if endpoint == 0 then [] else Call.route_command id endpoint key argument ∷ []

  -- One call for each value that is valid, and whose key has an endpoint, in the order of the keys.
  abbrev pub calls_for : ℕ → DeviceObject p.qt.Double → ℕ → Entries p.qt.Double → List Call
  calls_for id d slot end = []
  calls_for id d slot (entry key value json) =
      call_for id key (homed.argument value) (target d slot key) ++ calls_for id d slot json

  abbrev with_manager : Control p → Manager.Manager p → Control p
  with_manager s m = record s { manager = m }

  endpoint_for_action-named :
      (key : Text) (endpoints : Map ℕ (Endpoint p.qt.Double))
      → Topics.endpoint_for_action key endpoints
        ≡ elim (named_endpoint key endpoints) [ none ↦ 0 | some id ↦ id ]
  unfolding Topics.endpoint_for_action named_endpoint
  endpoint_for_action-named key [] = refl
  endpoint_for_action-named key ((id, ep) ∷ endpoints) =
      ground (arith, endpoint_for_action-named key endpoints)

  abbrev or_zero : Option ℕ → ℕ
  or_zero none = 0
  or_zero (some id) = id

  endpoint_of-target :
      (d : DeviceObject p.qt.Double) (slot : ℕ) (key : Text)
      → Received.endpoint_of p homed slot key d ≡ or_zero (target d slot key)
  endpoint_of-target d zero key = endpoint_for_action-named key d.endpoints
  endpoint_of-target d (suc slot) key = ground arith

  abbrev commanded : ℕ → Text → ℕ → Argument → Control p → Control p
  commanded id key endpoint argument s =
      if endpoint == 0
      then s
      else with_manager s (Manager.route_command p id endpoint key argument s.manager)

  commanded-call :
      (id : ℕ) (key : Text) (argument : Argument) (endpoint : Option ℕ) (s : Control p)
      → commanded id key (or_zero endpoint) argument s
        ≡ with_manager s (perform_all p (call_for id key (some argument) endpoint) s.manager)
  unfolding perform_all perform
  commanded-call id key argument none s = refl
  commanded-call id key argument (some endpoint) s = ground arith

  entity_command-calls :
      (id slot : ℕ) (key : Text) (value : Variant p.qt.Double) (s : Control p)
      → Received.entity_command p homed id slot key value s
        ≡ with_manager s (
            perform_all p
              (call_for id key (homed.argument value) (target (device_of id s) slot key))
              s.manager)
  unfolding Received.entity_command perform_all
  entity_command-calls id slot key value s = elim (Option-cases (homed.argument value)) [
    | inl e ↦ rw (Received.entity_command, e) refl
    | inr (argument, e) ↦
        rw (Received.entity_command, e)
          (ap (λ endpoint. commanded id key endpoint argument s)
              (endpoint_of-target (device_of id s) slot key)
            ∙ commanded-call id key argument (target (device_of id s) slot key) s)
  ]

  perform_all-append :
      (first second : List Call) (m : Manager.Manager p)
      → perform_all p (first ++ second) m ≡ perform_all p second (perform_all p first m)
  unfolding perform_all
  perform_all-append [] second m = refl
  perform_all-append (c ∷ first) second m = perform_all-append first second (perform p c m)

  call_for-store :
      (id : ℕ) (key : Text) (argument : Option Argument) (endpoint : Option ℕ)
      (m : Manager.Manager p)
      → (perform_all p (call_for id key argument endpoint) m).store ≡ m.store
  unfolding perform_all perform
  call_for-store id key none endpoint m = refl
  call_for-store id key (some argument) none m = refl
  call_for-store id key (some argument) (some endpoint) m =
      ground (arith, route_command-store p id endpoint key argument m)

  entity_commands-calls :
      (id slot : ℕ) (json : Entries p.qt.Double) (s : Control p)
      → Received.entity_commands p homed id slot json s
        ≡ with_manager s (perform_all p (calls_for id (device_of id s) slot json) s.manager)
  unfolding Received.entity_commands perform_all
  entity_commands-calls id slot end s = refl
  entity_commands-calls id slot (entry key value json) s =
      let first : List Call =
        call_for id key (homed.argument value) (target (device_of id s) slot key) in
      let after : Control p = Received.entity_command p homed id slot key value s in
      let same : device_of id after ≡ device_of id s =
        ap (λ t. device_of id t) (entity_command-calls id slot key value s)
        ∙ ap (λ store. store.objects id)
            (call_for-store id key (homed.argument value) (target (device_of id s) slot key)
              s.manager) in
      entity_commands-calls id slot json after
      ∙ (ap (λ d. with_manager after (perform_all p (calls_for id d slot json) after.manager)) same
          ∙ (ap
                (λ t.
                  with_manager t
                    (perform_all p (calls_for id (device_of id s) slot json) t.manager))
                (entity_command-calls id slot key value s)
              ∙ ap (λ m. with_manager s m)
                  (sym (
                    perform_all-append first (calls_for id (device_of id s) slot json) s.manager))))

  -- The device that a topic names: the first one with this name, or else the first one with this host.
  abbrev pub IsNamed : Text → Store p.qt.Double → ℕ → Type 0
  IsNamed name store id =
      (by_name name store ≡ some id)
      ⊎ ((by_name name store ≡ none) × (by_host name store ≡ some id))

  device_named-some :
      (name : Text) (store : Store p.qt.Double) (id : ℕ)
      → IsNamed name store id
      → Commands.device_named p homed name store ≡ some id
  unfolding Commands.device_named
  device_named-some name store id (inl found) = rw (Commands.device_named, found) refl
  device_named-some name store id (inr (missing, found)) = rw (Commands.device_named, missing) found

  -- The number behind the device's name in a topic, modulo 2 ^ 8, and 0 if there is no number or an
  -- empty one; none for what is not a number.
  abbrev pub number_in : List Text → Option ℕ
  number_in [] = some 0
  number_in (number ∷ rest) =
      if text_eq number ""
      then some 0
      else elim (homed.to_uint number) [ none ↦ none | some n ↦ some (n % 256) ]

  slot_number-number_in :
      (name : Text) (numbers : List Text)
      → Received.slot_number p homed (Topics.part_at 1 (name ∷ numbers)) ≡ number_in numbers
  unfolding Received.slot_number
  slot_number-number_in name [] = refl
  slot_number-number_in name (number ∷ rest) = refl

  abbrev pub calls_of_topic :
      ℕ → DeviceObject p.qt.Double → Option ℕ → Entries p.qt.Double → List Call
  calls_of_topic id d none json = []
  calls_of_topic id d (some slot) json = calls_for id d slot json

  device_command-calls :
      (name : Text) (numbers : List Text) (json : Entries p.qt.Double) (id : ℕ) (s : Control p)
      → IsNamed name s.manager.store id
      → Received.device_command p homed (name ∷ numbers) json s
        ≡ with_manager s
            (perform_all p (calls_of_topic id (device_of id s) (number_in numbers) json) s.manager)
  unfolding Received.device_command perform_all
  device_command-calls name numbers json id s named =
      let found = device_named-some name s.manager.store id named in
      elim (Option-cases (number_in numbers)) [
        | inl e ↦ rw (Received.device_command, found, slot_number-number_in name numbers, e) refl
        | inr (slot, e) ↦
            rw (Received.device_command, found, slot_number-number_in name numbers, e)
              (entity_commands-calls id slot json s)
      ]

  -- A message on a td topic that names a device of the list, by its name or else by its host: what
  -- the Controller does is to call the manager for the values that are valid, in the order of their
  -- keys, each for the endpoint whose number stands behind the name, modulo 2 ^ 8, or, without a
  -- number there, or with one that is 0 modulo 2 ^ 8, for the first endpoint whose object id is the
  -- key; keys without an endpoint are skipped. If what stands there is no number, it calls nothing.
  -- Nothing is published, and nothing else of the Controller changes.
  pub mqtt_received-calls :
      (message : Bytes) (topic name : Text) (numbers : List Text) (id : ℕ) (s : Control p)
      → Received.is_command p homed topic ≡ false
      → Received.is_td p homed topic ≡ true
      → Received.td_parts p homed topic ≡ name ∷ numbers
      → IsNamed name s.manager.store id
      → Received.mqtt_received p homed message topic s
        ≡ with_manager s (
            perform_all p
              (calls_of_topic id (device_of id s) (number_in numbers) (homed.from_json message))
              s.manager)
  unfolding Received.mqtt_received
  mqtt_received-calls message topic name numbers id s is_command is_td parts named =
      rw (Received.mqtt_received, is_command, is_td, parts)
        (device_command-calls name numbers (homed.from_json message) id s named)
