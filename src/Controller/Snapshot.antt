-- ===== src/Controller/Snapshot.antt =====
-- publishDeviceState: which messages it publishes, and what the common one holds.
use mathlib.Core.List.{append-nil, append_assoc}
use homed_service_esphome.Prelude.{
  ℕ, ◌≡◌, refl, ap, sym, ◌∙◌, Bool, true, false, not, ◌&&◌, List, [], ◌∷◌, ◌++◌, Option, none, some,
  arith, if◌then◌else◌,
}
use homed_service_esphome.Prelude.Text.{Text, text_eq}
use homed_service_esphome.Prelude.Maps.{Map, lookup, insert, text_key, lookup-insert}
use homed_service_esphome.Device.{DeviceObject, Endpoint, StateMap, Value}
use homed_service_esphome.Connection.Session.{Platform, address}
use homed_service_esphome.Discovery.CamelCase.{append_text}
use homed_service_esphome.Variant.{Variant, Entries, end, entry, find}
use homed_service_esphome.Controller.Homed.{Homed, Control, Output, publish}
use homed_service_esphome.Controller.Topics
use homed_service_esphome.Controller.Publishing

module _ {Double : Type 0} where
  abbrev no_state : StateMap Double → Bool
  no_state [] = true
  no_state (value ∷ state) = false

  -- An endpoint whose state goes into the common message.
  abbrev pub is_common : Endpoint Double → Bool
  is_common ep = not ep.meta.special && not (no_state ep.state)

  abbrev pub has_common : Map ℕ (Endpoint Double) → Bool
  has_common [] = false
  has_common ((id, ep) ∷ endpoints) = if is_common ep then true else has_common endpoints

  abbrev or_else : Option (Value Double) → Option (Value Double) → Option (Value Double)
  or_else (some v) other = some v
  or_else none other = other

  or_else-none : (o : Option (Value Double)) → or_else o none ≡ o
  or_else-none none = refl
  or_else-none (some v) = refl

  -- The last value under a key.
  abbrev pub last_in : Text → StateMap Double → Option (Value Double)
  last_in key [] = none
  last_in key ((j, v) ∷ state) =
      or_else (last_in key state) (if text_eq j key then some v else none)

  -- The value of the last endpoint of the common message that has this key.
  abbrev pub last_common : Text → Map ℕ (Endpoint Double) → Option (Value Double)
  last_common key [] = none
  last_common key ((id, ep) ∷ endpoints) =
      or_else (last_common key endpoints) (if is_common ep then last_in key ep.state else none)

module _ (p : Platform) (homed : Homed p.qt) (d : DeviceObject p.qt.Double) where
  open p.qt use {Double}

  -- The device in a topic, by its name or its address, and the topics of its states.
  abbrev pub device_part : Text
  device_part = if homed.names then d.name else address p.qt d

  abbrev pub state_topic : Text → Text
  state_topic rest =
      homed.mqtt_topic (
        append_text "fd" (append_text "/" (append_text homed.service_topic (append_text "/" rest))))

  -- A message with these values as JSON, each under its key.
  abbrev pub message_of : StateMap Double → Entries Double
  message_of [] = end
  message_of ((key, value) ∷ state) = entry key (homed.json_value value) (message_of state)

  state_json-message_of :
      (state : StateMap Double) → Publishing.state_json p homed state ≡ message_of state
  unfolding Publishing.state_json
  state_json-message_of [] = refl
  state_json-message_of ((key, value) ∷ state) =
      ap (λ rest. entry key (homed.json_value value) rest) (state_json-message_of state)

  abbrev pub as_json : Option (Value Double) → Option (Variant Double)
  as_json none = none
  as_json (some value) = some (homed.json_value value)

  find-message_of :
      (key : Text) (state : StateMap Double)
      → find key (message_of state) ≡ as_json (lookup key state)
  unfolding find lookup
  find-message_of key [] = refl
  find-message_of key ((j, value) ∷ state) =
      ground (arith, find-message_of key state, text_key.same_iff j key)

  -- One message for each special endpoint that has a state, in their order, on the device's topic
  -- with the endpoint's number behind it.
  abbrev pub special_outputs : Map ℕ (Endpoint Double) → List (Output Double)
  special_outputs [] = []
  special_outputs ((id, ep) ∷ endpoints) =
      if ep.meta.special && not (no_state ep.state)
      then publish (state_topic (append_text device_part (append_text "/" (p.qt.number id))))
          (message_of ep.state) false
        ∷ special_outputs endpoints
      else special_outputs endpoints

  abbrev pub merged : Map ℕ (Endpoint Double) → StateMap Double → StateMap Double
  merged [] common = common
  merged ((id, ep) ∷ endpoints) common =
      merged endpoints
        (if is_common ep then Publishing.insert_all p homed ep.state common else common)

  lookup-insert_all :
      (key : Text) (state common : StateMap Double)
      → lookup key (Publishing.insert_all p homed state common)
        ≡ or_else (last_in key state) (lookup key common)
  unfolding Publishing.insert_all
  lookup-insert_all key [] common = refl
  lookup-insert_all key ((j, v) ∷ state) common =
      lookup-insert_all key state (insert j v common) ∙ ground (arith, lookup-insert j key v common)

  lookup-merged :
      (key : Text) (endpoints : Map ℕ (Endpoint Double)) (common : StateMap Double)
      → lookup key (merged endpoints common)
        ≡ or_else (last_common key endpoints) (lookup key common)
  lookup-merged key [] common = refl
  lookup-merged key ((id, ep) ∷ endpoints) common =
      lookup-merged key endpoints
        (if is_common ep then Publishing.insert_all p homed ep.state common else common)
      ∙ ground (arith, lookup-insert_all key ep.state common)

  abbrev pub common_output : Bool → StateMap Double → List (Output Double)
  common_output has common =
      if has then publish (state_topic device_part) (message_of common) false ∷ [] else []

  common_topic-state_topic :
      Topics.topic_of p.qt homed "fd" (Topics.device_topic p.qt homed d) ≡ state_topic device_part
  unfolding Topics.device_topic
  common_topic-state_topic = refl

  numbered_topic-state_topic :
      (id : ℕ)
      → Topics.numbered_topic p.qt homed d id
        ≡ state_topic (append_text device_part (append_text "/" (p.qt.number id)))
  unfolding Topics.device_topic
  numbered_topic-state_topic id = refl

  special_output :
      (id : ℕ) (state : StateMap Double)
      → publish (Topics.numbered_topic p.qt homed d id) (Publishing.state_json p homed state) false
        ≡ publish
            (state_topic (append_text device_part (append_text "/" (p.qt.number id))))
            (message_of state)
            false
  special_output id state = cc (numbered_topic-state_topic id, state_json-message_of state)

  publish_states-output :
      (endpoints : Map ℕ (Endpoint Double)) (common : StateMap Double) (has : Bool) (s : Control p)
      → (Publishing.publish_states p homed d endpoints common has s).output
        ≡ s.output
          ++ (special_outputs endpoints
              ++ common_output
                  (if has then true else has_common endpoints)
                  (merged endpoints common))
  unfolding Publishing.publish_states
  publish_states-output [] common true s =
      cc (common_topic-state_topic, state_json-message_of common)
  publish_states-output [] common false s = sym (append-nil s.output)
  publish_states-output ((id, ep) ∷ endpoints) common has s = ground (
    arith,
    special_output id ep.state,
    append_assoc s.output
        (publish (state_topic (append_text device_part (append_text "/" (p.qt.number id))))
            (message_of ep.state) false
          ∷ [])
        (special_outputs endpoints
          ++ common_output (if has then true else has_common endpoints) (merged endpoints common)),
    publish_states-output endpoints common has s,
    publish_states-output endpoints (Publishing.insert_all p homed ep.state common) true s,
    publish_states-output endpoints common has (
        Publishing.mqtt_publish p homed (Topics.numbered_topic p.qt homed d id)
          (Publishing.state_json p homed ep.state) false s),
  )

  -- While MQTT is connected, publishDeviceState publishes: for each special endpoint that has a state
  -- one message with the values of its state, on the topic fd/service/device/number with its own number; and
  -- then, if another endpoint has a state, one on the topic fd/service/device. Under each key this one
  -- holds the value of the last of these endpoints that has the key, as JSON. While MQTT is not connected,
  -- it publishes nothing.
  pub publish_device_state-split :
      (s : Control p) (key : Text)
      → ((Publishing.publish_device_state p homed d s).output ≡ (
          if s.mqtt_status
          then s.output
            ++ (special_outputs d.endpoints
                ++ common_output (has_common d.endpoints) (merged d.endpoints []))
          else s.output))
        × (find key (message_of (merged d.endpoints [])) ≡ as_json (last_common key d.endpoints))
  unfolding Publishing.publish_device_state lookup
  publish_device_state-split s key = (
    ground (arith, publish_states-output d.endpoints [] false s),
    find-message_of key (merged d.endpoints [])
        ∙ ap as_json
            (lookup-merged key d.endpoints [] ∙ or_else-none (last_common key d.endpoints)),
  )
