-- ===== src/StateUpdate/Colors.antt =====
-- What processStateUpdate makes of a light's message without a red channel.
use homed_service_esphome.Prelude.{ℕ, ◌≡◌, refl, ◌∙◌, Bool, false, ◌||◌, List, [], ◌∷◌, arith, ◌==◌}
use homed_service_esphome.Prelude.Text.{Text, text_eq}
use homed_service_esphome.Prelude.Maps.{lookup, has, insert, text_key, lookup-insert, has-insert}
use homed_service_esphome.Qt.{Qt}
use homed_service_esphome.MsgType
use homed_service_esphome.Proto.{ProtoField}
use homed_service_esphome.Entity.Info.{holds}
use homed_service_esphome.Device.{StateMap, EndpointMeta, Endpoint}
use homed_service_esphome.StateUpdate.Reading.{
  Reading, read_state, read_state_field, typed_state, light_state, with_defaults,
}
use homed_service_esphome.StateUpdate.Writing.{
  final_state, round_sensor, join_color, join_cover, climate_defaults, move_key, set_states,
  update_endpoint,
}
use mathlib.Core.List.{foldl}

-- Some field of the message is the float with this number.
abbrev pub has_float : ℕ → List ProtoField → Bool
has_float n [] = false
has_float n (f ∷ fields) = holds f n 5 || has_float n fields

module _ (qt : Qt) where
  -- Which keys the loop makes of a light's fields: a placeholder for the channel with this number.
  abbrev read_light : List ProtoField → Reading qt.Double → StateMap qt.Double
  read_light fields r = (foldl (read_state_field qt MsgType.state_light) r fields).state

  has-read_channel :
      (key : Text) (n : ℕ) (fields : List ProtoField) (r : Reading qt.Double)
      → ((f : ProtoField) (state : StateMap qt.Double)
          → has key (light_state qt f state) ≡ (holds f n 5 || has key state))
      → (n == 1) ≡ false
      → has key (read_light fields r) ≡ (has_float n fields || has key r.state)
  unfolding read_state_field typed_state
  has-read_channel key n [] r step other = refl
  has-read_channel key n (f ∷ fields) r step other = ground (
    arith,
    has-read_channel key n fields (read_state_field qt MsgType.state_light r f) step other,
    step f r.state,
    other,
  )

  has-read_other :
      (key : Text) (fields : List ProtoField) (r : Reading qt.Double)
      → ((f : ProtoField) (state : StateMap qt.Double)
          → has key (light_state qt f state) ≡ has key state)
      → has key (read_light fields r) ≡ has key r.state
  unfolding read_state_field typed_state
  has-read_other key [] r step = refl
  has-read_other key (f ∷ fields) r step = ground (
    arith,
    has-read_other key fields (read_state_field qt MsgType.state_light r f) step,
    step f r.state,
  )

  -- No field has a key that light_state does not write.
  abbrev is_written : Text → Bool
  is_written key =
      text_eq "status" key
      || text_eq "level" key
      || text_eq "_r" key
      || text_eq "_g" key
      || text_eq "_b" key
      || text_eq "colorTemperature" key

  light_state-other :
      (key : Text) (f : ProtoField) (state : StateMap qt.Double)
      → is_written key ≡ false
      → has key (light_state qt f state) ≡ has key state
  unfolding light_state
  light_state-other key f state h = grind (arith, has-insert)

  light_state-green :
      (f : ProtoField) (state : StateMap qt.Double)
      → has "_g" (light_state qt f state) ≡ (holds f 5 5 || has "_g" state)
  unfolding light_state
  light_state-green f state = grind (arith, has-insert)

  light_state-blue :
      (f : ProtoField) (state : StateMap qt.Double)
      → has "_b" (light_state qt f state) ≡ (holds f 6 5 || has "_b" state)
  unfolding light_state
  light_state-blue f state = grind (arith, has-insert)

  light_state-red :
      (f : ProtoField) (state : StateMap qt.Double)
      → has "_r" (light_state qt f state) ≡ (holds f 4 5 || has "_r" state)
  unfolding light_state
  light_state-red f state = grind (arith, has-insert)

  has-set_states :
      (key : Text) (old state : StateMap qt.Double)
      → has key (set_states qt old state) ≡ (has key state || has key old)
  unfolding set_states lookup
  has-set_states key old [] = refl
  has-set_states key old ((j, v) ∷ state) =
      ground (arith, has-set_states key (insert j v old) state, has-insert j key v old)

  lookup-set_states :
      (key : Text) (old state : StateMap qt.Double)
      → has key state ≡ false
      → lookup key (set_states qt old state) ≡ lookup key old
  unfolding set_states lookup
  lookup-set_states key old [] h = refl
  lookup-set_states key old ((j, v) ∷ state) h =
      ground (arith, h, lookup-set_states key (insert j v old) state, lookup-insert j key v old)

  final_state-same :
      (meta : EndpointMeta) (state : StateMap qt.Double)
      → has "_r" state ≡ false
      → has "_state" state ≡ false
      → has "_switchState" state ≡ false
      → final_state qt MsgType.state_light meta state ≡ state
  unfolding final_state round_sensor join_color join_cover climate_defaults move_key
  final_state-same meta state r s w = ground (arith, r, s, w)

  -- The state of a light's message, with the values that proto3 leaves out.
  abbrev message_state : List ProtoField → StateMap qt.Double
  message_state fields =
      with_defaults qt MsgType.state_light (read_state qt MsgType.state_light fields).state

  has-message_state :
      (key : Text) (fields : List ProtoField)
      → text_eq "status" key ≡ false
      → has key (message_state fields)
        ≡ has key (read_light fields (record { key = 0; state = [] }))
  unfolding with_defaults read_state
  has-message_state key fields other = grind (arith, has-insert)

  message_state-other :
      (key : Text) (fields : List ProtoField)
      → is_written key ≡ false
      → text_eq "status" key ≡ false
      → has key (message_state fields) ≡ false
  unfolding lookup
  message_state-other key fields h other =
      has-message_state key fields other
      ∙ has-read_other key fields (record { key = 0; state = [] })
          (λ f state. light_state-other key f state h)

  message_state-channel :
      (key : Text) (n : ℕ) (fields : List ProtoField)
      → text_eq "status" key ≡ false
      → ((f : ProtoField) (state : StateMap qt.Double)
          → has key (light_state qt f state) ≡ (holds f n 5 || has key state))
      → (n == 1) ≡ false
      → has key (message_state fields) ≡ has_float n fields
  unfolding lookup
  message_state-channel key n fields other step n_other =
      has-message_state key fields other
      ∙ has-read_channel key n fields (record { key = 0; state = [] }) step n_other
      ∙ ground arith

  -- What such a message leaves in the endpoint.
  abbrev pub lit : List ProtoField → Endpoint qt.Double → StateMap qt.Double
  lit fields ep = (update_endpoint qt MsgType.state_light (message_state fields) ep).state

  lit-written :
      (fields : List ProtoField) (ep : Endpoint qt.Double)
      → has_float 4 fields ≡ false
      → lit fields ep ≡ set_states qt ep.state (message_state fields)
  unfolding update_endpoint
  lit-written fields ep h =
      rw
        (final_state-same ep.meta (message_state fields)
          (message_state-channel "_r" 4 fields refl light_state-red refl ∙ h)
          (message_state-other "_state" fields refl refl)
          (message_state-other "_switchState" fields refl refl))
        refl

  -- proto3 leaves a red channel of 0.0 out of a light's message. Whatever else such a message has:
  -- the endpoint's colour stays as it was, and if the message has a green or a blue channel, its
  -- placeholder _g or _b is among the keys of the endpoint's state afterwards.
  pub light_without_red-unjoined :
      (fields : List ProtoField) (ep : Endpoint qt.Double)
      → has_float 4 fields ≡ false
      → (lookup "color" (lit fields ep) ≡ lookup "color" ep.state)
        × (has "_g" (lit fields ep) ≡ (has_float 5 fields || has "_g" ep.state))
        × (has "_b" (lit fields ep) ≡ (has_float 6 fields || has "_b" ep.state))
  light_without_red-unjoined fields ep h =
      let state : StateMap qt.Double = message_state fields in
      rw (lit-written fields ep h) (
        lookup-set_states "color" ep.state state (message_state-other "color" fields refl refl),
        has-set_states "_g" ep.state state
            ∙ rw (message_state-channel "_g" 5 fields refl light_state-green refl) refl,
        has-set_states "_b" ep.state state
            ∙ rw (message_state-channel "_b" 6 fields refl light_state-blue refl) refl,
      )
