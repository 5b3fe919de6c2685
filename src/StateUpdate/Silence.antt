-- ===== src/StateUpdate/Silence.antt =====
-- What processStateUpdate makes of the values that proto3 leaves out, where no default is supplied.
use homed_service_esphome.Prelude.{
  ◌≡◌, refl, Bool, true, not, ◌&&◌, List, [], ◌∷◌, arith, Option-cases, inl, inr,
}
use homed_service_esphome.Prelude.Maps.{lookup, text_key}
use homed_service_esphome.Qt.{Qt}
use homed_service_esphome.MsgType
use homed_service_esphome.Proto.{ProtoField}
use homed_service_esphome.Entity.Info.{holds}
use homed_service_esphome.Device.{EndpointMeta, Endpoint}
use homed_service_esphome.StateUpdate.Reading.{
  Reading, read_state, read_state_field, typed_state, with_defaults,
}
use homed_service_esphome.StateUpdate.Writing.{
  final_state, round_sensor, join_color, join_cover, climate_defaults, move_key, set_states,
  update_endpoint,
}
use mathlib.Core.List.{foldl}

-- No field of the message carries a value: field 2 as a float.
abbrev pub silent : List ProtoField → Bool
silent [] = true
silent (f ∷ fields) = not (holds f 2 5) && silent fields

module _ (qt : Qt) where
  read_silent :
      (fields : List ProtoField) (r : Reading qt.Double)
      → silent fields ≡ true
      → (foldl (read_state_field qt MsgType.state_sensor) r fields).state ≡ r.state
  unfolding read_state_field typed_state
  read_silent [] r h = refl
  read_silent (f ∷ fields) r h =
      ground (arith, read_silent fields (read_state_field qt MsgType.state_sensor r f))

  round_nothing : (meta : EndpointMeta) → round_sensor qt MsgType.state_sensor meta [] ≡ []
  unfolding round_sensor lookup
  round_nothing meta = elim (Option-cases meta.round) [ inl e ↦ rw e refl | inr (n, e) ↦ rw e refl ]

  -- proto3 leaves a value of 0.0 out of a sensor's message. Such a message changes nothing in the
  -- endpoint's state: the value that the endpoint had before stays.
  pub silent_sensor-stale :
      (fields : List ProtoField) (ep : Endpoint qt.Double)
      → silent fields ≡ true
      → update_endpoint qt MsgType.state_sensor
          (with_defaults qt MsgType.state_sensor (read_state qt MsgType.state_sensor fields).state)
          ep
        ≡ ep
  unfolding update_endpoint with_defaults read_state final_state round_sensor join_color join_cover
      climate_defaults move_key set_states lookup
  silent_sensor-stale fields ep h =
      rw (read_silent fields (record { key = 0; state = [] }) h, round_nothing ep.meta) refl
