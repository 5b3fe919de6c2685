-- ===== src/StateUpdate/Writing.antt =====
-- processStateUpdate from the endpoint on: rounding, the light's colour, the cover's position, the
-- climate's modes, and the keys under which the state is kept.
use homed_service_esphome.Prelude.{
  ℕ, ◌%◌, ◌^◌, Bool, false, not, ◌&&◌, [], ◌∷◌, none, some, ◌==◌, if◌then◌else◌,
}
use homed_service_esphome.Prelude.Text.{Text}
use homed_service_esphome.Prelude.Maps.{lookup, insert, remove, has, text_key}
use homed_service_esphome.Qt.{Qt}
use homed_service_esphome.MsgType
use homed_service_esphome.Climate.{climate_fan_mode_name, climate_preset_name}
use homed_service_esphome.Device.{
  text_value, int_value, ulonglong_value, double_value, ints_value, StateMap, EndpointMeta,
  Endpoint,
}

module _ (qt : Qt) where
  open qt use {
    Double, double_literal, double_pow10, double_mul, double_div, double_round, double_positive,
    int_of_double,
  }

  abbrev State : Type 0
  State = StateMap Double

  -- QVariant::toDouble on what the loop stored under the key; 0.0 for an absent value.
  unfoldable pub double_at : Text → State → Double
  double_at key state = elim (lookup key state) [
    | none ↦ double_literal 0
    | some v ↦ elim v [ double_value d ↦ d | _ ↦ double_literal 0 ]
  ]

  unfoldable pub rounded : ℕ → Double → Double
  rounded decimals d =
      let factor = double_pow10 decimals in double_div (double_round (double_mul d factor)) factor

  unfoldable pub round_sensor : ℕ → EndpointMeta → State → State
  round_sensor type meta state = elim meta.round [
    | none ↦ state
    | some decimals ↦
        if type == MsgType.state_sensor && has "_state" state
        then insert "_state" (double_value (rounded decimals (double_at "_state" state))) state
        else state
  ]

  abbrev channel : Text → State → ℕ
  channel key state = int_of_double (double_mul (double_at key state) (double_literal 255))

  unfoldable pub join_color : ℕ → State → State
  join_color type state =
      if type == MsgType.state_light && has "_r" state
      then insert "color"
          (ints_value (channel "_r" state ∷ channel "_g" state ∷ channel "_b" state ∷ []))
          (remove "_b" (remove "_g" (remove "_r" state)))
      else state

  -- `state.value("_legacyState", 0).toUInt() != 0`
  unfoldable pub legacy_closed : State → Bool
  legacy_closed state = elim (lookup "_legacyState" state) [
    | none ↦ false
    | some v ↦ elim v [ ulonglong_value n ↦ not (n % 2 ^ 32 == 0) | _ ↦ false ]
  ]

  abbrev position_of : State → Double
  position_of state = double_at "_position" state

  unfoldable pub cover_position : EndpointMeta → State → State
  cover_position meta state =
      if meta.supports_position && has "_position" state
      then insert "cover"
          (text_value (if double_positive (position_of state) then "open" else "closed"))
          (insert "position"
            (int_value
              (int_of_double (double_round (double_mul (position_of state) (double_literal 100)))))
            state)
      else insert "position" (int_value (if legacy_closed state then 0 else 100))
          (insert "cover" (text_value (if legacy_closed state then "closed" else "open")) state)

  unfoldable pub join_cover : ℕ → EndpointMeta → State → State
  join_cover type meta state =
      if type == MsgType.state_cover
      then remove "_legacyState" (remove "_position" (cover_position meta state))
      else state

  abbrev default_if : Bool → Text → Text → State → State
  default_if supported key value state =
      if supported && not (has key state) then insert key (text_value value) state else state

  unfoldable pub climate_defaults : ℕ → EndpointMeta → State → State
  climate_defaults type meta state =
      if type == MsgType.state_climate
      then default_if meta.climate_has_fan_mode "fanMode" (climate_fan_mode_name 0)
          (default_if meta.climate_has_preset "operationMode" (climate_preset_name 0) state)
      else state

  -- The value under a placeholder moves to its key, and the placeholder goes.
  unfoldable pub move_key : Text → Text → State → State
  move_key placeholder key state = elim (lookup placeholder state) [
    | none ↦ state
    | some v ↦ remove placeholder (insert key v state)
  ]

  -- The state that is written into the endpoint.
  unfoldable pub final_state : ℕ → EndpointMeta → State → State
  final_state type meta state =
      let derived =
        climate_defaults type meta
          (join_cover type meta (join_color type (round_sensor type meta state))) in
      move_key "_switchState" (if meta.special then "status" else meta.object_id)
        (move_key "_state" meta.object_id derived)

  -- `for (it) ep->setState(it.key(), it.value())`
  unfoldable pub set_states : State → State → State
  set_states old [] = old
  set_states old ((key, value) ∷ state) = set_states (insert key value old) state

  unfoldable pub update_endpoint : ℕ → State → Endpoint Double → Endpoint Double
  update_endpoint type state ep = record ep {
    state = set_states ep.state (final_state type ep.meta state);
  }
