-- ===== src/StateUpdate/Covers.antt =====
-- What a cover's state message becomes.
use homed_service_esphome.Prelude.{
  ℕ, ◌%◌, ◌^◌, ◌≡◌, refl, ◌∙◌, ap, Bool, true, false, List, [], ◌∷◌, Option, none, some, arith,
  ◌==◌, if◌then◌else◌,
}
use homed_service_esphome.Prelude.Maps.{lookup, insert, remove, text_key}
use homed_service_esphome.Qt.{Qt}
use homed_service_esphome.MsgType
use homed_service_esphome.Proto.{ProtoField, fixed32}
use homed_service_esphome.Entity.Info.{holds}
use homed_service_esphome.Device.{
  text_value, int_value, ulonglong_value, double_value, StateMap, EndpointMeta,
}
use homed_service_esphome.StateUpdate.Reading.{
  Reading, read_state, read_state_field, typed_state, cover_state, with_defaults,
}
use homed_service_esphome.StateUpdate.Writing.{
  final_state, round_sensor, join_color, join_cover, climate_defaults, move_key, cover_position,
  double_at, legacy_closed,
}
use mathlib.Core.List.{foldl}

-- The last value of each field of the message, if it has the field.
abbrev pub last_legacy : Option ℕ → List ProtoField → Option ℕ
last_legacy o [] = o
last_legacy o (f ∷ fields) = last_legacy (if holds f 2 0 then some f.varint else o) fields

abbrev pub last_position : Option ℕ → List ProtoField → Option ℕ
last_position o [] = o
last_position o (f ∷ fields) = last_position (if holds f 3 5 then some f.float_val else o) fields

module _ (qt : Qt) where
  open qt use {
    Double, double_literal, double_mul, double_round, double_positive, int_of_double,
    double_of_float,
  }

  shape : Option ℕ → Option ℕ → StateMap Double
  shape none none = []
  shape (some l) none = ("_legacyState", ulonglong_value l) ∷ []
  shape none (some d) = ("_position", double_value (double_of_float d)) ∷ []
  shape (some l) (some d) =
      ("_legacyState", ulonglong_value l) ∷ ("_position", double_value (double_of_float d)) ∷ []

  abbrev pub open_closed : Bool → ℕ → StateMap Double
  open_closed is_open position =
      ("cover", text_value (if is_open then "open" else "closed"))
      ∷ ("position", int_value position)
      ∷ []

  -- The older field is 0, or absent, for an open cover.
  abbrev pub from_legacy : Option ℕ → StateMap Double
  from_legacy none = open_closed true 100
  from_legacy (some l) = if l % 2 ^ 32 == 0 then open_closed true 100 else open_closed false 0

  abbrev pub from_position : ℕ → StateMap Double
  from_position d =
      open_closed (double_positive (double_of_float d))
        (int_of_double (double_round (double_mul (double_of_float d) (double_literal 100))))

  abbrev pub cover_result : Bool → Option ℕ → Option ℕ → StateMap Double
  cover_result supports_position legacy none = from_legacy legacy
  cover_result supports_position legacy (some d) =
      if supports_position then from_position d else from_legacy legacy

  insert_legacy :
      (n : ℕ) (l d : Option ℕ)
      → insert "_legacyState" (ulonglong_value n) (shape l d) ≡ shape (some n) d
  unfolding insert shape
  insert_legacy n none none = refl
  insert_legacy n none (some d) = refl
  insert_legacy n (some l) none = refl
  insert_legacy n (some l) (some d) = refl

  insert_position :
      (n : ℕ) (l d : Option ℕ)
      → insert "_position" (double_value (double_of_float n)) (shape l d) ≡ shape l (some n)
  unfolding insert shape
  insert_position n none none = refl
  insert_position n none (some d) = refl
  insert_position n (some l) none = refl
  insert_position n (some l) (some d) = refl

  read_one :
      (f : ProtoField) (key : ℕ) (l d : Option ℕ)
      → read_state_field qt MsgType.state_cover (record { key = key; state = shape l d }) f
        ≡ record {
          key = if holds f 1 5 then fixed32 f else key;
          state =
              shape
                (if holds f 2 0 then some f.varint else l)
                (if holds f 3 5 then some f.float_val else d);
        }
  unfolding read_state_field typed_state cover_state
  read_one f key l d = ground (arith, insert_legacy f.varint l d, insert_position f.float_val l d)

  read_cover :
      (fields : List ProtoField) (key : ℕ) (l d : Option ℕ)
      → (foldl
          (read_state_field qt MsgType.state_cover)
          (record { key = key; state = shape l d })
          fields).state
        ≡ shape (last_legacy l fields) (last_position d fields)
  read_cover [] key l d = refl
  read_cover (f ∷ fields) key l d =
      ap (λ (r : Reading Double). (foldl (read_state_field qt MsgType.state_cover) r fields).state)
        (read_one f key l d)
      ∙ read_cover fields (if holds f 1 5 then fixed32 f else key)
          (if holds f 2 0 then some f.varint else l) (if holds f 3 5 then some f.float_val else d)

  round_cover :
      (meta : EndpointMeta) (state : StateMap Double)
      → round_sensor qt MsgType.state_cover meta state ≡ state
  unfolding round_sensor
  round_cover meta state = ground arith

  finish :
      (meta : EndpointMeta) (l d : Option ℕ)
      → final_state qt MsgType.state_cover meta (shape l d)
        ≡ cover_result meta.supports_position l d
  unfolding shape final_state join_color join_cover climate_defaults move_key cover_position
      double_at legacy_closed lookup insert remove
  finish meta none none = ground (arith, round_cover meta [])
  finish meta (some l) none = ground (arith, round_cover meta (shape (some l) none))
  finish meta none (some d) = ground (arith, round_cover meta (shape none (some d)))
  finish meta (some l) (some d) = ground (arith, round_cover meta (shape (some l) (some d)))

  -- The state that a cover's message writes into the endpoint has the keys `cover` and `position`
  -- and no other. A device that supports positions and sent one gets it in percent, and is open if
  -- it is above 0; any other device gets position 100 or 0 by the older field, which is 0 or absent
  -- for an open cover. The last value of a field counts.
  pub cover_message-final :
      (meta : EndpointMeta) (fields : List ProtoField)
      → final_state qt MsgType.state_cover meta
          (with_defaults qt MsgType.state_cover (read_state qt MsgType.state_cover fields).state)
        ≡ cover_result meta.supports_position (last_legacy none fields) (last_position none fields)
  unfolding with_defaults read_state shape
  cover_message-final meta fields =
      ap (final_state qt MsgType.state_cover meta) (read_cover fields 0 none none)
      ∙ finish meta (last_legacy none fields) (last_position none fields)
