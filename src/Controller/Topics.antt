-- ===== src/Controller/Topics.antt =====
-- The topics and ids that the Controller builds from a device, and those that it takes apart. The
-- texts that fill a pattern hold no place marker of QString::arg themselves.
use Prim.Native.Char.{Char, code}
use Prim.Native.String.{String}
use homed_service_esphome.Prelude.{
  ℕ, zero, suc, Bool, true, false, List, [], ◌∷◌, ◌==◌, ◌||◌, if◌then◌else◌,
}
use homed_service_esphome.Prelude.Text.{Text, text_eq}
use homed_service_esphome.Prelude.Maps.{Map}
use homed_service_esphome.Qt.{Qt}
use homed_service_esphome.Device.{DeviceObject, Endpoint}
use homed_service_esphome.Discovery.CamelCase.{append_text}
use homed_service_esphome.Connection.Session.{address}
use homed_service_esphome.Controller.Homed.{Homed}

-- `QString("%1/%2").arg(s, t)`
abbrev pub slashed : Text → Text → Text
slashed s t = append_text s (append_text "/" t)

-- QString::length, mid, startsWith, and split('/'). Texts are in the basic multilingual plane.
unfoldable pub text_length : Text → ℕ
text_length String.[] = zero
text_length (String.◌∷◌ c t) = suc (text_length t)

unfoldable pub mid : Text → ℕ → Text
mid t zero = t
mid String.[] (suc n) = ""
mid (String.◌∷◌ c t) (suc n) = mid t n

unfoldable pub starts_with : Text → Text → Bool
starts_with t String.[] = true
starts_with String.[] (String.◌∷◌ d prefix) = false
starts_with (String.◌∷◌ c t) (String.◌∷◌ d prefix) =
    if code c == code d then starts_with t prefix else false

abbrev prepend : Char → List Text → List Text
prepend c [] = String.◌∷◌ c "" ∷ []
prepend c (part ∷ parts) = String.◌∷◌ c part ∷ parts

unfoldable pub split_slash : Text → List Text
split_slash String.[] = "" ∷ []
split_slash (String.◌∷◌ c t) =
    let rest = split_slash t in if code c == 47 then "" ∷ rest else prepend c rest

-- `parts.value(n)`
abbrev pub part_at : ℕ → List Text → Text
part_at n [] = ""
part_at zero (part ∷ parts) = part
part_at (suc n) (part ∷ parts) = part_at n parts

module _ (qt : Qt) where
  -- A character of a safe id.
  abbrev pub is_safe : Char → Bool
  is_safe c = qt.is_letter_or_number c || code c == 95 || code c == 45

  unfoldable pub ha_safe_id : Text → Text
  ha_safe_id String.[] = ""
  ha_safe_id (String.◌∷◌ c t) =
      let rest = ha_safe_id t in if is_safe c then String.◌∷◌ c rest else String.◌∷◌ "_" rest

-- endpointForAction, with 0 for no endpoint
unfoldable pub endpoint_for_action : {Double : Type 0} → Text → Map ℕ (Endpoint Double) → ℕ
endpoint_for_action action [] = 0
endpoint_for_action action ((id, ep) ∷ endpoints) =
    if text_eq ep.meta.object_id action then id else endpoint_for_action action endpoints

module _ (qt : Qt) (homed : Homed qt) where
  unfoldable pub device_topic : DeviceObject qt.Double → Text
  device_topic d = if homed.names then d.name else address qt d

  -- `mqttTopic("kind/%1").arg(serviceTopic())`
  abbrev pub service_kind : Text → Text
  service_kind kind = homed.mqtt_topic (slashed kind homed.service_topic)

  -- `mqttTopic("kind/%1/%2").arg(serviceTopic(), rest)`
  abbrev pub topic_of : Text → Text → Text
  topic_of kind rest = homed.mqtt_topic (slashed kind (slashed homed.service_topic rest))

  -- `mqttTopic("fd/%1/%2/%3").arg(serviceTopic(), devTopic).arg(number)`
  abbrev pub numbered_topic : DeviceObject qt.Double → ℕ → Text
  numbered_topic d n = topic_of "fd" (slashed (device_topic d) (qt.number n))
