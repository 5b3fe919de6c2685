-- ===== src/Entity/Sensors.antt =====
-- processEntityInfo's cases for sensors, numbers, selects and buttons.
use homed_service_esphome.Prelude.{ℕ, ◌%◌, ◌^◌, [], ◌∷◌, ◌++◌, ◌==◌, if◌then◌else◌}
use homed_service_esphome.Prelude.Text.{Text}
use homed_service_esphome.Qt.{Qt}
use homed_service_esphome.Proto.{ProtoField, fixed32}
use homed_service_esphome.Entity.Info.{EntityInfo, holds}

-- `switch (f.varint())` for field 10 of a sensor
unfoldable pub state_class_name : Text → ℕ → Text
state_class_name old value =
    if value == 1
    then "measurement"
    else if value == 2
    then "total_increasing"
    else if value == 3
    then "total"
    else old

unfoldable pub binary_field : Qt → EntityInfo → ProtoField → EntityInfo
binary_field qt info f =
    if holds f 2 5
    then record info { key = fixed32 f }
    else if holds f 5 2
    then record info { device_class = qt.from_utf8 f.raw }
    else if holds f 8 2
    then record info { icon = qt.from_utf8 f.raw }
    else if holds f 10 0
    then record info { device_id = f.varint % 2 ^ 32 }
    else info

-- `static_cast<int>` of the decimals keeps 32 bits.
unfoldable pub sensor_field : Qt → EntityInfo → ProtoField → EntityInfo
sensor_field qt info f =
    if holds f 2 5
    then record info { key = fixed32 f }
    else if holds f 5 2
    then record info { icon = qt.from_utf8 f.raw }
    else if holds f 6 2
    then record info { unit = qt.from_utf8 f.raw }
    else if holds f 7 0
    then record info { accuracy_decimals = f.varint % 2 ^ 32 }
    else if holds f 9 2
    then record info { device_class = qt.from_utf8 f.raw }
    else if holds f 10 0
    then record info { state_class = state_class_name info.state_class f.varint }
    else if holds f 14 0
    then record info { device_id = f.varint % 2 ^ 32 }
    else info

unfoldable pub text_sensor_field : Qt → EntityInfo → ProtoField → EntityInfo
text_sensor_field qt info f =
    if holds f 2 5
    then record info { key = fixed32 f }
    else if holds f 5 2
    then record info { icon = qt.from_utf8 f.raw }
    else if holds f 8 2
    then record info { device_class = qt.from_utf8 f.raw }
    else if holds f 9 0
    then record info { device_id = f.varint % 2 ^ 32 }
    else info

unfoldable pub select_field : Qt → EntityInfo → ProtoField → EntityInfo
select_field qt info f =
    if holds f 2 5
    then record info { key = fixed32 f }
    else if holds f 5 2
    then record info { icon = qt.from_utf8 f.raw }
    else if holds f 6 2
    then record info { select_options = info.select_options ++ (qt.from_utf8 f.raw ∷ []) }
    else if holds f 9 0
    then record info { device_id = f.varint % 2 ^ 32 }
    else info

unfoldable pub number_field : Qt → EntityInfo → ProtoField → EntityInfo
number_field qt info f =
    if holds f 2 5
    then record info { key = fixed32 f }
    else if holds f 5 2
    then record info { icon = qt.from_utf8 f.raw }
    else if holds f 6 5
    then record info { min_value = f.float_val }
    else if holds f 7 5
    then record info { max_value = f.float_val }
    else if holds f 8 5
    then record info { step = f.float_val }
    else if holds f 11 2
    then record info { unit = qt.from_utf8 f.raw }
    else if holds f 14 0
    then record info { device_id = f.varint % 2 ^ 32 }
    else info

unfoldable pub button_field : Qt → EntityInfo → ProtoField → EntityInfo
button_field qt info f =
    if holds f 2 5
    then record info { key = fixed32 f }
    else if holds f 5 2
    then record info { icon = qt.from_utf8 f.raw }
    else if holds f 8 2
    then record info { device_class = qt.from_utf8 f.raw }
    else if holds f 9 0
    then record info { device_id = f.varint % 2 ^ 32 }
    else info
