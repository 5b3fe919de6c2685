-- ===== src/Exposes.antt =====
-- The expose objects of homed-common that the program creates, by class and constructor argument.
-- What their methods return is a parameter (Homed).
use homed_service_esphome.Prelude.Text.{Text}

pub data Expose : Type 0 where
  switch_object lock_object light_object cover_object thermostat_object : Expose
  binary_object sensor_object select_object number_object : Text → Expose
  -- ButtonObject with a name, and without one.
  button_object : Text → Expose
  unnamed_button : Expose
  -- A bare ExposeObject.
  expose_object : Text → Expose
