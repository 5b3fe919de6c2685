-- ===== src/StateUpdate.antt =====
-- esphome.cpp, EspHomeDevice::processStateUpdate: the key and the state of a message's fields, the
-- defaults, and the endpoint with the new state. Connection.Dispatch.state_fields finds the endpoint.
pub mod Reading
pub mod Writing
pub mod Covers
pub mod Silence
pub mod Colors
