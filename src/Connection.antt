-- ===== src/Connection.antt =====
-- esphome.h and esphome.cpp: EspHomeDevice, one connection to a device. Each slot and each call is a
-- function from the connection to the connection after it; what the socket and the signals are
-- handed is appended to `out`, in order.
pub mod Session
pub mod Messages
pub mod Dispatch
pub mod Receiving
pub mod Events
pub mod Kept
pub mod Recovery
pub mod Ready
pub mod Reach
pub mod Loopback
