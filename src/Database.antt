-- ===== src/Database.antt =====
-- device.cpp: the devices as JSON, in the database file. Reading and writing the file itself, and the
-- text of a JSON document, are Qt's.
pub mod Storage
pub mod Reading
pub mod Writing
pub mod Slots
pub mod DeviceFields
pub mod RoundTrip
pub mod EntityFields
pub mod Renumbered
