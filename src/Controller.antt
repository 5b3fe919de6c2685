-- ===== src/Controller.antt =====
-- controller.h and controller.cpp: Controller, which publishes the devices over MQTT and to Home
-- Assistant and takes commands. What it hands to MQTT and the file system is a list of outputs. A
-- signal of a connection reaches it as a call of the slot; which calls follow a socket's event is
-- not composed here.
pub mod Homed
pub mod Topics
pub mod Exposing
pub mod Publishing
pub mod Commands
pub mod Received
pub mod Slots
pub mod Quiet
pub mod Registry
pub mod Enlisting
pub mod Enlisted
pub mod Sound
pub mod SoundRemoval
pub mod SoundMessages
pub mod Sweeping
pub mod Removal
pub mod Adding
pub mod Snapshot
pub mod Delivery
pub mod SafeIds
pub mod Handled
pub mod SoundSlots
pub mod Running
pub mod Guarded
pub mod Secure
