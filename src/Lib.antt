-- ===== src/Lib.antt =====
-- The homed-service-esphome service: verification of its connections to ESPHome devices and of what
-- it makes of them.
--
-- The service keeps one EspHomeDevice for each device (esphome.h, esphome.cpp). It opens a TCP
-- connection, runs a Noise handshake through NoiseNNpsk0 (noise.h, noise.cpp), and then exchanges
-- encrypted protobuf messages, which ProtoEncoder and ProtoDecoder write and read (proto.h,
-- proto.cpp). ListEntities messages become EntityInfos, and these the endpoints of a DeviceObject
-- (device.h); State messages become the states of endpoints; commands become messages. The
-- EspHomeManager holds the connections by host. The Controller (controller.h, controller.cpp)
-- publishes the devices over MQTT and to Home Assistant, and takes commands. DeviceList
-- (device.cpp) keeps the devices in a JSON file.
--
-- Which file models what:
--   Proto         proto.h, proto.cpp: encoder and decoder
--   Noise         noise.h, noise.cpp, over noise-c, which is a parameter
--   Frame         esphome.cpp, onReadyRead and sendMessage: frames, and the loop that cuts them
--   MsgType       esphome.h, the numbers of the messages
--   Climate       esphome.cpp, the tables of climate modes, fan modes and presets
--   Entity        esphome.cpp, processEntityInfo
--   Discovery     esphome.cpp, camelCase and applyEntitiesToDevice; Options: the options and exposes
--   StateUpdate   esphome.cpp, processStateUpdate
--   Command       esphome.cpp, the messages of sendCommand
--   Device        device.h, device.cpp: device objects and the searches of DeviceList
--   Connection    esphome.cpp, EspHomeDevice: Session (state, sendMessage, findEndpointByKey),
--                 Messages and Dispatch (processMessage), Receiving (onReadyRead), Events (the
--                 other slots and calls), Reach (the constructor and sequences of events)
--   Manager       esphome.cpp, EspHomeManager
--   Controller    controller.cpp: Topics (topics and ids), Exposing and Publishing (what is
--                 published of a device), Commands and Received (mqttReceived), Slots (the rest),
--                 Running (all of it, as sequences of steps)
--   Database      device.cpp: Reading (parse, setupEndpoints), Writing (serialize)
--   Variant       QVariant, QJsonValue and their maps and lists
--   Exposes       which of homed-common's expose objects the program creates
--   Qt            what is used of Qt's texts and of floats, and homed-common's mqttSafe: parameters.
--                 So are Controller.Homed, homed-common and the settings, and Database.Storage, the
--                 conversions that the database needs
--   Examples      concrete inputs
--   Prelude       what all of them share
-- Functions keep their names, in snake case: processMessage is process_message. EspHomeManager's
-- sendCommand is route_command.
--
-- A byte is a number, a QByteArray a list of them. Unsigned integers carry their wrap-around with
-- them, an int is its 32-bit pattern, a float its 32-bit pattern, a double a value of a type that
-- is a parameter. A QMap is a list in the order of its keys. A device object that several places
-- share is a number, and a Store says what it holds; while a connection runs, it works on the
-- manager's Store. What a connection hands to its socket, and the signals it emits, are a list of
-- effects; what the Controller hands to MQTT is a list of outputs. onDisconnected is an event of
-- its own, also where disconnectFromHost or abort leads to it; only within the reconnect timer's
-- slot, where abort may call it at once, the event says whether it does. The Controller's slots are
-- functions of their own, and steps of their own in Running: which of them a socket's event calls,
-- and with which states in between, is not composed.
--
-- Fuel: the loop of onReadyRead has the length of the buffer and one, and each of its rounds but the
-- last takes three bytes at least. The loop of ProtoDecoder::decode has the length of the data and
-- one: while the position moves forward, each round takes a byte. Where it moves back, the result
-- is `running`, and the connection is marked as hung. The search for a free number has the count
-- of the numbers that can be taken. removeDevice's loop by index counts down from the length.
--
-- Not modelled: what homed-common does with exposes and options; the file of the database and the
-- text of JSON; tools/debug-client.cpp; logging; packaging, scripts and the web plugin.
pub mod Prelude
pub mod Proto
pub mod Frame
pub mod Qt
pub mod Variant
pub mod Exposes
pub mod Climate
pub mod MsgType
pub mod Entity
pub mod Device
pub mod Command
pub mod Noise
pub mod StateUpdate
pub mod Discovery
pub mod Database
pub mod Connection
pub mod Manager
pub mod Controller
pub mod Examples
