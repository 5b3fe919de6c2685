-- ===== src/Connection/Session.antt =====
-- The state of an EspHomeDevice, and sendRaw, sendMessage and the search for sub-devices.
use homed_service_esphome.Prelude.{
  ℕ, Bool, true, false, List, [], ◌∷◌, ◌++◌, Option, none, some, Bytes, length, ◌==◌, if◌then◌else◌,
}
use homed_service_esphome.Prelude.Text.{Text}
use homed_service_esphome.Prelude.Maps.{Map, nat_key}
use homed_service_esphome.Qt.{Qt}
use homed_service_esphome.Noise.{NoiseC, Noise, encrypt}
use homed_service_esphome.Frame.{frame, size_bytes, quint16}
use homed_service_esphome.Entity.Info.{EntityInfo}
use homed_service_esphome.Device.{DeviceObject, Store, Endpoint, by_host}
use homed_service_esphome.Discovery.CamelCase.{append_text}

pub data State : Type 0 where
  disconnected connecting client_hello server_hello noise_handshake : State
  ready list_entities subscribe : State

-- Calls of the socket, and signals. The last four name the object of a device.
pub data Effect : Type 0 where
  write : Bytes → Effect
  connect_to_host : Text → ℕ → Effect
  disconnect_from_host : Effect
  abort : Effect
  availability_changed : ℕ → Effect
  last_seen_updated : ℕ → Effect
  entities_discovered : ℕ → Effect
  state_changed : ℕ → ℕ → Effect

-- The buffer `m_rxBuf` is part of the record; the loop of onReadyRead works on a copy of its own.
-- A timer is running or not. `hung`: a call of ProtoDecoder::decode has not ended, or was undefined;
-- no event is handled after that.
pub record Conn (c : NoiseC) (Double : Type 0) : Type 0 where
  pub device : ℕ
  pub store : Store Double
  pub state : State
  pub noise : Option (Noise c)
  pub rx_buf : Bytes
  pub noise_handshake_state : ℕ
  pub ping_timer : Bool
  pub reconnect_timer : Bool
  pub handshake_timer : Bool
  pub sub_device_names : Map ℕ Text
  pub pending_entities : List EntityInfo
  pub out : List Effect
  pub hung : Bool

-- What sendMessage encrypts: type, length and payload.
unfoldable pub inner_message : ℕ → Bytes → Bytes
inner_message type payload = size_bytes type ++ (size_bytes (quint16 (length payload)) ++ payload)

-- What the repository does not contain: Qt, noise-c, and homed-common's AbstractDeviceObject, whose
-- constructor leaves a device with the members that `base_device` has.
pub record Platform : Type 1 where
  pub qt : Qt
  pub noise_c : NoiseC
  pub base_device : DeviceObject qt.Double

abbrev pub Connection : Platform → Type 0
Connection p = Conn p.noise_c p.qt.Double

module _ {c : NoiseC} {Double : Type 0} where
  abbrev pub emit : Effect → Conn c Double → Conn c Double
  emit e s = record s { out = s.out ++ (e ∷ []) }

  abbrev pub main_device : Conn c Double → DeviceObject Double
  main_device s = s.store.objects s.device

  unfoldable pub send_raw : Bytes → Conn c Double → Conn c Double
  send_raw bytes s = emit (write bytes) s

  unfoldable pub send_message : ℕ → Bytes → Conn c Double → Conn c Double
  send_message type payload s = elim s.noise [
    | none ↦ s
    | some n ↦ elim n.complete [
      | false ↦ s
      | true ↦
          let (n', encrypted) = encrypt c n (inner_message type payload) in
          send_raw (frame encrypted) (record s { noise = some n' })
    ]
  ]

module _ (qt : Qt) where
  -- address()
  abbrev pub address : {Double : Type 0} → DeviceObject Double → Text
  address d = qt.mqtt_safe d.host

  unfoldable pub sub_device_address_suffix : Text → Text
  sub_device_address_suffix name = qt.spaces_to_underscores (qt.mqtt_safe name)

  -- `QString("%1_%2").arg(m_device->address(), subDeviceAddressSuffix(name))`
  abbrev pub sub_address : {Double : Type 0} → DeviceObject Double → Text → Text
  sub_address d name = append_text (address d) (append_text "_" (sub_device_address_suffix name))

  unfoldable pub known_in :
      {Double : Type 0} → DeviceObject Double → Store Double → Map ℕ Text → List ℕ
  known_in d store [] = []
  known_in d store ((id, name) ∷ names) =
      let rest = known_in d store names in
      elim (by_host (sub_address d name) store) [ none ↦ rest | some sub ↦ sub ∷ rest ]

  -- knownSubDevices
  unfoldable pub known_sub_devices : {c : NoiseC} {Double : Type 0} → Conn c Double → List ℕ
  known_sub_devices s = known_in (main_device s) s.store s.sub_device_names

module _ {Double : Type 0} where
  -- The endpoint of a device with this key; meta's key is a quint32.
  unfoldable pub endpoint_with_key : ℕ → Map ℕ (Endpoint Double) → Option ℕ
  endpoint_with_key key [] = none
  endpoint_with_key key ((id, ep) ∷ endpoints) =
      if ep.meta.key == key then some id else endpoint_with_key key endpoints

  unfoldable pub find_in : ℕ → Store Double → List ℕ → Option (ℕ × ℕ)
  find_in key store [] = none
  find_in key store (id ∷ ids) =
      let rest = find_in key store ids in
      elim (endpoint_with_key key (store.objects id).endpoints) [
        | none ↦ rest
        | some ep ↦ some (id, ep)
      ]

-- findEndpointByKey: the connection's own device first, then its sub-devices.
unfoldable pub find_endpoint_by_key :
    Qt → {c : NoiseC} {Double : Type 0} → ℕ → Conn c Double → Option (ℕ × ℕ)
find_endpoint_by_key qt key s = find_in key s.store (s.device ∷ known_sub_devices qt s)
