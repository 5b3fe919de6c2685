-- ===== src/Connection/Messages.antt =====
-- EspHomeDevice::processMessage on DeviceInfoResponse and ListEntitiesDone: the sub-devices, and
-- applyDiscoveredEntities. A message whose fields cannot be decoded to the end leaves a hung
-- connection.
use homed_service_esphome.Prelude.{
  ℕ, ◌%◌, ◌^◌, true, false, List, [], ◌∷◌, ◌++◌, none, some, Bytes, ltb, ◌==◌, if◌then◌else◌,
}
use homed_service_esphome.Prelude.Text.{Text}
use homed_service_esphome.Prelude.Maps.{Map, nat_key, lookup, insert}
use homed_service_esphome.Proto.{ProtoField, done, undefined, running, decode}
use homed_service_esphome.MsgType
use homed_service_esphome.Entity.Info.{EntityInfo, holds}
use homed_service_esphome.Device.{DeviceObject, online, modify, by_host, append_device}
use homed_service_esphome.Discovery.{apply_entities_to_device}
use homed_service_esphome.Discovery.CamelCase.{append_text}
use homed_service_esphome.Connection.Session.{
  list_entities, Effect, Platform, Connection, emit, main_device, send_message, address,
  sub_address, entities_discovered,
}
use mathlib.Core.List.{foldl}

-- `quint32 subId` and `QString subName` of a nested DeviceInfo.
pub record SubInfo : Type 0 where
  pub sub_id : ℕ
  pub sub_name : Text

module _ (p : Platform) where
  open p use {qt, noise_c, base_device}

  unfoldable pub with_fields :
      Bytes → (List ProtoField → Connection p → Connection p) → Connection p → Connection p
  with_fields payload handle s = elim (decode payload) [
    | done fields ↦ handle fields s
    | undefined ↦ record s { hung = true }
    | running ↦ record s { hung = true }
  ]

  unfoldable pub update_device :
      ℕ → (DeviceObject qt.Double → DeviceObject qt.Double) → Connection p → Connection p
  update_device id f s = record s { store = modify id f s.store }

  -- ==================== DeviceInfoResponse ====================

  unfoldable pub sub_field : SubInfo → ProtoField → SubInfo
  sub_field r f =
      if holds f 1 0
      then record r { sub_id = f.varint % 2 ^ 32 }
      else if holds f 2 2
      then record r { sub_name = qt.from_utf8 f.raw }
      else r

  unfoldable pub add_sub_device : List ProtoField → Connection p → Connection p
  add_sub_device fields s =
      let r = foldl sub_field (record { sub_id = 0; sub_name = "" }) fields in
      if ltb 0 r.sub_id
      then record s { sub_device_names = insert r.sub_id r.sub_name s.sub_device_names }
      else s

  unfoldable pub device_info_field : Connection p → ProtoField → Connection p
  device_info_field s f =
      if holds f 4 2
      then update_device s.device (λ d. record d { esphome_version = qt.from_utf8 f.raw }) s
      else if holds f 6 2
      then update_device s.device (λ d. record d { model_name = qt.from_utf8 f.raw }) s
      else if holds f 12 2
      then update_device s.device (λ d. record d { manufacturer_name = qt.from_utf8 f.raw }) s
      else if holds f 20 2
      then with_fields f.raw add_sub_device s
      else s

  -- A nested decoding that does not end leaves the rest undone.
  unfoldable pub device_info_fields : List ProtoField → Connection p → Connection p
  device_info_fields [] s = s
  device_info_fields (f ∷ fields) s = elim s.hung [
    | true ↦ s
    | false ↦ device_info_fields fields (device_info_field s f)
  ]

  unfoldable pub request_entities : Connection p → Connection p
  request_entities s =
      send_message MsgType.list_entities_request []
        (record s { pending_entities = []; state = list_entities })

  unfoldable pub device_info_response : List ProtoField → Connection p → Connection p
  device_info_response fields s =
      let s' = device_info_fields fields (record s { sub_device_names = [] }) in
      elim s'.hung [ true ↦ s' | false ↦ request_entities s' ]

  -- ==================== ListEntitiesDone ====================

  -- `grouped[info.deviceId].append(info)`
  unfoldable pub group_entities :
      List EntityInfo → Map ℕ (List EntityInfo) → Map ℕ (List EntityInfo)
  group_entities [] grouped = grouped
  group_entities (info ∷ entities) grouped =
      group_entities entities (insert info.device_id (group info.device_id ++ (info ∷ [])) grouped)
    where
      group : ℕ → List EntityInfo
      group id = elim (lookup id grouped) [ none ↦ [] | some l ↦ l ]

  abbrev pub sub_name_of : ℕ → Connection p → Text
  sub_name_of device_id s = elim (lookup device_id s.sub_device_names) [
    | none ↦ qt.number device_id
    | some name ↦ name
  ]

  -- The object that subDevice creates.
  unfoldable pub new_sub_device : Text → Connection p → DeviceObject qt.Double
  new_sub_device name s = record base_device {
    name = name;
    host = sub_address qt (main_device s) name;
    port = (main_device s).port;
    encryption_key = (main_device s).encryption_key;
    last_seen = 0;
    esphome_version = "";
    published_endpoints = [];
    special_slots = [];
    parent_address = address qt (main_device s);
    cloud = (main_device s).cloud;
  }

  -- The setters at the end of subDevice, on the object `sub`, one after the other.
  unfoldable pub refresh_sub_device : ℕ → Text → Connection p → Connection p
  refresh_sub_device sub name s =
      let named = update_device sub (λ d. record d { name = name }) s in
      let made =
        update_device sub
          (λ d. record d { manufacturer_name = (main_device named).manufacturer_name }) named in
      update_device sub
        (λ d. record d {
          model_name =
              append_text "Subdev " (append_text name (append_text " of " (main_device made).name));
          parent_address = address qt (main_device made);
          availability = online;
        })
        made

  -- subDevice: the object of the sub-device, found or created.
  unfoldable pub sub_device : ℕ → Connection p → Connection p × ℕ
  sub_device device_id s =
      let name = sub_name_of device_id s in
      elim (by_host (sub_address qt (main_device s) name) s.store) [
        | some sub ↦ (refresh_sub_device sub name s, sub)
        | none ↦ (
          refresh_sub_device s.store.fresh name
              (record s { store = append_device (new_sub_device name s) s.store }),
          s.store.fresh,
        )
      ]

  -- One group after the other, in the order of the ids, with the devices touched so far.
  unfoldable pub apply_groups :
      Map ℕ (List EntityInfo) → List ℕ → Connection p → Connection p × List ℕ
  apply_groups [] touched s = (s, touched)
  apply_groups ((device_id, entities) ∷ groups) touched s =
      let skip = apply_groups groups touched s in
      let (s', sub) = sub_device device_id s in
      let next =
        apply_groups groups (touched ++ (sub ∷ []))
          (update_device sub (apply_entities_to_device qt entities) s') in
      if device_id == 0 then skip else next

  unfoldable pub emit_all : (ℕ → Effect) → List ℕ → Connection p → Connection p
  emit_all signal [] s = s
  emit_all signal (id ∷ ids) s = emit_all signal ids (emit (signal id) s)

  unfoldable pub main_entities : Map ℕ (List EntityInfo) → List EntityInfo
  main_entities grouped = elim (lookup 0 grouped) [ none ↦ [] | some l ↦ l ]

  unfoldable pub apply_discovered_entities : Connection p → Connection p
  apply_discovered_entities s =
      let grouped = group_entities s.pending_entities [] in
      let s' = update_device s.device (apply_entities_to_device qt (main_entities grouped)) s in
      let (applied, touched) = apply_groups grouped (s.device ∷ []) s' in
      emit_all entities_discovered touched applied
