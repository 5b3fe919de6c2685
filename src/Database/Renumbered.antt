-- ===== src/Database/Renumbered.antt =====
-- The endpoints that a device has after it was written and read again.
use mathlib.Core.List.{append_assoc, append-nil}
use homed_service_esphome.Prelude.{
  ℕ, ◌+◌, ◌^◌, ◌%◌, ◌<◌, ◌≡◌, refl, sym, ap, ◌∙◌, false, List, [], ◌∷◌, ◌++◌, arith, if_keeps, All,
  All-map, length, ◌==◌,
}
use homed_service_esphome.Prelude.Text.{is_empty}
use homed_service_esphome.Prelude.Maps.{Map, insert, nat_key, text_key}
use homed_service_esphome.Qt.{Qt}
use homed_service_esphome.Variant.{Entries, value_at, text_at}
use homed_service_esphome.Device.{DeviceObject, Endpoint, EndpointMeta}
use homed_service_esphome.Database.Storage.{Storage}
use homed_service_esphome.Database.Slots.{IsFaithful}
use homed_service_esphome.Database.Reading
use homed_service_esphome.Database.Writing
use homed_service_esphome.Database.EntityFields.{write_entity-reads}

module _ (qt : Qt) (storage : Storage qt) where
  open qt use {Double}

  -- An endpoint that setupEndpoints does not skip.
  pub record IsStored (ep : Endpoint Double) : Type 0 where
    pub has_kind : is_empty ep.meta.kind ≡ false
    pub has_object_id : is_empty ep.meta.object_id ≡ false
    pub has_key : (ep.meta.key == 0) ≡ false
    pub key_fits : ep.meta.key < 2 ^ 32

  abbrev pub ids_metas : Map ℕ (Endpoint Double) → List (ℕ × EndpointMeta)
  ids_metas [] = []
  ids_metas ((id, ep) ∷ endpoints) = (id, ep.meta) ∷ ids_metas endpoints

  -- The endpoints counted from `n`, with the meta data that the database holds.
  abbrev pub counted : ℕ → Map ℕ (Endpoint Double) → List (ℕ × EndpointMeta)
  counted n [] = []
  counted n ((id, ep) ∷ endpoints) =
      (n, Reading.stored_meta qt storage ep.meta.key ep.meta.kind ep.meta.object_id)
      ∷ counted (n + 1) endpoints

  insert-last :
      (k : ℕ) (ep : Endpoint Double) (m : Map ℕ (Endpoint Double))
      → All (λ e. e.0 < k) m
      → ids_metas (insert k ep m) ≡ ids_metas m ++ ((k, ep.meta) ∷ [])
  unfolding insert
  insert-last k ep [] below = refl
  insert-last k ep ((j, other) ∷ m) (first, below) = ground (arith, first, insert-last k ep m below)

  All-insert :
      (k n : ℕ) (ep : Endpoint Double) (m : Map ℕ (Endpoint Double))
      → k < n
      → All (λ e. e.0 < n) m
      → All (λ e. e.0 < n) (insert k ep m)
  unfolding insert
  All-insert k n ep [] small below = (small, tt)
  All-insert k n ep ((j, other) ∷ m) small (first, below) =
      if_keeps (All (λ e. e.0 < n)) (nat_key.same j k) (small, below)
        (if_keeps (All (λ e. e.0 < n)) (nat_key.before k j) (small, (first, below))
          (first, All-insert k n ep m small below))

  -- The endpoint that one round makes.
  abbrev made_endpoint : ℕ → Entries Double → DeviceObject Double → Endpoint Double
  made_endpoint i json d = record {
    meta =
        Reading.stored_meta qt storage (storage.quint32_of_json (value_at "key" json))
          (text_at "type" json) (text_at "objectId" json);
    exposes =
        (Reading.set_up qt storage json (text_at "objectId" json) (text_at "type" json)
          d.options).exposes;
    state = [];
  }

  set_up_entity-inserts :
      (i : ℕ) (json : Entries Double) (d : DeviceObject Double)
      → is_empty (text_at "type" json) ≡ false
      → is_empty (text_at "objectId" json) ≡ false
      → (storage.quint32_of_json (value_at "key" json) == 0) ≡ false
      → (Reading.set_up_entity qt storage i json d).endpoints
        ≡ insert ((i + 1) % 2 ^ 8) (made_endpoint i json d) d.endpoints
  unfolding Reading.set_up_entity
  set_up_entity-inserts i json d has_kind has_object_id has_key =
      rw (Reading.set_up_entity, has_kind, has_object_id, has_key) refl

  -- One round of the loop puts an endpoint behind the others.
  set_up_entity-appends :
      (i : ℕ) (options : Entries Double) (ep : Endpoint Double) (d : DeviceObject Double)
      → IsFaithful qt storage
      → IsStored ep
      → i + 1 < 2 ^ 8
      → All (λ e. e.0 < i + 1) d.endpoints
      → (ids_metas
            (Reading.set_up_entity qt storage i
              (Writing.write_entity qt storage options ep)
              d).endpoints
          ≡ ids_metas d.endpoints
            ++ ((i + 1, Reading.stored_meta qt storage ep.meta.key ep.meta.kind ep.meta.object_id)
                ∷ []))
        × All
            (λ e. e.0 < i + 1 + 1)
            (Reading.set_up_entity qt storage i
              (Writing.write_entity qt storage options ep)
              d).endpoints
  set_up_entity-appends i options ep d laws stored fits below =
      let json : Entries Double = Writing.write_entity qt storage options ep in
      let reads = write_entity-reads qt storage options ep in
      let key_eq : storage.quint32_of_json (value_at "key" json) ≡ ep.meta.key =
        ap storage.quint32_of_json reads.2 ∙ laws.key_law ep.meta.key stored.key_fits in
      let made : Endpoint Double = made_endpoint i json d in
      let inserted : (Reading.set_up_entity qt storage i json d).endpoints
          ≡ insert (i + 1) made d.endpoints =
        set_up_entity-inserts i json d (rw (reads.0) stored.has_kind)
          (rw (reads.1) stored.has_object_id) (rw key_eq stored.has_key)
        ∙ ap (λ k. insert k made d.endpoints) (omega (arith, fits)) in
      let meta_eq : made.meta
          ≡ Reading.stored_meta qt storage ep.meta.key ep.meta.kind ep.meta.object_id =
        rw (key_eq, reads.0, reads.1) refl in
      (
        ap ids_metas inserted
            ∙ (insert-last (i + 1) made d.endpoints below
                ∙ ap (λ meta. ids_metas d.endpoints ++ ((i + 1, meta) ∷ [])) meta_eq),
        rw inserted (
            All-insert (i + 1) (i + 1 + 1) made d.endpoints (omega arith)
              (All-map (λ e small. omega (arith, small)) d.endpoints below)),
      )

  abbrev pub AllStored : Map ℕ (Endpoint Double) → Type 0
  AllStored endpoints = All (λ e. IsStored e.1) endpoints

  set_up_entities-counted :
      (i : ℕ) (options : Entries Double) (endpoints : Map ℕ (Endpoint Double))
      (d : DeviceObject Double)
      → IsFaithful qt storage
      → AllStored endpoints
      → i + length endpoints < 2 ^ 8
      → All (λ e. e.0 < i + 1) d.endpoints
      → ids_metas
          (Reading.set_up_entities qt storage i
            (Writing.write_entities qt storage options endpoints)
            d).endpoints
        ≡ ids_metas d.endpoints ++ counted (i + 1) endpoints
  unfolding Reading.set_up_entities Writing.write_entities
  set_up_entities-counted i options [] d laws stored fits below =
      sym (append-nil (ids_metas d.endpoints))
  set_up_entities-counted i options ((id, ep) ∷ endpoints) d laws (this, stored) fits below =
      let after : DeviceObject Double =
        Reading.set_up_entity qt storage i (Writing.write_entity qt storage options ep) d in
      let added = set_up_entity-appends i options ep d laws this (omega (arith, fits)) below in
      set_up_entities-counted (i + 1) options endpoints after laws stored (omega (arith, fits))
        added.1
      ∙ (ap (λ l. l ++ counted (i + 1 + 1) endpoints) added.0
          ∙ append_assoc (ids_metas d.endpoints)
              ((i + 1, Reading.stored_meta qt storage ep.meta.key ep.meta.kind ep.meta.object_id)
                ∷ [])
              (counted (i + 1 + 1) endpoints))

  -- Let the conversions be faithful, let a device have fewer than 2 ^ 8 endpoints, each with a
  -- type, an object id and a key that is not 0. Then after serialize and setupEndpoints the device
  -- has an endpoint for each of them, in their order, with its key, type and object id; but the
  -- endpoints are numbered from 1 on, whatever their numbers were, and none is special.
  pub setup_endpoints-counted :
      (options : Entries Double) (endpoints : Map ℕ (Endpoint Double)) (d : DeviceObject Double)
      → IsFaithful qt storage
      → AllStored endpoints
      → length endpoints < 2 ^ 8
      → ids_metas
          (Reading.setup_endpoints qt storage
            (Writing.write_entities qt storage options endpoints)
            d).endpoints
        ≡ counted 1 endpoints
  unfolding Reading.setup_endpoints
  setup_endpoints-counted options endpoints d laws stored fits =
      set_up_entities-counted 0 options endpoints (record d { endpoints = [] }) laws stored
        (omega (arith, fits)) tt
