-- ===== src/Controller/Registry.antt =====
-- The list of devices: no two of them have the same host, and a new object is none of them.
use homed_service_esphome.Prelude.{
  ℕ, zero, suc, ◌<◌, ◌≡◌, sym, true, false, List, [], ◌∷◌, ◌++◌, none, arith, All, All-map,
  All-both,
}
use homed_service_esphome.Prelude.Text.{Text, text_eq}
use homed_service_esphome.Prelude.Maps.{text_key}
use homed_service_esphome.Device.{DeviceObject, Store, modify, append_device, by_host, find_host}
use homed_service_esphome.Manager.Refinement.{knows, listed_known}
use homed_service_esphome.Controller.Commands.{remove_at}

module _ (P : ℕ → Type 0) where
  last_of : (id : ℕ) (ids : List ℕ) → All P (ids ++ (id ∷ [])) → P id
  last_of id [] (this, none_left) = this
  last_of id (j ∷ ids) (this, rest) = last_of id ids rest

  All-remove_at : (i : ℕ) (ids : List ℕ) → All P ids → All P (remove_at i ids)
  unfolding remove_at
  All-remove_at i [] h = tt
  All-remove_at zero (id ∷ ids) (first, rest) = rest
  All-remove_at (suc i) (id ∷ ids) (first, rest) = (first, All-remove_at i ids rest)

  All-snoc : (id : ℕ) (ids : List ℕ) → All P ids → P id → All P (ids ++ (id ∷ []))
  All-snoc id [] h last = (last, tt)
  All-snoc id (j ∷ ids) (first, rest) last = (first, All-snoc id ids rest last)

module _ {Double : Type 0} where
  -- No device after the one with this host has it too.
  abbrev pub HasOther : (ℕ → DeviceObject Double) → Text → ℕ → Type 0
  HasOther objects host id = text_eq (objects id).host host ≡ false

  abbrev pub AreDistinct : (ℕ → DeviceObject Double) → List ℕ → Type 0
  AreDistinct objects [] = Unit
  AreDistinct objects (id ∷ ids) =
      All (HasOther objects (objects id).host) ids × AreDistinct objects ids

  -- No two devices of the list have the same host, and the number of the next object is above them.
  pub record IsProper (store : Store Double) : Type 0 where
    pub are_distinct : AreDistinct store.objects store.listed
    pub are_old : All (λ id. id < store.fresh) store.listed

  AreDistinct-remove_at :
      (objects : ℕ → DeviceObject Double) (i : ℕ) (ids : List ℕ)
      → AreDistinct objects ids
      → AreDistinct objects (remove_at i ids)
  unfolding remove_at
  AreDistinct-remove_at objects i [] h = tt
  AreDistinct-remove_at objects zero (id ∷ ids) (first, rest) = rest
  AreDistinct-remove_at objects (suc i) (id ∷ ids) (first, rest) =
      (All-remove_at _ i ids first, AreDistinct-remove_at objects i ids rest)

  pub IsProper-remove_at :
      (i : ℕ) (store : Store Double)
      → IsProper store
      → IsProper (record store { listed = remove_at i store.listed })
  IsProper-remove_at i store proper = record {
    are_distinct = AreDistinct-remove_at store.objects i store.listed proper.are_distinct;
    are_old = All-remove_at _ i store.listed proper.are_old;
  }

  -- Hosts decide it.
  AreDistinct-same_hosts :
      (objects others : ℕ → DeviceObject Double) (ids : List ℕ)
      → All (λ id. (objects id).host ≡ (others id).host) ids
      → AreDistinct objects ids
      → AreDistinct others ids
  AreDistinct-same_hosts objects others [] same h = tt
  AreDistinct-same_hosts objects others (id ∷ ids) (this, same) (first, rest) =
      (hosts_differ ids same first, AreDistinct-same_hosts objects others ids same rest)
    where
      hosts_differ :
          (js : List ℕ)
          → All (λ j. (objects j).host ≡ (others j).host) js
          → All (HasOther objects (objects id).host) js
          → All (HasOther others (others id).host) js
      hosts_differ [] same h = tt
      hosts_differ (j ∷ js) (e, same) (other, h) =
          (rw (sym e, sym this) other, hosts_differ js same h)

  pub IsProper-modify :
      (id : ℕ) (f : DeviceObject Double → DeviceObject Double) (store : Store Double)
      → ((d : DeviceObject Double) → (f d).host ≡ d.host)
      → IsProper store
      → IsProper (modify id f store)
  unfolding modify
  IsProper-modify id f store keeps proper = record {
    are_distinct =
        AreDistinct-same_hosts store.objects (modify id f store).objects store.listed
          (all_same store.listed) proper.are_distinct;
    are_old = proper.are_old;
  }
    where
      all_same :
          (ids : List ℕ)
          → All (λ j. (store.objects j).host ≡ ((modify id f store).objects j).host) ids
      all_same [] = tt
      all_same (j ∷ ids) = (ground (arith, keeps (store.objects j)), all_same ids)

  AreDistinct-snoc :
      (objects : ℕ → DeviceObject Double) (id : ℕ) (ids : List ℕ)
      → AreDistinct objects ids
      → All (λ j. text_eq (objects id).host (objects j).host ≡ false) ids
      → AreDistinct objects (ids ++ (id ∷ []))
  AreDistinct-snoc objects id [] h apart = (tt, tt)
  AreDistinct-snoc objects id (j ∷ ids) (first, rest) (this, apart) =
      (All-snoc _ id ids first this, AreDistinct-snoc objects id ids rest apart)

  -- A host that byHost does not find.
  find_host-absent :
      (objects : ℕ → DeviceObject Double) (host : Text) (ids : List ℕ)
      → find_host objects host ids ≡ none
      → All (λ j. text_eq host (objects j).host ≡ false) ids
  unfolding find_host
  find_host-absent objects host [] e = tt
  find_host-absent objects host (j ∷ ids) e = (
    ground (
      arith,
      e,
      text_key.same_iff (objects j).host host,
      text_key.same_iff host (objects j).host,
    ),
    find_host-absent objects host ids (ground (arith, e)),
  )

  -- append, of a device whose host byHost does not find.
  pub IsProper-append_device :
      (d : DeviceObject Double) (store : Store Double)
      → by_host d.host store ≡ none
      → IsProper store
      → IsProper (append_device d store)
  unfolding append_device by_host
  IsProper-append_device d store absent proper = record {
    are_distinct =
        AreDistinct-snoc (append_device d store).objects store.fresh store.listed
          (AreDistinct-same_hosts store.objects (append_device d store).objects store.listed
            (All-map (λ j below. ground (arith, below)) store.listed proper.are_old)
            proper.are_distinct)
          (All-both (λ j apart below. ground (arith, apart, below)) store.listed
            (find_host-absent store.objects d.host store.listed absent) proper.are_old);
    are_old =
        All-snoc _ store.fresh store.listed
          (All-map (λ j below. omega (arith, below)) store.listed proper.are_old) (omega arith);
  }

  -- An appended device is found by its host.
  pub append_device-knows :
      (d : DeviceObject Double) (store : Store Double)
      → knows (append_device d store) ((append_device d store).objects store.fresh).host ≡ true
  unfolding append_device
  append_device-knows d store =
      last_of _ store.fresh store.listed (listed_known (append_device d store))
