-- ===== src/Database/Slots.antt =====
-- The numbers of special entities, which the database holds under texts.
use homed_service_esphome.Prelude.{
  ℕ, ◌^◌, ◌<◌, ◌≡◌, refl, sym, ◌∙◌, Bool, true, false, List, [], ◌∷◌, none, some, arith, Bool-cases,
  if_keeps, Option-cases, inl, inr, All, ◌==◌, ==_iff,
}
use homed_service_esphome.Prelude.Text.{Text, text_eq}
use homed_service_esphome.Prelude.Maps.{
  Map, lookup, insert, has, nat_key, text_key, lookup-insert, has-insert,
}
use homed_service_esphome.Qt.{Qt}
use homed_service_esphome.Variant.{Variant, Entries, end, entry, text, int, to_text, put, find}
use homed_service_esphome.Variant.Laws.{find-put}
use homed_service_esphome.Database.Storage.{Storage}
use homed_service_esphome.Database.Reading
use homed_service_esphome.Database.Writing

-- What Qt documents of the conversions.
pub record IsFaithful (qt : Qt) (storage : Storage qt) : Type 0 where
  pub int_law : (otherwise n : ℕ) → storage.to_int otherwise (int n) ≡ n
  pub base64_law : (bytes : List ℕ) → storage.from_base64 (storage.to_base64 bytes) ≡ bytes
  pub number_law : (n : ℕ) → n < 2 ^ 31 → storage.text_to_int (qt.number n) ≡ n
  pub seconds_law : (n : ℕ) → n < 2 ^ 53 → storage.qint64_of_json (storage.json_of_qint64 n) ≡ n
  pub key_law : (n : ℕ) → n < 2 ^ 32 → storage.quint32_of_json (storage.json_of_quint32 n) ≡ n

-- Each number stands once, and is an int.
abbrev pub IsSlotMap : Map ℕ Text → Type 0
IsSlotMap slots = All (λ e. (lookup e.0 slots ≡ some e.1) × (e.0 < 2 ^ 31)) slots

module _ (qt : Qt) (storage : Storage qt) (laws : IsFaithful qt storage) (slots : Map ℕ Text) where
  open qt use {Double}

  -- An entry that stands for one of the slots.
  abbrev IsSlot : Text → Variant Double → Type 0
  IsSlot key value =
      (k : ℕ) × (name : Text) × ((key ≡ qt.number k)
        × (value ≡ text name)
        × (lookup k slots ≡ some name)
        × (k < 2 ^ 31))

  abbrev AreSlots : Entries Double → Type 0
  AreSlots end = Unit
  AreSlots (entry key value json) = IsSlot key value × AreSlots json

  put-AreSlots :
      (key : Text) (value : Variant Double) (json : Entries Double)
      → IsSlot key value
      → AreSlots json
      → AreSlots (put key value json)
  unfolding put
  put-AreSlots key value end slot are = (slot, tt)
  put-AreSlots key value (entry j w json) slot (first, rest) =
      if_keeps AreSlots (text_key.same j key) (slot, rest)
        (if_keeps AreSlots (text_key.before key j) (slot, (first, rest))
          (first, put-AreSlots key value json slot rest))

  abbrev IsOwn : ℕ × Text → Type 0
  IsOwn e = (lookup e.0 slots ≡ some e.1) × (e.0 < 2 ^ 31)

  write_slots-AreSlots :
      (own : Map ℕ Text) (json : Entries Double)
      → All IsOwn own
      → AreSlots json
      → AreSlots (Writing.write_slots qt storage own json)
  unfolding Writing.write_slots
  write_slots-AreSlots [] json own are = are
  write_slots-AreSlots ((k, name) ∷ rest) json (this, own) are =
      write_slots-AreSlots rest (put (qt.number k) (text name) json) own
        (put-AreSlots (qt.number k) (text name) json (k, name, (refl, refl, this.0, this.1)) are)

  -- Reading adds no number that is not in the slots, and no other name.
  abbrev Agrees : Map ℕ Text → Type 0
  Agrees acc = (n : ℕ) (name : Text) → lookup n acc ≡ some name → lookup n slots ≡ some name

  insert-Agrees :
      (k : ℕ) (name : Text) (acc : Map ℕ Text)
      → lookup k slots ≡ some name
      → Agrees acc
      → Agrees (insert k name acc)
  insert-Agrees k name acc own agrees n other found = elim (Bool-cases (k == n)) [
    | inl e ↦ ground (arith, e, own, found, lookup-insert k n name acc, ==_iff k n)
    | inr e ↦ agrees n other (ground (arith, e, found, lookup-insert k n name acc))
  ]

  slots_of-Agrees :
      (json : Entries Double) (acc : Map ℕ Text)
      → AreSlots json
      → Agrees acc
      → Agrees (Reading.slots_of qt storage json acc)
  unfolding Reading.slots_of
  slots_of-Agrees end acc are agrees = agrees
  slots_of-Agrees (entry key value json) acc ((k, name, (is_key, is_value, own, small)), are)
        agrees =
      slots_of-Agrees json (insert (storage.text_to_int key) (to_text value) acc) are
        (rw (is_key, is_value, laws.number_law k small) (insert-Agrees k name acc own agrees))

  slots_of-keeps :
      (n : ℕ) (json : Entries Double) (acc : Map ℕ Text)
      → has n acc ≡ true
      → has n (Reading.slots_of qt storage json acc) ≡ true
  unfolding Reading.slots_of
  slots_of-keeps n end acc h = h
  slots_of-keeps n (entry key value json) acc h =
      slots_of-keeps n json (insert (storage.text_to_int key) (to_text value) acc)
        (ground (arith, h, has-insert (storage.text_to_int key) n (to_text value) acc))

  abbrev is_entry : Text → Entries Double → Bool
  is_entry key json = elim (find key json) [ none ↦ false | some v ↦ true ]

  slots_of-finds :
      (n : ℕ) (json : Entries Double) (acc : Map ℕ Text)
      → n < 2 ^ 31
      → is_entry (qt.number n) json ≡ true
      → has n (Reading.slots_of qt storage json acc) ≡ true
  unfolding Reading.slots_of find
  slots_of-finds n end acc small h = absurd (ground (arith, h))
  slots_of-finds n (entry key value json) acc small h =
      elim (Bool-cases (text_eq key (qt.number n))) [
        | inl e ↦ slots_of-keeps n json (insert (storage.text_to_int key) (to_text value) acc) (
            rw ((text_key.same_iff key (qt.number n)).0 e, laws.number_law n small)
              (ground (arith, has-insert n n (to_text value) acc, ==_iff n n)))
        | inr e ↦
            slots_of-finds n json (insert (storage.text_to_int key) (to_text value) acc) small
              (ground (arith, e, h))
      ]

  write_slots-keeps :
      (key : Text) (own : Map ℕ Text) (json : Entries Double)
      → is_entry key json ≡ true
      → is_entry key (Writing.write_slots qt storage own json) ≡ true
  unfolding Writing.write_slots
  write_slots-keeps key [] json h = h
  write_slots-keeps key ((k, name) ∷ own) json h =
      write_slots-keeps key own (put (qt.number k) (text name) json)
        (ground (arith, h, find-put (qt.number k) key (text name) json))

  write_slots-finds :
      (n : ℕ) (name : Text) (own : Map ℕ Text) (json : Entries Double)
      → lookup n own ≡ some name
      → is_entry (qt.number n) (Writing.write_slots qt storage own json) ≡ true
  unfolding Writing.write_slots lookup
  write_slots-finds n name [] json found = absurd (ground (arith, found))
  write_slots-finds n name ((k, value) ∷ own) json found = elim (Bool-cases (k == n)) [
    | inl e ↦ write_slots-keeps (qt.number n) own (put (qt.number k) (text value) json) (
        rw ((==_iff k n).0 e) (
          ground (
            arith,
            find-put (qt.number n) (qt.number n) (text value) json,
            text_key.same_iff (qt.number n) (qt.number n),
          )))
    | inr e ↦
        write_slots-finds n name own (put (qt.number k) (text value) json)
          (ground (arith, e, found))
  ]

  abbrev pub read_again : Map ℕ Text
  read_again = Reading.slots_of qt storage (Writing.write_slots qt storage slots end) []

  agreeing :
      (n : ℕ) (acc : Map ℕ Text)
      → Agrees acc
      → ((name : Text) → lookup n slots ≡ some name → has n acc ≡ true)
      → lookup n acc ≡ lookup n slots
  agreeing n acc agrees covers = elim (Option-cases (lookup n acc)) [
    | inr (name, found) ↦ found ∙ sym (agrees n name found)
    | inl absent ↦ elim (Option-cases (lookup n slots)) [
      | inl none_eq ↦ absent ∙ sym none_eq
      | inr (name, some_eq) ↦ absurd (ground (arith, absent, covers name some_eq))
    ]
  ]

  number_small :
      (n : ℕ) (name : Text) (own : Map ℕ Text)
      → All IsOwn own
      → lookup n own ≡ some name
      → n < 2 ^ 31
  unfolding lookup
  number_small n name [] own found = absurd (ground (arith, found))
  number_small n name ((k, value) ∷ rest) (this, own) found = elim (Bool-cases (k == n)) [
    | inl e ↦ ground (arith, e, this.1, ==_iff k n)
    | inr e ↦ number_small n name rest own (ground (arith, e, found))
  ]

  -- Let each number stand once in the slots, and be an int. Then each number has the same name in
  -- what is read back as in the slots, and a number without a name has none.
  pub slots_of-write_slots : IsSlotMap slots → (n : ℕ) → lookup n read_again ≡ lookup n slots
  unfolding lookup
  slots_of-write_slots own n =
      agreeing n read_again
        (slots_of-Agrees (Writing.write_slots qt storage slots end) []
          (write_slots-AreSlots slots end own tt) (λ k name found. absurd (ground (arith, found))))
        (λ name found.
          slots_of-finds n (Writing.write_slots qt storage slots end) []
            (number_small n name slots own found) (write_slots-finds n name slots end found))
