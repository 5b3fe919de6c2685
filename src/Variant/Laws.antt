-- ===== src/Variant/Laws.antt =====
-- What reading gives after writing.
use homed_service_esphome.Prelude.{◌≡◌, refl, some, if◌then◌else◌, arith}
use homed_service_esphome.Prelude.Text.{Text}
use homed_service_esphome.Prelude.Maps.{text_key}
use homed_service_esphome.Variant.{Variant, Entries, end, entry, find, put}

pub find-put :
    {Double : Type 0} (k j : Text) (v : Variant Double) (m : Entries Double)
    → find j (put k v m) ≡ (if text_key.same k j then some v else find j m)
unfolding find put
find-put k j v end = refl
find-put k j v (entry i w m) =
    ground
      (arith, text_key.same_iff k j, text_key.same_iff i k, text_key.same_iff i j, find-put k j v m)

pub find-put_self :
    {Double : Type 0} (k : Text) (v : Variant Double) (m : Entries Double)
    → find k (put k v m) ≡ some v
find-put_self k v m = ground (arith, find-put k k v m, text_key.same_iff k k)
