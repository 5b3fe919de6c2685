-- ===== src/Prelude/Text.antt =====
-- A QString, as a native text, and lists of texts (QStringList).
use Prim.Native.Nat.{ℕ, suc}
use Prim.Native.String.{String}
use text.Mathlib.Text.{◌==◌}
use mathlib.Core.Bool.{Bool, true, false}
use mathlib.Core.Option.{Option, none, some}
use mathlib.Core.List.{List, [], ◌∷◌, ◌++◌}
use homed_service_esphome.Prelude.Tests.{if◌then◌else◌}

abbrev pub Text : Type 0
Text = String

abbrev pub text_eq : Text → Text → Bool
text_eq s t = s == t

abbrev pub is_empty : Text → Bool
is_empty s = s == ""

-- QStringList::contains
unfoldable pub contains_text : List Text → Text → Bool
contains_text [] t = false
contains_text (s ∷ rest) t = if s == t then true else contains_text rest t

-- QStringList::indexOf, with `none` for -1
unfoldable pub index_of : List Text → Text → Option ℕ
index_of [] t = none
index_of (s ∷ rest) t = elim (index_of rest t) [
  | none ↦ if s == t then some 0 else none
  | some i ↦ if s == t then some 0 else some (suc i)
]

abbrev pub append_new : List Text → Text → List Text
append_new l t = if contains_text l t then l else l ++ (t ∷ [])
