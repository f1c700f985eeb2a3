-- ===== src/Prelude/Names.antt =====
-- Sets and maps keyed by text, as lists of their keys.
use mathlib.Core.Path.{◌≡◌, refl}
use mathlib.Core.Logic.{inl, inr}
use mathlib.Core.Bool.{Bool, true, false}
use mathlib.Core.List.{List, [], ◌∷◌}
use Prim.Native.String.{String}
use native.Mathlib.Omega.{arith}
use text.Mathlib.Text.{◌==◌ as str_eq}
use text.Mathlib.TextEquality.{eq_iff}
use nouva_agent.Prelude.Tests.{if◌then◌else◌, Bool-cases}
use nouva_agent.Prelude.Lists.{All, any}

-- `set.has(name)`
abbrev pub is_member : String → List String → Bool
is_member name names = any (λ n. str_eq n name) names

-- `set.delete(name)`, of names that are distinct.
abbrev pub remove : String → List String → List String
remove name [] = []
remove name (n ∷ names) = let rest = remove name names in if str_eq n name then names else n ∷ rest

abbrev pub IsAbsent : String → List String → Type 0
IsAbsent name names = is_member name names ≡ false

abbrev pub IsDistinct : List String → Type 0
IsDistinct [] = Unit {0}
IsDistinct (n ∷ names) = IsAbsent n names × IsDistinct names

-- No name of the first list is in the second.
abbrev pub IsApart : List String → List String → Type 0
IsApart ws names = All (λ w. IsAbsent w names) ws

pub IsAbsent-of_apart :
    (name : String) (ws names : List String)
    → is_member name ws ≡ true
    → IsApart ws names
    → IsAbsent name names
IsAbsent-of_apart name [] names m a = absurd (cc)
IsAbsent-of_apart name (w ∷ ws) names m a = elim (Bool-cases (str_eq w name)) [
  | inl hit ↦ rw (← (eq_iff w name).0 hit) a.0
  | inr miss ↦ IsAbsent-of_apart name ws names (rw miss at m) a.1
]

pub remove-IsAbsent :
    (name other : String) (names : List String)
    → IsAbsent other names
    → IsAbsent other (remove name names)
remove-IsAbsent name other [] h = refl
remove-IsAbsent name other (n ∷ names) h = ground (arith, remove-IsAbsent name other names)

pub remove-IsDistinct :
    (name : String) (names : List String) → IsDistinct names → IsDistinct (remove name names)
remove-IsDistinct name [] d = tt
remove-IsDistinct name (n ∷ names) d =
    ground (arith, remove-IsAbsent name n names, remove-IsDistinct name names)

-- Once a name is deleted, it is not there.
pub remove_self :
    (name : String) (names : List String) → IsDistinct names → IsAbsent name (remove name names)
remove_self name [] d = refl
remove_self name (n ∷ names) d = elim (Bool-cases (str_eq n name)) [
  | inl hit ↦ rw (hit, ← (eq_iff n name).0 hit) d.0
  | inr miss ↦ rw (miss, remove) (ground (arith, remove_self name names d.1))
]
