-- ===== src/Prelude/Trim.antt =====
-- What `trim` does to a text.
use nouva_agent.Prelude.Text.{trim, trim_start, trim_end, is_blank, is_space}
use nouva_agent.Prelude.Tests.{Bool-cases}
use mathlib.Core.Path.{◌≡◌, refl, ap}
use mathlib.Core.Bool.{false}
use Prim.Native.String.{String, [], ◌∷◌}
use native.Mathlib.Omega.{arith}
use mathlib.Core.Logic.{inl, inr}
use Prim.Native.Char.{Char, code}

-- A text that begins with no white space.
abbrev IsStarted : String → Type 0
IsStarted [] = Unit {0}
IsStarted (c ∷ s) = is_space (code c) ≡ false

trim_start-IsStarted : (s : String) → IsStarted (trim_start s)
unfolding trim_start
trim_start-IsStarted [] = tt
trim_start-IsStarted (c ∷ s) = elim (Bool-cases (is_space (code c))) [
  | inl space ↦ rw space (trim_start-IsStarted s)
  | inr solid ↦ rw solid solid
]

trim_start_of_IsStarted : (s : String) → IsStarted s → trim_start s ≡ s
unfolding trim_start
trim_start_of_IsStarted [] h = refl
trim_start_of_IsStarted (c ∷ s) h = rw h

trim_end-IsStarted : (s : String) → IsStarted s → IsStarted (trim_end s)
unfolding trim_end
trim_end-IsStarted [] h = tt
trim_end-IsStarted (c ∷ s) h = elim (Bool-cases (is_blank (c ∷ s))) [
  | inl blank ↦ rw blank tt
  | inr solid ↦ rw solid h
]

is_blank-cons :
    (c : Char) (s t : String)
    → is_blank (c ∷ s) ≡ false
    → (is_blank s ≡ false → is_blank t ≡ false)
    → is_blank (c ∷ t) ≡ false
unfolding is_blank
is_blank-cons c s t h f = ground arith

is_blank-trim_end : (s : String) → is_blank s ≡ false → is_blank (trim_end s) ≡ false
unfolding trim_end
is_blank-trim_end [] h = h
is_blank-trim_end (c ∷ s) h = rw h (is_blank-cons c s (trim_end s) h (is_blank-trim_end s))

trim_end_idem : (s : String) → trim_end (trim_end s) ≡ trim_end s
unfolding trim_end
trim_end_idem [] = refl
trim_end_idem (c ∷ s) = elim (Bool-cases (is_blank (c ∷ s))) [
  | inl blank ↦ rw blank
  | inr solid ↦
      rw (solid, is_blank-cons c s (trim_end s) solid (is_blank-trim_end s))
        (ap (String.◌∷◌ c) (trim_end_idem s))
]

-- Trimming a second time changes nothing.
pub trim_idem : (s : String) → trim (trim s) ≡ trim s
unfolding trim
trim_idem s =
    rw (trim_start_of_IsStarted (trim s) (trim_end-IsStarted _ (trim_start-IsStarted s)))
      (trim_end_idem (trim_start s))
