-- ===== src/Prelude/Lists.antt =====
-- Lists measured by native numbers, the Boolean list operations of JavaScript, and predicates on
-- all or some members.
use Prim.Native.Nat.{ℕ, suc, ◌+◌, ◌≤◌}
use mathlib.Core.Path.{◌≡◌, sym, subst}
use mathlib.Core.Bool.{Bool, true, false, ◌&&◌, ◌||◌}
use mathlib.Core.List.{List, [], ◌∷◌, ◌++◌}
use mathlib.Core.Option.{Option, none, some}
use native.Mathlib.Omega.{arith}
use mathlib.Core.List.{Memᴰ}
use mathlib.Core.Logic.{inl, inr}
use nouva_agent.Prelude.Tests.{if◌then◌else◌, Bool-cases}

module _ {ℓ} {A : Type ℓ} where
  abbrev pub length : List A → ℕ
  length [] = 0
  length (x ∷ xs) = suc (length xs)

  pub length-append : (xs ys : List A) → length (xs ++ ys) ≡ length xs + length ys
  length-append [] ys = omega arith
  length-append (x ∷ xs) ys = omega (arith, length-append xs ys)

module _ {ℓ} {A : Type ℓ} (p : A → Bool) where
  abbrev pub filter_by : List A → List A
  filter_by [] = []
  filter_by (x ∷ xs) = let rest = filter_by xs in if p x then x ∷ rest else rest

  abbrev pub any : List A → Bool
  any [] = false
  any (x ∷ xs) = p x || any xs

  abbrev pub all : List A → Bool
  all [] = true
  all (x ∷ xs) = p x && all xs

  abbrev pub find : List A → Option A
  find [] = none
  find (x ∷ xs) = let rest = find xs in if p x then some x else rest

  pub length-filter_by-le : (xs : List A) → length (filter_by xs) ≤ length xs
  length-filter_by-le [] = omega arith
  length-filter_by-le (x ∷ xs) = ground (arith, length-filter_by-le xs)

-- Every member has the property.
abbrev pub All {ℓ κ} : {A : Type ℓ} → (A → Type κ) → List A → Type κ
All P [] = Unit
All P (x ∷ xs) = P x × All P xs

pub All-append {ℓ κ} :
    {A : Type ℓ} (P : A → Type κ) (xs ys : List A) → All P xs → All P ys → All P (xs ++ ys)
All-append P [] ys hx hy = hy
All-append P (x ∷ xs) ys hx hy = (hx.0, All-append P xs ys hx.1 hy)

pub All-map {ℓ κ μ} :
    {A : Type ℓ} (P : A → Type κ) (Q : A → Type μ) (xs : List A)
    → ((x : A) → P x → Q x)
    → All P xs
    → All Q xs
All-map P Q [] f h = tt
All-map P Q (x ∷ xs) f h = (f x h.0, All-map P Q xs f h.1)

pub All-zip {ℓ κ μ ν} :
    {A : Type ℓ} (P : A → Type κ) (Q : A → Type μ) (R : A → Type ν) (xs : List A)
    → ((x : A) → P x → Q x → R x)
    → All P xs
    → All Q xs
    → All R xs
All-zip P Q R [] f h k = tt
All-zip P Q R (x ∷ xs) f h k = (f x h.0 k.0, All-zip P Q R xs f h.1 k.1)

module _ {ℓ} {A : Type ℓ} (p : A → Bool) where
  -- What a search found is a member that passes the test.
  pub find-some : (xs : List A) (a : A) → find p xs ≡ some a → Memᴰ a xs × (p a ≡ true)
  find-some [] a e = cc
  find-some (x ∷ xs) a e = elim (Bool-cases (p x)) [
    | inl hit ↦ let same : x ≡ a = ground arith in (Memᴰ.head (sym same), rw (← same) hit)
    | inr miss ↦ let (m, t) = find-some xs a (rw miss at e) in (Memᴰ.tail m, t)
  ]

  pub find-none : (xs : List A) → find p xs ≡ none → All (λ x. p x ≡ false) xs
  find-none [] e = tt
  find-none (x ∷ xs) e = elim (Bool-cases (p x)) [
    | inl hit ↦ absurd (cc (rw hit at e))
    | inr miss ↦ (miss, find-none xs (rw miss at e))
  ]

-- What holds of all holds of a member.
pub All-mem {ℓ κ} : {A : Type ℓ} (P : A → Type κ) (xs : List A) (a : A) → All P xs → Memᴰ a xs → P a
All-mem P [] a h m = elim m [ ]
All-mem P (x ∷ xs) a h (Memᴰ.head e) = subst P (sym e) h.0
All-mem P (x ∷ xs) a h (Memᴰ.tail m) = All-mem P xs a h.1 m
