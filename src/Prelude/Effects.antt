-- ===== src/Prelude/Effects.antt =====
-- Asynchronous code as a function of the history of its calls. Whatever lies outside the program
-- answers each call by a function of the history before it, so that a theorem for every such
-- function holds for every behaviour of the outside, at every time.
use mathlib.Core.List.{List, ◌∷◌}
use mathlib.Core.Path.{◌≡◌, refl}
use mathlib.Core.Logic.{◌⊎◌, inl, inr}

-- How a call or a block ends: with a value, with what it threw, or without an end on the fuel given.
pub data Result (X A : Type 0) : Type 0 where
  ok : A → Result X A
  threw : X → Result X A
  stuck : Result X A

-- What the outside answers to a call.
pub data Answer (X A : Type 0) : Type 0 where
  value : A → Answer X A
  failure : X → Answer X A

abbrev pub ended : {X A : Type 0} → Answer X A → Result X A
ended (value a) = ok a
ended (failure x) = threw x

abbrev pub Act : Type 0 → Type 0 → Type 0 → Type 0
Act E X A = List E → Result X A × List E

abbrev pub pure : {E X A : Type 0} → A → Act E X A
pure a t = (ok a, t)

abbrev pub throw : {E X A : Type 0} → X → Act E X A
throw x t = (threw x, t)

abbrev pub no_fuel : {E X A : Type 0} → Act E X A
no_fuel t = (stuck, t)

-- A call: its event joins the history, and the answer is the outside's.
abbrev pub call : {E X A : Type 0} → E → (List E → Answer X A) → Act E X A
call e answer t = (ended (answer t), e ∷ t)

abbrev pub and_then :
    {E X A B : Type 0} → Result X A × List E → (A → Act E X B) → Result X B × List E
and_then (ok a, t) f = f a t
and_then (threw x, t) f = (threw x, t)
and_then (stuck, t) f = (stuck, t)

infixl 5 ◌>>=◌ ◌>>◌
abbrev pub ◌>>=◌ : {E X A B : Type 0} → Act E X A → (A → Act E X B) → Act E X B
◌>>=◌ m f t = and_then (m t) f

abbrev pub ◌>>◌ : {E X A B : Type 0} → Act E X A → Act E X B → Act E X B
◌>>◌ m k t = and_then (m t) (λ _. k)

abbrev pub or_catch : {E X A : Type 0} → Result X A × List E → (X → Act E X A) → Result X A × List E
or_catch (ok a, t) f = (ok a, t)
or_catch (threw x, t) f = f x t
or_catch (stuck, t) f = (stuck, t)

-- `try { m } catch (x) { f x }`
abbrev pub catching : {E X A : Type 0} → Act E X A → (X → Act E X A) → Act E X A
catching m f t = or_catch (m t) f

-- What holds at the end of a run: `Q` of a value, `R` of what was thrown, `S` without fuel.
abbrev pub Ends :
    {E X A : Type 0}
    → (A → List E → Type 0)
    → (X → List E → Type 0)
    → (List E → Type 0)
    → Result X A × List E
    → Type 0
Ends Q R S (ok a, t) = Q a t
Ends Q R S (threw x, t) = R x t
Ends Q R S (stuck, t) = S t

pub and_then-Ends :
    {E X A B : Type 0} (Q : A → List E → Type 0) (R : X → List E → Type 0) (S : List E → Type 0)
    (P : B → List E → Type 0) (r : Result X A × List E) (f : A → Act E X B)
    → Ends Q R S r
    → ((a : A) (t : List E) → Q a t → Ends P R S (f a t))
    → Ends P R S (and_then r f)
and_then-Ends Q R S P (ok a, t) f h k = k a t h
and_then-Ends Q R S P (threw x, t) f h k = h
and_then-Ends Q R S P (stuck, t) f h k = h

pub or_catch-Ends :
    {E X A : Type 0} (Q : A → List E → Type 0) (R R' : X → List E → Type 0) (S : List E → Type 0)
    (r : Result X A × List E) (f : X → Act E X A)
    → Ends Q R S r
    → ((x : X) (t : List E) → R x t → Ends Q R' S (f x t))
    → Ends Q R' S (or_catch r f)
or_catch-Ends Q R R' S (ok a, t) f h k = h
or_catch-Ends Q R R' S (threw x, t) f h k = k x t h
or_catch-Ends Q R R' S (stuck, t) f h k = h

pub Answer-cases :
    {X A : Type 0} (a : Answer X A) → ((v : A) × (a ≡ value v)) ⊎ ((x : X) × (a ≡ failure x))
Answer-cases (value v) = inl (v, refl)
Answer-cases (failure x) = inr (x, refl)

pub Ends-weaken :
    {E X A : Type 0} (Q Q' : A → List E → Type 0) (R R' : X → List E → Type 0) (S : List E → Type 0)
    (r : Result X A × List E)
    → ((a : A) (t : List E) → Q a t → Q' a t)
    → ((x : X) (t : List E) → R x t → R' x t)
    → Ends Q R S r
    → Ends Q' R' S r
Ends-weaken Q Q' R R' S (ok a, t) f g h = f a t h
Ends-weaken Q Q' R R' S (threw x, t) f g h = g x t h
Ends-weaken Q Q' R R' S (stuck, t) f g h = h

pub call-Ends :
    {E X A : Type 0} (Q : A → List E → Type 0) (R : X → List E → Type 0) (S : List E → Type 0)
    (r : Answer X A) (t : List E)
    → ((a : A) → Q a t)
    → ((x : X) → R x t)
    → Ends Q R S (ended r, t)
call-Ends Q R S (value a) t f g = f a
call-Ends Q R S (failure x) t f g = g x
