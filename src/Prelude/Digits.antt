-- ===== src/Prelude/Digits.antt =====
-- Texts of decimal digits, and how long the decimal form of a number is.
use Prim.Native.Nat.{ℕ, zero, suc, ◌+◌, ◌/◌, ◌%◌, ◌^◌, ◌≤◌, ◌<◌}
use Prim.Native.Char.{Char, code}
use Prim.Native.String.{String, [], ◌∷◌, ◌++◌}
use mathlib.Core.Path.{◌≡◌, refl}
use mathlib.Core.Logic.{inl, inr}
use mathlib.Core.Bool.{Bool, true, false, ◌&&◌}
use native.Mathlib.Omega.{arith}
use text.Mathlib.TextLemmas.{nil-append, cons-append}
use nouva_agent.Prelude.Tests.{ltb, leb, Bool-cases}
unfoldable use nouva_agent.Prelude.Text.{digit, decimal_on, decimal}

abbrev pub is_digit : Char → Bool
is_digit c = leb 48 (code c) && leb (code c) 57

abbrev pub are_digits : String → Bool
are_digits [] = true
are_digits (c ∷ s) = is_digit c && are_digits s

abbrev pub size : String → ℕ
size [] = 0
size (c ∷ s) = suc (size s)

are_digits-append :
    (s t : String) → are_digits s ≡ true → are_digits t ≡ true → are_digits (s ++ t) ≡ true
are_digits-append [] t hs ht = rw (nil-append) ht
are_digits-append (c ∷ s) t hs ht =
    rw cons-append (ground (arith, are_digits-append s t (ground arith) ht))

size-append : (s t : String) → size (s ++ t) ≡ size s + size t
size-append [] t = rw (nil-append) (omega arith)
size-append (c ∷ s) t = rw cons-append (omega (arith, size-append s t))

-- Digits, at least one and at most `k`.
abbrev pub IsShortNumber : ℕ → String → Type 0
IsShortNumber k s = (are_digits s ≡ true) × (size s ≤ k) × (1 ≤ size s)

digit-one : (n : ℕ) → (are_digits (digit n) ≡ true) × (size (digit n) ≡ 1)
unfolding digit
digit-one zero = (refl, refl)
digit-one (suc zero) = (refl, refl)
digit-one (suc (suc zero)) = (refl, refl)
digit-one (suc (suc (suc zero))) = (refl, refl)
digit-one (suc (suc (suc (suc zero)))) = (refl, refl)
digit-one (suc (suc (suc (suc (suc zero))))) = (refl, refl)
digit-one (suc (suc (suc (suc (suc (suc zero)))))) = (refl, refl)
digit-one (suc (suc (suc (suc (suc (suc (suc zero))))))) = (refl, refl)
digit-one (suc (suc (suc (suc (suc (suc (suc (suc zero)))))))) = (refl, refl)
digit-one (suc (suc (suc (suc (suc (suc (suc (suc (suc n))))))))) = (refl, refl)

-- One more digit.
longer-IsShortNumber :
    (k n : ℕ) (front : String)
    → ltb n 10 ≡ false
    → n < 10 ^ suc k
    → ((j : ℕ) → n / 10 < 10 ^ suc j → IsShortNumber (suc j) front)
    → IsShortNumber (suc k) (front ++ digit (n % 10))
longer-IsShortNumber zero n front high few f = ground arith
longer-IsShortNumber (suc k) n front high few f =
    let (d, one) = digit-one (n % 10) in
    let (rest, l, m) = f k (omega arith) in
    let sum = size-append front (digit (n % 10)) in
    (are_digits-append front (digit (n % 10)) rest d, omega arith, omega arith)

on-IsShortNumber :
    (fuel k n : ℕ) → n < fuel → n < 10 ^ suc k → IsShortNumber (suc k) (decimal_on fuel n)
unfolding decimal_on
on-IsShortNumber zero k n enough small = ground arith
on-IsShortNumber (suc fuel) k n enough small = elim (Bool-cases (ltb n 10)) [
  | inl low ↦ let (d, one) = digit-one n in rw low (d, ground arith, ground arith)
  | inr high ↦ rw high (
      longer-IsShortNumber k n (decimal_on fuel (n / 10)) high small
        (λ j few. on-IsShortNumber fuel j (n / 10) (ground arith) few))
]

-- A number below 10^k has at most `k` digits.
pub decimal-IsShortNumber : (k n : ℕ) → n < 10 ^ suc k → IsShortNumber (suc k) (decimal n)
unfolding decimal
decimal-IsShortNumber k n small = on-IsShortNumber (n + 1) k n (omega arith) small
