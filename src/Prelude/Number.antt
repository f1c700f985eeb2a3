-- ===== src/Prelude/Number.antt =====
-- The numbers of JavaScript, as far as the program tests them: NaN, the infinities, and a finite
-- value as a sign, its whole part and the rest in units of 2^-1074, of which every finite double
-- is a multiple.
use Prim.Native.Nat.{ℕ, ◌+◌, ◌*◌, ◌^◌}
use mathlib.Core.Bool.{Bool, true, false, not, ◌&&◌, ◌||◌}
use nouva_agent.Prelude.Tests.{ltb, leb, ◌==◌, if◌then◌else◌}

pub data Number : Type 0 where
  nan : Number
  infinite : (negative : Bool) → Number
  finite : (negative : Bool) (whole rest : ℕ) → Number

-- The double that a natural number below 2^53 is.
abbrev pub of_ℕ : ℕ → Number
of_ℕ n = finite false n 0

-- `Number.isInteger`.
abbrev pub is_integer : Number → Bool
is_integer (finite negative whole rest) = rest == 0
is_integer _ = false

-- `Number.isFinite`.
abbrev pub is_finite : Number → Bool
is_finite (finite negative whole rest) = true
is_finite _ = false

-- `x < n`, for a natural number `n`.
abbrev pub is_below : Number → ℕ → Bool
is_below nan n = false
is_below (infinite negative) n = negative
is_below (finite true whole rest) n = if whole == 0 && rest == 0 then ltb 0 n else true
is_below (finite false whole rest) n = ltb whole n

-- `x > n`, for a natural number `n`.
abbrev pub is_above : Number → ℕ → Bool
is_above nan n = false
is_above (infinite negative) n = not negative
is_above (finite true whole rest) n = false
is_above (finite false whole rest) n = ltb n whole || (whole == n && not (rest == 0))

-- `Math.trunc` of a number that is at least 0.
abbrev pub whole_part : Number → ℕ
whole_part (finite negative whole rest) = whole
whole_part _ = 0

-- `Math.round` of a number that is at least 0.
unfoldable pub round : Number → ℕ
round (finite negative whole rest) = if leb (2 ^ 1074) (2 * rest) then whole + 1 else whole
round _ = 0
