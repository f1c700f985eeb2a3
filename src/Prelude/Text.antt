-- ===== src/Prelude/Text.antt =====
-- The string operations of JavaScript that the program uses: decimal printing, `trim`, `length` in
-- UTF-16 units and ASCII case.
use Prim.Native.Nat.{ℕ, zero, suc, ◌+◌, ◌/◌, ◌%◌}
use Prim.Native.Char.{Char, code}
use Prim.Native.String
use Prim.Native.String.{String, [], ◌∷◌}
use mathlib.Core.Bool.{Bool, true, false, ◌&&◌, ◌||◌}
use nouva_agent.Prelude.Tests.{ltb, leb, ◌==◌, if◌then◌else◌}

unfoldable pub digit : ℕ → String
digit zero = "0"
digit (suc zero) = "1"
digit (suc (suc zero)) = "2"
digit (suc (suc (suc zero))) = "3"
digit (suc (suc (suc (suc zero)))) = "4"
digit (suc (suc (suc (suc (suc zero))))) = "5"
digit (suc (suc (suc (suc (suc (suc zero)))))) = "6"
digit (suc (suc (suc (suc (suc (suc (suc zero))))))) = "7"
digit (suc (suc (suc (suc (suc (suc (suc (suc zero)))))))) = "8"
digit _ = "9"

-- The decimal digits of a number, on as much fuel as it has digits.
unfoldable pub decimal_on : ℕ → ℕ → String
decimal_on zero n = ""
decimal_on (suc fuel) n =
    let rest = decimal_on fuel (n / 10) in
    if ltb n 10 then digit n else String.◌++◌ rest (digit (n % 10))

-- `${n}` for a whole number.
unfoldable pub decimal : ℕ → String
unfolding digit decimal_on
decimal n = decimal_on (n + 1) n

-- White space and line terminators, which `trim` removes.
unfoldable pub is_space : ℕ → Bool
is_space c =
    (leb 9 c && leb c 13)
    || c == 32
    || c == 160
    || c == 0x1680
    || (leb 0x2000 c && leb c 0x200a)
    || c == 0x2028
    || c == 0x2029
    || c == 0x202f
    || c == 0x205f
    || c == 0x3000
    || c == 0xfeff

unfoldable pub trim_start : String → String
unfolding is_space
trim_start [] = []
trim_start (c ∷ s) = let rest = trim_start s in if is_space (code c) then rest else c ∷ s

-- Whether only white space is left.
unfoldable pub is_blank : String → Bool
unfolding is_space
is_blank [] = true
is_blank (c ∷ s) = is_space (code c) && is_blank s

unfoldable pub trim_end : String → String
unfolding is_blank
trim_end [] = []
trim_end (c ∷ s) = let rest = trim_end s in if is_blank (c ∷ s) then [] else c ∷ rest

unfoldable pub trim : String → String
unfolding trim_start trim_end
trim s = trim_end (trim_start s)

-- `.length` counts UTF-16 code units.
unfoldable pub utf16_length : String → ℕ
utf16_length [] = 0
utf16_length (c ∷ s) = (if ltb 0xffff (code c) then 2 else 1) + utf16_length s

-- `.includes` of one character, by its code.
unfoldable pub includes_code : ℕ → String → Bool
includes_code n [] = false
includes_code n (c ∷ s) = code c == n || includes_code n s

-- `.slice(0, n)` of a text outside the supplementary planes.
unfoldable pub take_chars : ℕ → String → String
take_chars zero s = []
take_chars (suc n) [] = []
take_chars (suc n) (c ∷ s) = c ∷ take_chars n s

-- The character of the second text that stands where the first text has `c`.
swap_case : Char → String → String → Char
swap_case c (a ∷ from) (b ∷ to) =
    let rest = swap_case c from to in if code c == code a then b else rest
swap_case c _ _ = c

-- `.toLowerCase()` of ASCII text.
unfoldable pub to_lower : String → String
unfolding swap_case
to_lower [] = []
to_lower (c ∷ s) =
    swap_case c "ABCDEFGHIJKLMNOPQRSTUVWXYZ" "abcdefghijklmnopqrstuvwxyz" ∷ to_lower s

-- `.toUpperCase()` of ASCII text.
unfoldable pub to_upper : String → String
unfolding swap_case
to_upper [] = []
to_upper (c ∷ s) =
    swap_case c "abcdefghijklmnopqrstuvwxyz" "ABCDEFGHIJKLMNOPQRSTUVWXYZ" ∷ to_upper s
