-- ===== src/Backup/Versions.antt =====
-- The versions of packages/runtime/src/external-backup-import.ts: parsePostgresMajorVersion,
-- readPostgresReleaseVersion, getMaxReadableRdbVersion, the digest's form and the patterns of a
-- receipt. The regular expressions are written out.
pub mod Laws
use Prim.Native.Nat.{zero, suc}
use Prim.Native.Char.{Char, code}
use Prim.Native.String.{[], ◌∷◌}
use nouva_agent.Prelude.Digits.{is_digit}
use nouva_agent.Prelude.{
  ℕ, ◌+◌, ◌-◌, ◌*◌, ◌==◌, leb, ltb, String, str_eq, ◌<>◌, Bool, true, false, not, ◌&&◌, ◌||◌,
  Option, none, some, is_space, trim, trim_start, if◌then◌else◌,
}
unfoldable use nouva_agent.Prelude.{trim, is_space, is_blank}

-- Whether the text is at its end or goes on with no digit.
abbrev pub is_line_end : Char → Bool
is_line_end c = code c == 10 || code c == 13 || code c == 0x2028 || code c == 0x2029

-- `.*\s*$`: after the first line terminator only white space is left.
unfoldable pub is_rest_of_line : String → Bool
unfolding is_blank
is_rest_of_line [] = true
is_rest_of_line (c ∷ s) =
    let rest = is_rest_of_line s in if is_line_end c then is_blank (c ∷ s) else rest

-- `(?:[._].*)?\s*$`
unfoldable pub is_version_tail : String → Bool
unfolding is_rest_of_line is_blank
is_version_tail [] = true
is_version_tail (c ∷ s) =
    if code c == 46 || code c == 95 then is_rest_of_line s else is_blank (c ∷ s)

-- At most `n` digits and what follows them.
unfoldable pub span_digits : ℕ → String → String × String
span_digits zero s = ([], s)
span_digits (suc n) [] = ([], [])
span_digits (suc n) (c ∷ s) =
    let (ds, rest) = span_digits n s in if is_digit c then (c ∷ ds, rest) else ([], c ∷ s)

-- `Number.parseInt` of digits, after the value `n`.
unfoldable pub digits_value : ℕ → String → ℕ
digits_value n [] = n
digits_value n (c ∷ s) = digits_value (n * 10 + (code c - 48)) s

abbrev pub positive : ℕ → Option ℕ
positive zero = none
positive (suc n) = some (suc n)

abbrev pub is_empty_text : String → Bool
is_empty_text [] = true
is_empty_text (c ∷ s) = false

abbrev pub major_of : String × String → Option ℕ
major_of (ds, rest) =
    if is_empty_text ds || not (is_version_tail rest) then none else positive (digits_value 0 ds)

unfoldable pub parse_postgres_major_version : String → Option ℕ
unfolding span_digits digits_value is_version_tail trim_start
parse_postgres_major_version version = major_of (span_digits 3 (trim_start version))

-- One group `\.\d{1,3}`, if it is there.
abbrev pub group_of : Char → String × String → Option (String × String)
group_of dot ([], rest) = none
group_of dot (c ∷ ds, rest) = some (dot ∷ c ∷ ds, rest)

unfoldable pub read_group : String → Option (String × String)
unfolding span_digits
read_group [] = none
read_group (c ∷ s) = let g = group_of c (span_digits 3 s) in if code c == 46 then g else none

-- At most `n` groups.
unfoldable pub read_groups : ℕ → String → String × String
unfolding read_group
read_groups zero s = ([], s)
read_groups (suc n) s = elim (read_group s) [
  | none ↦ ([], s)
  | some (g, rest) ↦ let (gs, end) = read_groups n rest in (g <> gs, end)
]

abbrev pub release_of : String × String → Option (String × String)
release_of ([], rest) = none
release_of (c ∷ ds, rest) = let (gs, end) = read_groups 2 rest in some ((c ∷ ds) <> gs, end)

-- `\d{1,3}(?:\.\d{1,3}){0,2}` and what follows it.
unfoldable pub match_release : String → Option (String × String)
unfolding span_digits read_groups
match_release s = release_of (span_digits 3 s)

abbrev pub first_of : Option (String × String) → Option String
first_of none = none
first_of (some (a, b)) = some a

unfoldable pub read_postgres_release_version : String → Option String
unfolding match_release trim_start
read_postgres_release_version version = first_of (match_release (trim_start version))

abbrev pub ends_there : Option (String × String) → Bool
ends_there none = false
ends_there (some (a, b)) = is_empty_text b

-- `ENGINE_RELEASE_VERSION_PATTERN`
unfoldable pub is_engine_release : String → Bool
unfolding match_release
is_engine_release s = ends_there (match_release s)

abbrev pub ends_digits : String × String → Bool
ends_digits (ds, rest) = not (is_empty_text ds) && is_empty_text rest

-- `RDB_SOURCE_VERSION_PATTERN`
unfoldable pub is_rdb_source : String → Bool
unfolding span_digits
is_rdb_source (a ∷ b ∷ c ∷ d ∷ s) =
    str_eq (a ∷ b ∷ c ∷ d ∷ []) "rdb-" && ends_digits (span_digits 4 s)
is_rdb_source _ = false

-- What a property of a plain object holds: a number of the table, or what every object inherits.
pub data Limit : Type 0 where
  up_to : ℕ → Limit
  inherited : Limit

abbrev pub is_inherited : String → Bool
is_inherited s =
    str_eq s "constructor"
    || str_eq s "__proto__"
    || str_eq s "hasOwnProperty"
    || str_eq s "isPrototypeOf"
    || str_eq s "propertyIsEnumerable"
    || str_eq s "toLocaleString"
    || str_eq s "toString"
    || str_eq s "valueOf"
    || str_eq s "__defineGetter__"
    || str_eq s "__defineSetter__"
    || str_eq s "__lookupGetter__"
    || str_eq s "__lookupSetter__"

abbrev pub limit_of : String → Option Limit
limit_of s =
    if str_eq s "7.0"
    then some (up_to 10)
    else if str_eq s "7.2"
    then some (up_to 11)
    else if str_eq s "7.4"
    then some (up_to 12)
    else if is_inherited s
    then some inherited
    else none

unfoldable pub get_max_readable_rdb_version : String → Option Limit
unfolding trim
get_max_readable_rdb_version version = limit_of (trim version)

abbrev is_hex : Char → Bool
is_hex c = is_digit c || (leb 97 (code c) && leb (code c) 102)

unfoldable pub are_hex : ℕ → String → Bool
are_hex zero [] = true
are_hex zero (c ∷ s) = false
are_hex (suc n) [] = false
are_hex (suc n) (c ∷ s) = is_hex c && are_hex n s

unfoldable pub is_sha256_digest : String → Bool
unfolding are_hex
is_sha256_digest s = are_hex 64 s
