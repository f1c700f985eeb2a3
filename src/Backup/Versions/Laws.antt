-- ===== src/Backup/Versions/Laws.antt =====
-- The versions that are read have the form that a receipt keeps.
use Prim.Native.Nat.{zero, suc}
use Prim.Native.Char.{code}
use Prim.Native.String.{[], ◌∷◌}
use nouva_agent.Prelude.Digits.{is_digit, are_digits, size, IsShortNumber, decimal-IsShortNumber}
use nouva_agent.Prelude.{
  ℕ, ◌≡◌, refl, ap, ◌≤◌, ◌==◌, String, ◌<>◌, decimal, Bool, true, false, not, none, some,
  trim_start, arith, Bool-cases, inl, inr, ◌⊎◌, sym, ◌∙◌,
}
use text.Mathlib.TextLemmas.{nil-append, cons-append, append-nil}
use nouva_agent.Backup.Versions.{
  span_digits, group_of, read_group, read_groups, release_of, match_release,
  read_postgres_release_version, is_engine_release, major_of, parse_postgres_major_version,
  is_rdb_source, first_of, ends_digits,
}

abbrev starts_apart : String → Bool
starts_apart [] = true
starts_apart (c ∷ s) = not (is_digit c)

-- Digits that end, at a text that begins with none or at the limit.
span-taken :
    (k : ℕ) (ds rest : String)
    → are_digits ds ≡ true
    → size ds ≤ k
    → starts_apart rest ≡ true
    → span_digits k (ds <> rest) ≡ (ds, rest)
unfolding span_digits
span-taken zero [] rest d h a = rw (nil-append) refl
span-taken zero (c ∷ ds) rest d h a = ground arith
span-taken (suc k) [] [] d h a = refl
span-taken (suc k) [] (c ∷ rest) d h a =
    let other : is_digit c ≡ false = ground arith in rw (nil-append, span_digits, other) refl
span-taken (suc k) (c ∷ ds) rest d h a =
    let digit : is_digit c ≡ true = ground arith in
    rw (cons-append, span_digits, digit, span-taken k ds rest (ground arith) (ground arith) a) refl

span-digits :
    (k : ℕ) (s : String) → (are_digits (span_digits k s).0 ≡ true) × (size (span_digits k s).0 ≤ k)
unfolding span_digits
span-digits zero s = (refl, ground arith)
span-digits (suc k) [] = (refl, ground arith)
span-digits (suc k) (c ∷ s) =
    let (d, h) = span-digits k s in
    elim (Bool-cases (is_digit c)) [
      | inl digit ↦ rw (digit, d) (ground arith)
      | inr other ↦ rw other (refl, ground arith)
    ]

-- One group: a dot and one to three digits.
abbrev IsGroup : String → Type 0
IsGroup (c ∷ d ∷ ds) = ((code c == 46) ≡ true) × (are_digits (d ∷ ds) ≡ true) × (size (d ∷ ds) ≤ 3)
IsGroup _ = ⊥

read_group_cases :
    (s : String)
    → (read_group s ≡ none)
      ⊎ ((g : String) × (rest : String) × (read_group s ≡ some (g, rest)) × IsGroup g)
unfolding read_group
read_group_cases [] = inl refl
read_group_cases (c ∷ s) = elim (Bool-cases (code c == 46)) [
  | inr other ↦ inl (rw other refl)
  | inl dot ↦ rw dot (of_digits (span_digits 3 s) (span-digits 3 s) dot)
]
  where
    of_digits :
        (p : String × String)
        → (are_digits p.0 ≡ true) × (size p.0 ≤ 3)
        → (code c == 46) ≡ true
        → (group_of c p ≡ none)
          ⊎ ((g : String) × (rest : String) × (group_of c p ≡ some (g, rest)) × IsGroup g)
    of_digits ([], rest) h dot = inl refl
    of_digits (d ∷ ds, rest) (a, l) dot = inr (c ∷ d ∷ ds, rest, refl, (dot, a, l))

group-again :
    (g rest : String)
    → IsGroup g
    → starts_apart rest ≡ true
    → (read_group (g <> rest) ≡ some (g, rest)) × (starts_apart (g <> rest) ≡ true)
unfolding read_group
group-again [] rest i a = absurd i
group-again (c ∷ []) rest i a = absurd i
group-again (c ∷ d ∷ ds) rest (dot, digits, short) a =
    rw (cons-append, read_group, dot, span-taken 3 (d ∷ ds) rest digits short a)
      (refl, ground arith)

group-nil : read_group [] ≡ none
unfolding read_group
group-nil = refl

groups_stop : (n : ℕ) (s : String) → read_group s ≡ none → read_groups (suc n) s ≡ ([], s)
unfolding read_groups
groups_stop n s e = rw (read_groups, e) refl

groups_go_on :
    (n : ℕ) (s g rest : String)
    → read_group s ≡ some (g, rest)
    → read_groups (suc n) s ≡ (g <> (read_groups n rest).0, (read_groups n rest).1)
unfolding read_groups
groups_go_on n s g rest e = rw (read_groups, e) refl

-- What was read as groups is read as groups again.
groups-again :
    (n : ℕ) (s : String)
    → let gs = (read_groups n s).0 in (read_groups n gs ≡ (gs, [])) × (starts_apart gs ≡ true)
unfolding read_groups
groups-again zero s = (refl, refl)
groups-again (suc n) s = elim (read_group_cases s) [
  | inl none_there ↦
      let whole : read_groups (suc n) s ≡ ([], s) = groups_stop n s none_there in
      rw whole (groups_stop n [] group-nil, refl)
  | inr (g, rest, e, i) ↦
      let (again, apart) = groups-again n rest in
      let (first, start) = group-again g (read_groups n rest).0 i apart in
      let whole = groups_go_on n s g rest e in
      let back = groups_go_on n (g <> (read_groups n rest).0) g (read_groups n rest).0 first in
      rw whole (rw (back, again) refl, start)
]

release-again :
    (p : String × String) (r : String)
    → are_digits p.0 ≡ true
    → size p.0 ≤ 3
    → first_of (release_of p) ≡ some r
    → is_engine_release r ≡ true
unfolding is_engine_release match_release
release-again ([], rest) r d l e = absurd (cc)
release-again (c ∷ ds, rest) r d l e =
    let (again, apart) = groups-again 2 rest in
    let same : (c ∷ ds) <> (read_groups 2 rest).0 ≡ r = cc in
    rw (← same, span-taken 3 (c ∷ ds) (read_groups 2 rest).0 d l apart, again) refl

-- A release that is read of a server's version has the form that a receipt keeps.
pub release-kept :
    (version r : String)
    → read_postgres_release_version version ≡ some r
    → is_engine_release r ≡ true
unfolding read_postgres_release_version match_release
release-kept version r e =
    let (d, l) = span-digits 3 (trim_start version) in
    release-again (span_digits 3 (trim_start version)) r d l e

-- Where a major version is read, so is a release.
pub release-there :
    (version : String) (major : ℕ)
    → parse_postgres_major_version version ≡ some major
    → (r : String) × (read_postgres_release_version version ≡ some r)
unfolding read_postgres_release_version match_release parse_postgres_major_version
release-there version major e = go (span_digits 3 (trim_start version)) e
  where
    go :
        (p : String × String)
        → major_of p ≡ some major
        → (r : String) × (first_of (release_of p) ≡ some r)
    go ([], rest) f = absurd (cc)
    go (c ∷ ds, rest) f = ((c ∷ ds) <> (read_groups 2 rest).0, refl)

ends-number : (s : String) → IsShortNumber 4 s → ends_digits (span_digits 4 s) ≡ true
ends-number [] (d, l, m) = ground arith
ends-number (c ∷ s) (d, l, m) =
    let whole : span_digits 4 (c ∷ s) ≡ (c ∷ s, []) =
      ap (λ t. span_digits 4 t) (sym (append-nil (c ∷ s))) ∙ span-taken 4 (c ∷ s) [] d l refl in
    rw whole refl

rdb_text : (s : String) → "rdb-" <> s ≡ "r" ∷ "d" ∷ "b" ∷ "-" ∷ s
rdb_text s =
    cons-append "r" "db-" s
    ∙ ap (λ t. "r" ∷ t)
        (cons-append "d" "b-" s
          ∙ ap (λ t. "d" ∷ t)
              (cons-append "b" "-" s
                ∙ ap (λ t. "b" ∷ t) (cons-append "-" [] s ∙ ap (λ t. "-" ∷ t) (nil-append s))))

-- What is said of a snapshot has the form that a receipt keeps.
pub rdb-kept : (version : ℕ) → version ≤ 9999 → is_rdb_source ("rdb-" <> decimal version) ≡ true
unfolding is_rdb_source
rdb-kept version low =
    rw (rdb_text (decimal version))
      (ends-number (decimal version) (decimal-IsShortNumber 3 version (ground arith)))
