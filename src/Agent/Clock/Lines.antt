-- ===== src/Agent/Clock/Lines.antt =====
-- The lines of timedatectl's output, and the name and value that a line gives.
use Prim.Native.Char.{Char, code}
use nouva_agent.Prelude.{
  ℕ, ◌≡◌, refl, ap, sym, subst, ◌∙◌, ◌==◌, String, str_eq, ◌<>◌, trim, Bool, true, false, Option,
  none, some, List, [], ◌∷◌, ◌++◌, inl, inr, All, arith, Bool-cases, eq_iff, includes_code,
}
use text.Mathlib.TextEquality.{Char-path}
use text.Mathlib.TextLemmas.{nil-append, cons-append}
use nouva_agent.Agent.Clock.{split_lines, push_char, cut_at_equals, value_in}

-- A line holds neither of the characters that may end it.
abbrev pub IsLine : String → Type 0
IsLine s = (includes_code 10 s ≡ false) × (includes_code 13 s ≡ false)

includes-parts :
    (n : ℕ) (c : Char) (s : String)
    → includes_code n (String.◌∷◌ c s) ≡ false
    → (code c == n ≡ false) × (includes_code n s ≡ false)
unfolding includes_code
includes-parts n c s e = ground arith

abbrev end_of_line : Bool → String
end_of_line true = "\r\n"
end_of_line false = "\n"

-- Lines as a program prints them, each with its end.
abbrev pub print_lines : Bool → List String → String
print_lines crlf [] = ""
print_lines crlf (line ∷ lines) = line <> (end_of_line crlf <> print_lines crlf lines)

one_char : (c : Char) (t : String) → String.◌∷◌ c "" <> t ≡ String.◌∷◌ c t
one_char c t = cons-append c "" t ∙ ap (String.◌∷◌ c) (nil-append t)

end-split : (crlf : Bool) (t : String) → split_lines (end_of_line crlf <> t) ≡ "" ∷ split_lines t
unfolding split_lines
end-split true t = ap split_lines (cons-append "\r" "\n" t ∙ ap (String.◌∷◌ "\r") (one_char "\n" t))
end-split false t = ap split_lines (one_char "\n" t)

line-split :
    (crlf : Bool) (line t : String)
    → IsLine line
    → split_lines (line <> (end_of_line crlf <> t)) ≡ line ∷ split_lines t
unfolding split_lines push_char
line-split crlf String.[] t l = rw nil-append (end-split crlf t)
line-split crlf (String.◌∷◌ c s) t (f, r) =
    let (feed, no_feed) = includes-parts 10 c s f in
    let (return, no_return) = includes-parts 13 c s r in
    rw (cons-append, split_lines, feed, return, line-split crlf s t (no_feed, no_return))
      (ap (λ x. x ∷ split_lines t) (one_char c s))

pub lines-split :
    (crlf : Bool) (lines : List String)
    → All IsLine lines
    → split_lines (print_lines crlf lines) ≡ lines ++ ("" ∷ [])
unfolding split_lines
lines-split crlf [] l = refl
lines-split crlf (line ∷ lines) (l, ls) =
    line-split crlf line (print_lines crlf lines) l ∙ ap (λ x. line ∷ x) (lines-split crlf lines ls)

-- A line that gives a property its value: a name, an equals sign and the value.
abbrev pub Assigns : String → String → String → Type 0
Assigns key v line =
    (k : String) × (line ≡ k <> ("=" <> v))
    × (includes_code 61 k ≡ false)
    × ¬ (k ≡ "")
    × (trim k ≡ key)

cut-assigned :
    (k v : String) → includes_code 61 k ≡ false → cut_at_equals (k <> ("=" <> v)) ≡ some (k, v)
unfolding cut_at_equals
cut-assigned String.[] v n = ap cut_at_equals (nil-append _ ∙ one_char "=" v)
cut-assigned (String.◌∷◌ c k) v e =
    let (other, n) = includes-parts 61 c k e in
    rw (cons-append, cut_at_equals, other, cut-assigned k v n) refl

abbrev IsNamed : String → Type 0
IsNamed String.[] = ⊥
IsNamed (String.◌∷◌ c k) = Unit {0}

pub cons-IsNamed : (c : Char) (k : String) → ¬ (String.◌∷◌ c k ≡ "")
cons-IsNamed c k e = subst IsNamed e tt

-- The name and the value that a line was cut to make it up.
abbrev pub CutFits : String → Option (String × String) → Type 0
CutFits line none = Unit {0}
CutFits line (some (k, v)) = (line ≡ k <> ("=" <> v)) × (includes_code 61 k ≡ false)

cons-CutFits :
    (c : Char) (s : String) (o : Option (String × String))
    → code c == 61 ≡ false
    → CutFits s o
    → CutFits (String.◌∷◌ c s) (elim o [ none ↦ none | some (k, v) ↦ some (String.◌∷◌ c k, v) ])
unfolding includes_code
cons-CutFits c s none other f = tt
cons-CutFits c s (some (k, v)) other (e, n) =
    (ap (String.◌∷◌ c) e ∙ sym (cons-append c k ("=" <> v)), rw other n)

pub cut-CutFits : (line : String) → CutFits line (cut_at_equals line)
unfolding cut_at_equals includes_code
cut-CutFits String.[] = tt
cut-CutFits (String.◌∷◌ c s) = elim (Bool-cases (code c == 61)) [
  | inl here ↦ rw here (equals_first c s here, refl)
  | inr other ↦ rw other (cons-CutFits c s (cut_at_equals s) other (cut-CutFits s))
]
  where
    equals_first : (c : Char) (s : String) → code c == 61 ≡ true → String.◌∷◌ c s ≡ "" <> ("=" <> s)
    equals_first c s here =
        ap (λ d. String.◌∷◌ d s) (Char-path c "=" (ground arith))
        ∙ sym (nil-append _ ∙ one_char "=" s)

pub value-assigned :
    (key v line : String) → Assigns key v line → value_in key (cut_at_equals line) ≡ some v
unfolding value_in
value-assigned key v line (String.[], e, n, named, t) = absurd (named refl)
value-assigned key v line (String.◌∷◌ c k, e, n, named, t) =
    let same : str_eq (trim (String.◌∷◌ c k)) key ≡ true =
      (eq_iff (trim (String.◌∷◌ c k)) key).1 t in
    rw (e, cut-assigned (String.◌∷◌ c k) v n, same) refl

pub assigned-of_value :
    (key v line : String) (o : Option (String × String))
    → CutFits line o
    → value_in key o ≡ some v
    → Assigns key v line
unfolding value_in
assigned-of_value key v line none f e = absurd (cc)
assigned-of_value key v line (some (String.[], after)) f e = absurd (cc)
assigned-of_value key v line (some (String.◌∷◌ c k, after)) (cut, n) e =
    elim (Bool-cases (str_eq (trim (String.◌∷◌ c k)) key)) [
      | inl same ↦
          let found : some after ≡ some v = rw same at e in
          let there : after ≡ v = cc in
          (
            String.◌∷◌ c k,
            rw (← there) cut,
            n,
            cons-IsNamed c k,
            (eq_iff (trim (String.◌∷◌ c k)) key).0 same,
          )
      | inr apart ↦ let missed : none ≡ some v = rw apart at e in absurd (cc)
    ]

-- A line whose cut gives the property nothing does not assign it.
pub value-unassigned :
    (key line : String)
    → value_in key (cut_at_equals line) ≡ none
    → (v : String) → ¬ Assigns key v line
value-unassigned key line e v a =
    let found : value_in key (cut_at_equals line) ≡ some v = value-assigned key v line a in cc
