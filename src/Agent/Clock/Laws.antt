-- ===== src/Agent/Clock/Laws.antt =====
-- What timedatectl's properties are read as, wherever they stand and however they are spaced.
use nouva_agent.Prelude.{
  ◌≡◌, refl, ap, ◌∙◌, String, trim, to_lower, Bool, true, false, Option, none, some, List, [], ◌∷◌,
  ◌++◌, ◌⊎◌, inl, inr, All, Option-cases, arith, eq_iff,
}
use nouva_agent.Agent.Clock.Lines.{
  IsLine, print_lines, lines-split, Assigns, cut-CutFits, value-assigned, assigned-of_value,
}
use nouva_agent.Agent.Clock.{
  ClockState, parse_timedatectl_clock_state, split_lines, cut_at_equals, value_in, property,
  parse_systemd_boolean,
}

-- No line gives the property a value.
abbrev pub IsNotGiven : String → List String → Type 0
IsNotGiven key lines = All (λ line. (v : String) → ¬ Assigns key v line) lines

-- The last line that gives the property a value gives it this one.
abbrev pub IsGiven : String → String → List String → Type 0
IsGiven key v lines =
    (before : List String) × (line : String) × (after : List String) × (lines
      ≡ before ++ (line ∷ after))
    × Assigns key v line
    × IsNotGiven key after

value-unset :
    (key line : String)
    → ((v : String) → ¬ Assigns key v line)
    → value_in key (cut_at_equals line) ≡ none
value-unset key line unset = elim (Option-cases (value_in key (cut_at_equals line))) [
  | inl e ↦ e
  | inr (v, e) ↦
      absurd (unset v (assigned-of_value key v line (cut_at_equals line) (cut-CutFits line) e))
]

-- The empty text after the last line end says nothing.
property-end :
    (key : String) (lines : List String) → property key (lines ++ ("" ∷ [])) ≡ property key lines
unfolding property cut_at_equals value_in
property-end key [] = refl
property-end key (line ∷ lines) = rw (property, property-end key lines) refl

property-unset :
    (key : String) (lines : List String) → IsNotGiven key lines → property key lines ≡ none
unfolding property
property-unset key [] u = refl
property-unset key (line ∷ lines) (u, us) =
    rw (property-unset key lines us, value-unset key line u) refl

property-set :
    (key v line : String) (before after : List String)
    → Assigns key v line
    → IsNotGiven key after
    → property key (before ++ (line ∷ after)) ≡ some v
unfolding property
property-set key v line [] after a u =
    rw (property-unset key after u, value-assigned key v line a) refl
property-set key v line (other ∷ before) after a u =
    rw (property-set key v line before after a u) refl

abbrev pub IsWord : Bool → String → Type 0
IsWord true w =
    (to_lower (trim w) ≡ "yes") ⊎ ((to_lower (trim w) ≡ "true") ⊎ (to_lower (trim w) ≡ "1"))
IsWord false w =
    (to_lower (trim w) ≡ "no") ⊎ ((to_lower (trim w) ≡ "false") ⊎ (to_lower (trim w) ≡ "0"))

word-read : (b : Bool) (w : String) → IsWord b w → parse_systemd_boolean (some w) ≡ some b
unfolding parse_systemd_boolean
word-read true w (inl e) = rw e refl
word-read true w (inr (inl e)) = rw e refl
word-read true w (inr (inr e)) = rw e refl
word-read false w (inl e) = rw e refl
word-read false w (inr (inl e)) = rw e refl
word-read false w (inr (inr e)) = rw e refl

word-unread :
    (w : String) → ¬ IsWord true w → ¬ IsWord false w → parse_systemd_boolean (some w) ≡ none
unfolding parse_systemd_boolean
word-unread w not_on not_off =
    let word = to_lower (trim w) in
    ground (
      arith,
      eq_iff word "yes",
      eq_iff word "true",
      eq_iff word "1",
      eq_iff word "no",
      eq_iff word "false",
      eq_iff word "0",
    )

-- What the lines say of a property: that it is on or off in one of the words for it, or nothing, where
-- it has no value or one that is no such word.
abbrev pub Says : String → Option Bool → List String → Type 0
Says key none lines =
    IsNotGiven key lines ⊎ ((w : String) × IsGiven key w lines × ¬ IsWord true w × ¬ IsWord false w)
Says key (some b) lines = (w : String) × IsGiven key w lines × IsWord b w

given-read :
    (crlf : Bool) (key w : String) (lines : List String)
    → All IsLine lines
    → IsGiven key w lines
    → property key (split_lines (print_lines crlf lines)) ≡ some w
given-read crlf key w lines l (before, line, after, e, assigned, unset) =
    ap (property key) (lines-split crlf lines l)
    ∙ property-end key lines
    ∙ ap (property key) e
    ∙ property-set key w line before after assigned unset

said-read :
    (crlf : Bool) (key : String) (o : Option Bool) (lines : List String)
    → All IsLine lines
    → Says key o lines
    → parse_systemd_boolean (property key (split_lines (print_lines crlf lines))) ≡ o
unfolding parse_systemd_boolean
said-read crlf key none lines l (inl unset) =
    rw (lines-split crlf lines l, property-end key lines, property-unset key lines unset) refl
said-read crlf key none lines l (inr (w, given, not_on, not_off)) =
    ap parse_systemd_boolean (given-read crlf key w lines l given) ∙ word-unread w not_on not_off
said-read crlf key (some b) lines l (w, given, word) =
    ap parse_systemd_boolean (given-read crlf key w lines l given) ∙ word-read b w word

abbrev pub state_of : Option Bool → Option Bool → Option ClockState
state_of ntp none = none
state_of ntp (some synchronized) = some (record { ntp_enabled = ntp; synchronized = synchronized })

-- Of any output of whole lines, with either end of a line: what it says of the property
-- NTPSynchronized is whether the clock is synchronised, and there is no state where it does not say;
-- what it says of NTP is whether it is on, or that it is not known. The last line that gives a
-- property a value counts, whatever else the lines hold. White space around its name and its value
-- counts for nothing, nor does letter case in the value, which is yes, true or 1, or no, false or 0;
-- any other value says nothing.
pub clock_read :
    (crlf : Bool) (lines : List String) (ntp synchronized : Option Bool)
    → All IsLine lines
    → Says "NTP" ntp lines
    → Says "NTPSynchronized" synchronized lines
    → parse_timedatectl_clock_state (print_lines crlf lines) ≡ state_of ntp synchronized
unfolding parse_timedatectl_clock_state
clock_read crlf lines ntp none l n s =
    rw (parse_timedatectl_clock_state, said-read crlf _ none lines l s) refl
clock_read crlf lines ntp (some b) l n s =
    rw
      (
        parse_timedatectl_clock_state,
        said-read crlf _ (some b) lines l s,
        said-read crlf _ ntp lines l n,
      )
      refl
