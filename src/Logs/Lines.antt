-- ===== src/Logs/Lines.antt =====
-- `createLineSplitter` of agent/src/build-logs.ts: lines out of a text that arrives in chunks. Its
-- loop takes more fuel than the text has characters.
pub mod Laws
use Prim.Native.Nat.{zero, suc}
use Prim.Native.Char.{Char, code}
use Prim.Native.String
use nouva_agent.Prelude.{
  ℕ, ◌+◌, ◌==◌, String, ◌<>◌, Bool, true, false, ◌&&◌, Option, none, some, List, [], ◌∷◌, ◌++◌,
  if◌then◌else◌,
}
use nouva_agent.Prelude.Digits.{size}

-- The lines that were passed on, and what is pending.
pub record Splitter : Type 0 where
  pub lines : List String
  pub pending : String

abbrev pub before : Char → Option (String × String) → Option (String × String)
before c none = none
before c (some (line, after)) = some (String.◌∷◌ c line, after)

-- `indexOf("\n")` with the two slices around it.
unfoldable pub cut_at_newline : String → Option (String × String)
cut_at_newline String.[] = none
cut_at_newline (String.◌∷◌ c s) =
    let rest = cut_at_newline s in if code c == 10 then some ("", s) else before c rest

abbrev is_empty_text : String → Bool
is_empty_text String.[] = true
is_empty_text (String.◌∷◌ c s) = false

-- `.replace(/\r$/, "")`
unfoldable pub strip_return : String → String
strip_return String.[] = ""
strip_return (String.◌∷◌ c s) =
    let rest = strip_return s in if code c == 13 && is_empty_text s then "" else String.◌∷◌ c rest

abbrev pub add_line : String → Option (List String × String) → Option (List String × String)
add_line line none = none
add_line line (some (lines, pending)) = some (strip_return line ∷ lines, pending)

-- The loop of `push`: the complete lines of the pending text, and its rest.
unfoldable pub drain : ℕ → String → Option (List String × String)
drain zero pending = none
drain (suc fuel) pending = elim (cut_at_newline pending) [
  | none ↦ some ([], pending)
  | some (line, after) ↦ add_line line (drain fuel after)
]

abbrev pub pass_on : List String → Option (List String × String) → Option Splitter
pass_on lines none = none
pass_on lines (some (more, rest)) = some (record { lines = lines ++ more; pending = rest })

unfoldable pub push : String → Splitter → Option Splitter
unfolding drain cut_at_newline strip_return
push chunk s = pass_on s.lines (drain (size (s.pending <> chunk) + 1) (s.pending <> chunk))

abbrev pub last_line : String → List String
last_line String.[] = []
last_line (String.◌∷◌ c s) = strip_return (String.◌∷◌ c s) ∷ []

unfoldable pub flush : Splitter → Splitter
unfolding strip_return
flush s = record { lines = s.lines ++ last_line s.pending; pending = "" }

-- A text that arrives in chunks, and ends.
abbrev pub feed : List String → Option Splitter → Option Splitter
feed chunks none = none
feed [] (some s) = some (flush s)
feed (chunk ∷ chunks) (some s) = feed chunks (push chunk s)
