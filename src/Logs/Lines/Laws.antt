-- ===== src/Logs/Lines/Laws.antt =====
-- The lines of a text do not depend on the chunks that it arrives in.
use Prim.Native.Nat.{zero, suc}
use Prim.Native.Char.{Char, code}
use nouva_agent.Prelude.{
  ℕ, ◌≡◌, refl, ap, sym, ◌∙◌, ◌+◌, ◌<◌, ◌==◌, String, ◌<>◌, false, Option, none, some, List, [],
  ◌∷◌, ◌++◌, map, if◌then◌else◌, arith, Bool-cases, inl, inr,
}
use nouva_agent.Prelude.Digits.{size}
use nouva_agent.Logs.Lines.{
  before, cut_at_newline, strip_return, drain, pass_on, push, last_line, flush, feed,
}
use mathlib.Core.List
use text.Mathlib.TextLemmas.{nil-append, cons-append, append-nil, append_assoc}

-- Puts a character in front of the first line.
abbrev put : Char → List String × String → List String × String
put c ([], rest) = ([], String.◌∷◌ c rest)
put c (line ∷ lines, rest) = (String.◌∷◌ c line ∷ lines, rest)

-- The complete lines of a text, and what follows the last line feed.
unfoldable pub split : String → List String × String
split String.[] = ([], "")
split (String.◌∷◌ c s) =
    let (lines, rest) = split s in if code c == 10 then ("" ∷ lines, rest) else put c (lines, rest)

abbrev pub lines_of : String → List String
lines_of text = map strip_return (split text).0 ++ last_line (split text).1

abbrev pub joined : List String → String
joined [] = ""
joined (chunk ∷ chunks) = chunk <> joined chunks

-- What the cut at the first line feed says of the split.
abbrev CutFits : String → Option (String × String) → Type 0
CutFits s none = split s ≡ ([], s)
CutFits s (some (line, after)) =
    (split s ≡ (line ∷ (split after).0, (split after).1)) × (size after < size s)

before-CutFits :
    (c : Char) (s : String) (o : Option (String × String))
    → code c == 10 ≡ false
    → CutFits s o
    → CutFits (String.◌∷◌ c s) (before c o)
unfolding split
before-CutFits c s none other h = rw (split, other, h) refl
before-CutFits c s (some (line, after)) other (h, l) = (rw (split, other, h) refl, omega arith)

cut-CutFits : (s : String) → CutFits s (cut_at_newline s)
unfolding split cut_at_newline
cut-CutFits String.[] = refl
cut-CutFits (String.◌∷◌ c s) = elim (Bool-cases (code c == 10)) [
  | inl feed ↦ rw (cut_at_newline, feed) (rw (split, feed) refl, omega arith)
  | inr other ↦
      rw (cut_at_newline, other) (before-CutFits c s (cut_at_newline s) other (cut-CutFits s))
]

abbrev HasDrained : ℕ → String → Type 0
HasDrained fuel s = drain fuel s ≡ some (map strip_return (split s).0, (split s).1)

drain-step :
    (fuel : ℕ) (s : String) (o : Option (String × String))
    → cut_at_newline s ≡ o
    → CutFits s o
    → ((after : String) → size after < size s → HasDrained fuel after)
    → HasDrained (suc fuel) s
unfolding drain
drain-step fuel s none e h ih = rw (drain, e, h) refl
drain-step fuel s (some (line, after)) e (h, l) ih = rw (drain, e, h, ih after l) refl

drain-split : (fuel : ℕ) (s : String) → size s < fuel → HasDrained fuel s
drain-split zero s enough = ground arith
drain-split (suc fuel) s enough =
    drain-step fuel s (cut_at_newline s) refl (cut-CutFits s)
      (λ after l. drain-split fuel after (omega arith))

-- Lines in front of what follows a rest.
abbrev over : List String → List String × String → List String × String
over lines (more, rest) = (lines ++ more, rest)

put-over :
    (c : Char) (lines : List String) (p t : String)
    → code c == 10 ≡ false
    → put c (over lines (split (p <> t)))
      ≡ over (put c (lines, p)).0 (split ((put c (lines, p)).1 <> t))
unfolding split
put-over c [] p t other = rw (cons-append, split, other) refl
put-over c (line ∷ lines) p t other = refl

-- The split of two texts is that of the first one, with its rest before the second.
split-append : (s t : String) → split (s <> t) ≡ over (split s).0 (split ((split s).1 <> t))
unfolding split
split-append String.[] t = refl
split-append (String.◌∷◌ c s) t = elim (Bool-cases (code c == 10)) [
  | inl feed ↦ rw (cons-append, split, feed, split-append s t) refl
  | inr other ↦
      rw (cons-append, split, other, split-append s t) (put-over c (split s).0 (split s).1 t other)
]

map-append : (f : String → String) (xs ys : List String) → map f (xs ++ ys) ≡ map f xs ++ map f ys
map-append f [] ys = refl
map-append f (x ∷ xs) ys = ap (λ zs. f x ∷ zs) (map-append f xs ys)

-- A text without a line feed.
abbrev IsPending : String → Type 0
IsPending s = split s ≡ ([], s)

put-IsPending :
    (c : Char) (lines : List String) (p : String)
    → code c == 10 ≡ false
    → IsPending p
    → IsPending (put c (lines, p)).1
unfolding split
put-IsPending c [] p other h = rw (split, other, h) refl
put-IsPending c (line ∷ lines) p other h = h

split-IsPending : (s : String) → IsPending (split s).1
unfolding split
split-IsPending String.[] = refl
split-IsPending (String.◌∷◌ c s) = elim (Bool-cases (code c == 10)) [
  | inl feed ↦ rw (split, feed) (split-IsPending s)
  | inr other ↦
      rw (split, other) (put-IsPending c (split s).0 (split s).1 other (split-IsPending s))
]

lines_of-append :
    (s t : String) → lines_of (s <> t) ≡ map strip_return (split s).0 ++ lines_of ((split s).1 <> t)
lines_of-append s t =
    rw (split-append s t, map-append strip_return (split s).0 (split ((split s).1 <> t)).0)
      (List.append_assoc (map strip_return (split s).0)
        (map strip_return (split ((split s).1 <> t)).0) (last_line (split ((split s).1 <> t)).1))

push-split :
    (chunk pending : String) (lines : List String)
    → push chunk (record { lines = lines; pending = pending })
      ≡ some (record {
        lines = lines ++ map strip_return (split (pending <> chunk)).0;
        pending = (split (pending <> chunk)).1;
      })
unfolding push
push-split chunk pending lines =
    ap (pass_on lines) (drain-split (size (pending <> chunk) + 1) (pending <> chunk) (omega arith))

lines-next :
    (lines : List String) (pending chunk rest : String)
    → (lines ++ map strip_return (split (pending <> chunk)).0)
        ++ lines_of ((split (pending <> chunk)).1 <> rest)
      ≡ lines ++ lines_of (pending <> (chunk <> rest))
lines-next lines pending chunk rest =
    List.append_assoc lines (map strip_return (split (pending <> chunk)).0) _
    ∙ ap (λ ls. lines ++ ls)
        (sym (lines_of-append (pending <> chunk) rest)
          ∙ ap lines_of (append_assoc pending chunk rest))

feed-lines :
    (chunks lines : List String) (pending : String)
    → IsPending pending
    → feed chunks (some (record { lines = lines; pending = pending }))
      ≡ some (record { lines = lines ++ lines_of (pending <> joined chunks); pending = "" })
unfolding flush
feed-lines [] lines pending h = rw (append-nil pending, h) refl
feed-lines (chunk ∷ chunks) lines pending h =
    ap (feed chunks) (push-split chunk pending lines)
    ∙ feed-lines chunks (lines ++ map strip_return (split (pending <> chunk)).0)
        (split (pending <> chunk)).1 (split-IsPending (pending <> chunk))
    ∙ ap (λ ls. some (record { lines = ls; pending = "" }))
        (lines-next lines pending chunk (joined chunks))

-- However a text is cut into chunks, the splitter passes on the lines of the whole text, in their
-- order, without their line ends, and the unfinished last one at the end: its loop never runs
-- out of fuel.
pub feed_refines :
    (chunks : List String)
    → feed chunks (some (record { lines = []; pending = "" }))
      ≡ some (record { lines = lines_of (joined chunks); pending = "" })
unfolding split
feed_refines chunks = feed-lines chunks [] "" refl ∙ rw (nil-append) refl
