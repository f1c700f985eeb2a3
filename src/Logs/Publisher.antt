-- ===== src/Logs/Publisher.antt =====
-- `createBuildLogPublisher` of agent/src/build-logs.ts, one step for each piece of code between two
-- waits: an entry, the timer and the close. The batches stand in the order that the chain of promises
-- sends them in; a failed send drops its batch and changes nothing here.
pub mod Steps
pub mod Laws
pub mod Tidy
use Prim.Native.Nat.{zero, suc}
use Prim.Native.Char.{code}
use Prim.Native.String
use nouva_agent.Prelude.{
  ℕ, ◌+◌, ◌-◌, leb, ltb, String, ◌<>◌, utf16_length, decimal, Bool, true, false, not, ◌||◌, Option,
  none, some, List, [], ◌∷◌, ◌++◌, length, if◌then◌else◌,
}

pub data Kind : Type 0 where
  stdout stderr progress exit : Kind

pub record Entry : Type 0 where
  pub kind : Kind
  pub line : Option String
  pub timestamp : ℕ
  pub stage : Option String
  pub percent : Option ℕ
  pub message : Option String
  pub exit_code : Option ℕ
  pub success : Option Bool

pub record Limits : Type 0 where
  pub flush_batch_size : ℕ
  pub max_entries : ℕ
  pub max_line_length : ℕ

abbrev pub default_limits : Limits
default_limits = record { flush_batch_size = 200; max_entries = 20000; max_line_length = 4000 }

pub record Publisher : Type 0 where
  pub buffer : List Entry
  pub sent : List (List Entry)
  pub emitted : ℕ
  pub capacity_notice_sent : Bool
  pub closed : Bool
  -- Whether the timer is armed.
  pub timer : Bool

abbrev pub create : Publisher
create = record {
  buffer = [];
  sent = [];
  emitted = 0;
  capacity_notice_sent = false;
  closed = false;
  timer = false;
}

-- `.slice(0, n)`, which counts UTF-16 units. Where it would cut a character in two, it is left out.
unfoldable pub slice_units : ℕ → String → String
slice_units n String.[] = ""
slice_units n (String.◌∷◌ c s) =
    let units = if ltb 0xffff (code c) then 2 else 1 in
    let rest = slice_units (n - units) s in if ltb n units then "" else String.◌∷◌ c rest

unfoldable pub truncate_build_log_line : String → ℕ → String
unfolding slice_units
truncate_build_log_line line max_length =
    if leb (utf16_length line) max_length
    then line
    else slice_units max_length line <> "… [line truncated]"

abbrev pub shorten : Limits → Entry → Entry
shorten l e = elim e.line [
  | none ↦ e
  | some text ↦ record e { line = some (truncate_build_log_line text l.max_line_length) }
]

abbrev pub capacity_notice : Limits → ℕ → Entry
capacity_notice l now = record {
  kind = stderr;
  line = some (
      "[nouva] build log truncated after "
      <> (decimal l.max_entries <> " lines; the rest of this build's output is not retained"));
  timestamp = now;
  stage = none;
  percent = none;
  message = none;
  exit_code = none;
  success = none;
}

abbrev pub is_exit : Entry → Bool
is_exit e = elim e.kind [ exit ↦ true | _ ↦ false ]

abbrev pub send_buffer : List Entry → Publisher → Publisher
send_buffer [] p = record p { timer = false }
send_buffer (e ∷ es) p = record p { timer = false; buffer = []; sent = p.sent ++ ((e ∷ es) ∷ []) }

abbrev pub flush : Publisher → Publisher
flush p = send_buffer p.buffer p

abbrev pub arm_timer : Publisher → Publisher
arm_timer p = if p.timer || p.closed then p else record p { timer = true }

unfoldable pub push : Limits → Entry → Publisher → Publisher
push l e p =
    let q : Publisher = record p { buffer = p.buffer ++ (e ∷ []) } in
    if leb l.flush_batch_size (length q.buffer) then flush q else arm_timer q

abbrev pub accept : Limits → Entry → Publisher → Publisher
accept l e p = push l (shorten l e) (record p { emitted = p.emitted + 1 })

abbrev pub give_notice : Limits → ℕ → Publisher → Publisher
give_notice l now p =
    if p.capacity_notice_sent
    then p
    else push l (capacity_notice l now) (record p { capacity_notice_sent = true })

unfoldable pub emit : Limits → ℕ → Entry → Publisher → Publisher
unfolding push truncate_build_log_line
emit l now e p =
    if p.closed
    then p
    else if leb l.max_entries p.emitted
    then (let q = give_notice l now p in if is_exit e then accept l e q else q)
    else accept l e p

unfoldable pub timer_fires : Publisher → Publisher
timer_fires p = if p.timer then flush p else p

unfoldable pub close : Publisher → Publisher
close p = if p.closed then p else flush (record p { closed = true })

pub data Action : Type 0 where
  emits : (now : ℕ) → Entry → Action
  fires closes : Action

abbrev pub act : Limits → Action → Publisher → Publisher
act l (emits now e) p = emit l now e p
act l fires p = timer_fires p
act l closes p = close p

-- What a publisher is after some actions.
abbrev pub run : Limits → List Action → Publisher → Publisher
run l [] p = p
run l (a ∷ later) p = run l later (act l a p)
