-- ===== src/Worker/Signal.antt =====
-- The signal that stops a worker: `isWorkerStopSignalName` of packages/runtime/src/worker-shutdown.ts
-- and `resolveWorkerStopSignal` of agent/src/worker-shutdown.ts.
use Prim.Native.Nat.{zero, suc}
use Prim.Native.Char.{code}
use nouva_agent.Prelude.{
  ℕ, ◌==◌, leb, String, str_eq, Bool, true, false, not, ◌&&◌, ◌||◌, Option, none, some, ◌<>◌,
  if◌then◌else◌, trim, to_upper, get_or_else, ◌≡◌, refl, inl, inr, Bool-cases,
}
use text.Mathlib.Text.{starts_with}

abbrev is_upper : ℕ → Bool
is_upper c = leb b'A' c && leb c b'Z'

abbrev is_digit : ℕ → Bool
is_digit c = leb b'0' c && leb c b'9'

-- `[A-Z0-9+]{0,k}$`
unfoldable pub is_signal_tail : ℕ → String → Bool
is_signal_tail k String.[] = true
is_signal_tail zero (String.◌∷◌ c s) = false
is_signal_tail (suc k) (String.◌∷◌ c s) =
    (is_upper (code c) || is_digit (code c) || code c == b'+') && is_signal_tail k s

-- `/^SIG[A-Z][A-Z0-9+]{0,15}$/`
unfoldable pub is_worker_stop_signal_name : String → Bool
unfolding is_signal_tail
is_worker_stop_signal_name (String.◌∷◌ s (String.◌∷◌ i (String.◌∷◌ g (String.◌∷◌ c rest)))) =
    code s == b'S'
    && code i == b'I'
    && code g == b'G'
    && is_upper (code c)
    && is_signal_tail 15 rest
is_worker_stop_signal_name _ = false

all_digits : String → Bool
all_digits String.[] = true
all_digits (String.◌∷◌ c s) = is_digit (code c) && all_digits s

-- `/^\d+$/`
abbrev is_number : String → Bool
is_number s = not (str_eq s "") && all_digits s

-- `SIGNAL_NAMES_BY_NUMBER`
signal_by_number : String → Option String
signal_by_number n =
    if str_eq n "1"
    then some "SIGHUP"
    else if str_eq n "2"
    then some "SIGINT"
    else if str_eq n "3"
    then some "SIGQUIT"
    else if str_eq n "9"
    then some "SIGKILL"
    else if str_eq n "10"
    then some "SIGUSR1"
    else if str_eq n "12"
    then some "SIGUSR2"
    else if str_eq n "15"
    then some "SIGTERM"
    else if str_eq n "28"
    then some "SIGWINCH"
    else none

named_signal : String → Option String
unfolding signal_by_number all_digits
named_signal raw =
    if is_number raw
    then signal_by_number raw
    else if starts_with raw "SIG"
    then some raw
    else some ("SIG" <> raw)

checked_signal : Option String → String
checked_signal none = "SIGTERM"
checked_signal (some name) = if is_worker_stop_signal_name name then name else "SIGTERM"

-- The policy's signal, or else the container's own, or SIGTERM.
unfoldable pub resolve_worker_stop_signal : Option String → Option String → String
unfolding named_signal checked_signal
resolve_worker_stop_signal (some signal) container = signal
resolve_worker_stop_signal none container =
    checked_signal (named_signal (to_upper (trim (get_or_else container ""))))

default_valid : is_worker_stop_signal_name "SIGTERM" ≡ true
unfolding is_worker_stop_signal_name
default_valid = refl

checked_signal_valid : (o : Option String) → is_worker_stop_signal_name (checked_signal o) ≡ true
unfolding checked_signal
checked_signal_valid none = default_valid
checked_signal_valid (some name) = elim (Bool-cases (is_worker_stop_signal_name name)) [
  | inl valid ↦ rw (valid, checked_signal) valid
  | inr other ↦ rw (other, checked_signal) default_valid
]

-- A signal that is not the policy's is a bare signal name.
pub resolve_valid :
    (container : Option String)
    → is_worker_stop_signal_name (resolve_worker_stop_signal none container) ≡ true
unfolding resolve_worker_stop_signal
resolve_valid container = checked_signal_valid _

resolve_tests :
    (resolve_worker_stop_signal none (some " quit") ≡ "SIGQUIT")
    × (resolve_worker_stop_signal none (some "15") ≡ "SIGTERM")
    × (resolve_worker_stop_signal none (some "rtmin-3") ≡ "SIGTERM")
unfolding resolve_worker_stop_signal trim to_upper is_worker_stop_signal_name
resolve_tests = (refl, refl, refl)
