-- ===== src/Agent/Clock.antt =====
-- agent/src/clock-sync.ts: the reading of timedatectl's output and what the evidence about the host's
-- clock comes to. The probe's container and the host's files are not modelled.
pub mod Lines
pub mod Laws
mod Tests
use Prim.Native.Char.{code}
use Prim.Native.String
use nouva_agent.Prelude.{
  ℕ, ◌==◌, String, str_eq, ◌<>◌, trim, to_lower, Bool, true, false, ◌&&◌, ◌||◌, Option, none, some,
  List, [], ◌∷◌, if◌then◌else◌,
}

pub record ClockState : Type 0 where
  pub ntp_enabled : Option Bool
  pub synchronized : Bool

pub data Evidence : Type 0 where
  timedatectl : ClockState → Evidence
  timesyncd_synchronized chronyd_running unverified : (reason : String) → Evidence

pub data Status : Type 0 where
  pass warn : Status

pub record Assessment : Type 0 where
  pub status : Status
  pub message : String
  pub value : String

abbrev parse_word : String → Option Bool
parse_word s =
    if str_eq s "yes" || str_eq s "true" || str_eq s "1"
    then some true
    else if str_eq s "no" || str_eq s "false" || str_eq s "0"
    then some false
    else none

-- `parseSystemdBoolean`; `none` for a property that is not there.
unfoldable pub parse_systemd_boolean : Option String → Option Bool
parse_systemd_boolean none = none
parse_systemd_boolean (some s) = parse_word (to_lower (trim s))

starts_line_feed : String → Bool
starts_line_feed String.[] = false
starts_line_feed (String.◌∷◌ c s) = code c == 10

-- Puts a character in front of the first line.
push_char : String → List String → List String
push_char c [] = c ∷ []
push_char c (line ∷ lines) = (c <> line) ∷ lines

-- `output.split(/\r?\n/)`
unfoldable pub split_lines : String → List String
unfolding starts_line_feed push_char
split_lines String.[] = "" ∷ []
split_lines (String.◌∷◌ c s) =
    let rest = split_lines s in
    if code c == 10
    then "" ∷ rest
    else if code c == 13 && starts_line_feed s
    then rest
    else push_char (String.◌∷◌ c String.[]) rest

-- The texts before and after the first `=`.
unfoldable pub cut_at_equals : String → Option (String × String)
cut_at_equals String.[] = none
cut_at_equals (String.◌∷◌ c s) =
    let rest = cut_at_equals s in
    if code c == 61
    then some ("", s)
    else elim rest [ none ↦ none | some (before, after) ↦ some (String.◌∷◌ c before, after) ]

pub value_in : String → Option (String × String) → Option String
value_in key none = none
value_in key (some (String.[], after)) = none
value_in key (some (String.◌∷◌ c before, after)) =
    if str_eq (trim (String.◌∷◌ c before)) key then some after else none

-- `properties.get(key)` once every line is read: the last line of a key counts.
unfoldable pub property : String → List String → Option String
unfolding value_in
property key [] = none
property key (line ∷ lines) =
    let later = property key lines in
    elim later [ some v ↦ some v | none ↦ value_in key (cut_at_equals line) ]

unfoldable pub parse_timedatectl_clock_state : String → Option ClockState
unfolding parse_systemd_boolean split_lines cut_at_equals property
parse_timedatectl_clock_state output =
    let lines = split_lines output in
    elim (parse_systemd_boolean (property "NTPSynchronized" lines)) [
      | none ↦ none
      | some synchronized ↦ some (record {
        ntp_enabled = parse_systemd_boolean (property "NTP" lines);
        synchronized = synchronized;
      })
    ]

abbrev yes_no : Bool → String
yes_no true = "yes"
yes_no false = "no"

abbrev ntp_text : Option Bool → String
ntp_text none = "unknown"
ntp_text (some b) = yes_no b

unfoldable pub format_clock_state_value : ClockState → String
format_clock_state_value s =
    "NTP=" <> (ntp_text s.ntp_enabled <> (",NTPSynchronized=" <> yes_no s.synchronized))

abbrev drift_consequence : String
drift_consequence = "clock drift may break TLS certificates and PITR timestamps"

synchronized_message : Option Bool → String
synchronized_message (some false) =
    "System clock is synchronised, but no time synchronisation service is enabled — it will drift once the current offset ages"
synchronized_message _ = "System clock is synchronised"

drifting_message : Option Bool → String
drifting_message (some true) =
    "A time synchronisation service is enabled but the clock is not synchronised yet — "
    <> drift_consequence
drifting_message (some false) =
    "No time synchronisation service is enabled and the clock is not synchronised — "
    <> drift_consequence
drifting_message none = "The system clock is not synchronised — " <> drift_consequence

unfoldable pub evaluate_clock_sync : Evidence → Assessment
unfolding format_clock_state_value synchronized_message drifting_message
evaluate_clock_sync (timedatectl s) =
    let value = format_clock_state_value s in
    if s.synchronized
    then record { status = pass; message = synchronized_message s.ntp_enabled; value = value }
    else record { status = warn; message = drifting_message s.ntp_enabled; value = value }
evaluate_clock_sync (timesyncd_synchronized reason) = record {
  status = pass;
  message = "systemd-timesyncd has completed a synchronisation since boot (" <> (reason <> ")");
  value = "timesyncd-synchronized";
}
evaluate_clock_sync (chronyd_running reason) = record {
  status = warn;
  message =
      "chronyd is running but its synchronisation state could not be verified ("
      <> (reason <> (") — " <> drift_consequence));
  value = "chronyd-running";
}
evaluate_clock_sync (unverified reason) = record {
  status = warn;
  message =
      "Clock synchronisation could not be verified (" <> (reason <> (") — " <> drift_consequence));
  value = "unverified";
}
