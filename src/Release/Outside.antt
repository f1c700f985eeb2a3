-- ===== src/Release/Outside.antt =====
-- What the runner of agent/src/release-jobs.ts works on: Docker, the control plane, the clock and the
-- callbacks of one phase, as answers to the calls of a history. A call's event keeps what it was
-- about, and the answer where a theorem speaks of it.
use nouva_agent.Prelude.{
  ℕ, ◌≤◌, ◌+◌, String, Bool, false, ◌||◌, Option, none, some, List, ◌∷◌, str_eq, if◌then◌else◌,
  get_or_else, ◌≡◌,
}
use nouva_agent.Prelude.Number.{Number}
use nouva_agent.Prelude.Effects.{Answer, value}
use nouva_agent.Release.Phases.{Policy, Outcome}
use nouva_agent.Release.Claim.{ClaimResponse}
use nouva_agent.Release.Recovery.{
  DateParse, Observation, missing, created, running, exited, read_timestamp_ms,
}
use nouva_agent.Service.Limits.{DockerResourceSettings}

-- What the runner reads of a container: its state, and its labels. `timeout_seconds` is `Number` of
-- the label.
pub record Container : Type 0 where
  pub id : String
  pub running : Option Bool
  pub status : Option String
  pub exit_code : Option ℕ
  pub started_at : Option String
  pub finished_at : Option String
  pub deployment_id : Option String
  pub phase : Option String
  pub timeout_seconds : Number

-- What `createJobContainer` asks Docker for.
pub record Spec : Type 0 where
  pub name : String
  pub image : String
  pub env : List String
  pub command : String
  pub labels : List (String × String)
  pub network : String
  pub resources : DockerResourceSettings

-- The report of an attempt's outcome.
pub record Report : Type 0 where
  pub attempt : ℕ
  pub outcome : Outcome
  pub exit_code : Option ℕ
  pub started_at : Option String
  pub finished_at_ms : ℕ
  pub applied_policy : Option Policy

-- Any error, by its numeric `status` if it has one, or a `ReleaseJobDeferredError`.
pub data Thrown : Type 0 where
  failed : (status : Option ℕ) → Thrown
  deferred : (message : String) → Thrown

pub data Event : Type 0 where
  listed : (containers : List Container) → Event
  stopped inspected removed : (c : Container) → Event
  image_prepared : Event
  -- A claim with the running jobs it names, and its answer unless it failed.
  claimed : (running_jobs : List String) → Option ClaimResponse → Event
  -- A report, and whether it was acknowledged.
  reported : Report → (acknowledged : Bool) → Event
  policy_resolved : Event
  slept : (ms : ℕ) → Event
  -- The calls about the attempt's own container, by its name.
  created_own : (attempt : ℕ) → Spec → Event
  started_own inspected_own stopped_own removed_own logs_read : Event

pub record Host : Type 0 where
  -- The answers to a listing, by the labels that it asks for.
  pub list_service_jobs : List Event → Answer Thrown (List Container)
  pub list_attempts : List Event → Answer Thrown (List Container)
  pub stop : List Event → String → Answer Thrown (Unit {0})
  -- `none` for a container that is gone.
  pub inspect : List Event → String → Answer Thrown (Option Container)
  pub remove : List Event → String → Answer Thrown (Unit {0})
  pub prepare_image : List Event → Answer Thrown (Unit {0})
  pub claim : List Event → List String → Answer Thrown ClaimResponse
  pub report : List Event → Report → Answer Thrown (Unit {0})
  -- `resolveAppliedPolicy`, which answers `none` when the request has none.
  pub resolve_policy : List Event → Outcome → Answer Thrown (Option Policy)
  pub create_own : List Event → Spec → Answer Thrown (Unit {0})
  pub start_own : List Event → Answer Thrown (Unit {0})
  pub inspect_own : List Event → Answer Thrown (Option Container)
  pub stop_own : List Event → Answer Thrown (Unit {0})
  pub remove_own : List Event → Answer Thrown (Unit {0})
  pub read_logs : List Event → Answer Thrown (Unit {0})
  pub has_build_log : Bool
  pub now : List Event → ℕ
  pub date_parse : DateParse
  -- The text of an error, redacted.
  pub error_text : Thrown → String

-- The clock never goes back, and a wait takes at least as long as it was asked to.
pub record IsClock (h : Host) : Type 0 where
  pub onward : (e : Event) (t : List Event) → h.now t ≤ h.now (e ∷ t)
  pub waits : (ms : ℕ) (t : List Event) → h.now t + ms ≤ h.now (slept ms ∷ t)

abbrev pub is_true : Option Bool → Bool
is_true none = false
is_true (some b) = b

abbrev pub is_text : Option String → String → Bool
is_text none s = false
is_text (some t) s = str_eq t s

-- `observeContainer(...).state === "running"`
unfoldable pub is_running : Container → Bool
is_running c = is_true c.running || is_text c.status "running" || is_text c.status "restarting"

abbrev observe_idle : Container → Observation
observe_idle c =
    if is_text c.status "created"
    then created
    else exited (get_or_else c.exit_code 1) c.started_at c.finished_at

-- `observeContainer`
unfoldable pub observe_container : Option Container → Observation
unfolding is_running
observe_container none = missing
observe_container (some c) = if is_running c then running else observe_idle c

-- `readStartedAtMs`
unfoldable pub read_started_at_ms : DateParse → Option Container → Option ℕ
unfolding read_timestamp_ms
read_started_at_ms parse none = none
read_started_at_ms parse (some c) = read_timestamp_ms parse c.started_at

-- Docker stamps a start with the clock of its host, on which the agent runs: no container has
-- started after it is looked at.
pub record IsStamped (h : Host) : Type 0 where
  pub stamped :
      (t : List Event) (c : Option Container) (at : ℕ)
      → h.inspect_own t ≡ value c
      → read_started_at_ms h.date_parse c ≡ some at
      → at ≤ h.now t
