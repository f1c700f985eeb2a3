-- ===== src/Service/Readiness/Laws.antt =====
-- What readiness keeps from poll to poll, and what it decides.
use nouva_agent.Prelude.{
  ◌≡◌, ℕ, ◌≤◌, ◌==◌, Bool, true, false, not, Option, none, some, List, [], ◌∷◌, arith, leb, ◌↔◌,
  ◌⊎◌, inl, inr, String, str_eq,
}
use nouva_agent.Service.Readiness.Messages.{Evidence}
use nouva_agent.Service.Readiness.{
  Inspection, Cause, out_of_memory, restart_loop, ReadinessStep, ready, failed, ReadinessInput,
  evidence_after, step_of, record_evidence, assess_candidate_readiness, is_down, lower_status,
  health_of, health_text, merge_exit_code, read_reported_exit_code,
}

-- The same window with another inspection, and the evidence from before it.
abbrev pub next_poll : ReadinessInput → Evidence → Inspection → ReadinessInput
next_poll i e inspection = record i { evidence = e; inspection = inspection }

-- The evidence after further inspections of the window.
abbrev pub poll_all : ReadinessInput → Evidence → List Inspection → Evidence
poll_all i e [] = e
poll_all i e (inspection ∷ later) = poll_all i (evidence_after (next_poll i e inspection)) later

abbrev pub IsFailed : ReadinessStep → Type 0
IsFailed (failed cause message) = Unit {0}
IsFailed _ = ⊥

-- A failure whose evidence lasts.
abbrev pub is_lasting : Cause → Bool
is_lasting out_of_memory = true
is_lasting restart_loop = true
is_lasting _ = false

abbrev IsDead : Evidence → Type 0
IsDead e = (e.out_of_memory ≡ true) ⊎ (2 ≤ e.restarts)

IsDead-stays : (i : ReadinessInput) → IsDead i.evidence → IsDead (evidence_after i)
unfolding evidence_after record_evidence
IsDead-stays i (inl memory) = inl (ground (arith, memory))
IsDead-stays i (inr loop) = inr (omega (arith, loop))

IsDead-stays_all :
    (i : ReadinessInput) (e : Evidence) (later : List Inspection)
    → IsDead e
    → IsDead (poll_all i e later)
IsDead-stays_all i e [] d = d
IsDead-stays_all i e (inspection ∷ later) d =
    IsDead-stays_all i (evidence_after (next_poll i e inspection)) later
      (IsDead-stays (next_poll i e inspection) d)

dead_fails : (i : ReadinessInput) (e : Evidence) → IsDead e → IsFailed (step_of i e)
unfolding step_of
dead_fails i e (inl memory) = rw memory tt
dead_fails i e (inr loop) = ground arith

lasting-IsDead :
    (i : ReadinessInput) (cause : Cause) (message : String)
    → step_of i (evidence_after i) ≡ failed cause message
    → is_lasting cause ≡ true
    → IsDead (evidence_after i)
unfolding step_of
lasting-IsDead i cause message e l = ground arith

-- Once a poll fails for memory or for a restart loop, every later poll of the window fails, whatever
-- the inspections show: a fresh start by the restart policy erases nothing.
pub lasting_failure :
    (i : ReadinessInput) (cause : Cause) (message : String) (between : List Inspection)
    (last : Inspection)
    → (assess_candidate_readiness i).step ≡ failed cause message
    → is_lasting cause ≡ true
    → IsFailed
        (assess_candidate_readiness (next_poll i (poll_all i (evidence_after i) between) last)).step
unfolding assess_candidate_readiness
lasting_failure i cause message between last e l =
    let now : ReadinessInput = next_poll i (poll_all i (evidence_after i) between) last in
    dead_fails now (evidence_after now) (
      IsDead-stays now
        (IsDead-stays_all i (evidence_after i) between (lasting-IsDead i cause message e l)))

abbrev pub health_is : String → ReadinessInput → Bool
health_is text i = elim (health_of i.inspection.state) [
  | none ↦ false
  | some health ↦ str_eq (health_text health) text
]

-- A candidate is ready exactly when nothing speaks against it: no memory kill, no terminal status,
-- fewer than two restarts, and a health check that says healthy.
pub ready_iff :
    (i : ReadinessInput)
    → ((assess_candidate_readiness i).step ≡ ready) ↔ (
        ((evidence_after i).out_of_memory ≡ false)
        × (is_down (lower_status i.inspection.state) ≡ false)
        × (leb 2 (evidence_after i).restarts ≡ false)
        × (health_is "healthy" i ≡ true))
unfolding assess_candidate_readiness step_of
ready_iff i = ground arith

survived_once :
    (i : ReadinessInput)
    → i.out_of_memory_at_start ≡ some true
    → i.evidence.out_of_memory ≡ false
    → (evidence_after i).out_of_memory ≡ false
unfolding evidence_after record_evidence
survived_once i flagged e = rw (flagged, e) (ground arith)

survived_all :
    (i : ReadinessInput) (later : List Inspection) (e : Evidence)
    → i.out_of_memory_at_start ≡ some true
    → e.out_of_memory ≡ false
    → (poll_all i e later).out_of_memory ≡ false
survived_all i [] e flagged f = f
survived_all i (inspection ∷ later) e flagged f =
    survived_all i later (evidence_after (next_poll i e inspection)) flagged
      (survived_once (next_poll i e inspection) flagged f)

memory_step :
    (i : ReadinessInput) (e : Evidence) (message : String)
    → step_of i e ≡ failed out_of_memory message
    → e.out_of_memory ≡ true
unfolding step_of
memory_step i e message f = ground arith

-- In a window whose container was up at its start with Docker's memory flag set, and whose evidence
-- has no memory kill yet, no poll ends in a failure for memory, whatever the inspections before it
-- and its own show.
pub survived_kill :
    (i : ReadinessInput) (before : List Inspection) (last : Inspection) (message : String)
    → i.out_of_memory_at_start ≡ some true
    → i.evidence.out_of_memory ≡ false
    → ¬ (
        (assess_candidate_readiness (next_poll i (poll_all i i.evidence before) last)).step
        ≡ failed out_of_memory message)
unfolding assess_candidate_readiness
survived_kill i before last message flagged e failure =
    let now : ReadinessInput = next_poll i (poll_all i i.evidence before) last in
    let alive : (evidence_after now).out_of_memory ≡ false =
      survived_once now flagged (survived_all i before i.evidence flagged e) in
    let killed : (evidence_after now).out_of_memory ≡ true =
      memory_step now (evidence_after now) message failure in
    cc

abbrev pub is_failing_code : Option ℕ → Bool
is_failing_code none = false
is_failing_code (some code) = not (code == 0)

failing_code_kept :
    (i : ReadinessInput)
    → is_failing_code i.evidence.exit_code ≡ true
    → is_failing_code (evidence_after i).exit_code ≡ true
unfolding evidence_after record_evidence
failing_code_kept i f = merged i.evidence.exit_code (read_reported_exit_code i.inspection.state) f
  where
    merged :
        (p r : Option ℕ) → is_failing_code p ≡ true → is_failing_code (merge_exit_code p r) ≡ true
    merged p r f = ground arith

-- Once the evidence holds a failing exit code, no later inspection erases it.
pub failing_code_stays :
    (i : ReadinessInput) (e : Evidence) (later : List Inspection)
    → is_failing_code e.exit_code ≡ true
    → is_failing_code (poll_all i e later).exit_code ≡ true
failing_code_stays i e [] f = f
failing_code_stays i e (inspection ∷ later) f =
    failing_code_stays i (evidence_after (next_poll i e inspection)) later
      (failing_code_kept (next_poll i e inspection) f)
