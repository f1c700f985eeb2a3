-- ===== src/Release/Protocol.antt =====
-- The control plane's row for one phase as a state machine: each step applies a decision of
-- packages/runtime/src/release-phases.ts and commits it, as the comments of that file state. A
-- claim commits its `transition` with the claiming lease; a report that is to be recorded ends the
-- attempt; an operator's resolution sets the next status. The steps keep what was answered.
pub mod Laws
pub mod Repeats
use nouva_agent.Prelude.{ℕ, String, Option, none, some, List, [], ◌∷◌}
use nouva_agent.Release.Phases.{Phase, Outcome, Status, running, ended}
use nouva_agent.Release.Claim.{
  JobRecord, ClaimResponse, run, ClaimDecision, decide_release_job_claim, ReportDecision, record_it,
  decide_release_job_report, Resolution, ResolutionDecision, next, refused,
  decide_release_job_resolution,
}

-- A `run` answer: the attempt, and the lease that was told to start it.
pub record Handout : Type 0 where
  pub attempt : ℕ
  pub lease : String

pub record Job : Type 0 where
  pub row : JobRecord
  -- Every `run` answer, newest first.
  pub handouts : List Handout
  -- Every attempt whose outcome was recorded, newest first.
  pub recorded : List ℕ

abbrev commit : Option ℕ → String → JobRecord → JobRecord
commit none lease r = r
commit (some attempt) lease r = record r {
  status = running;
  attempt = attempt;
  claimed_lease = some lease;
}

abbrev note_run : ClaimResponse → String → List Handout → List Handout
note_run (run attempt) lease hs = record { attempt = attempt; lease = lease } ∷ hs
note_run _ lease hs = hs

unfoldable pub claim_step : String → Job → Job
claim_step lease j =
    let d = decide_release_job_claim j.row lease in
    record j {
      row = commit d.transition lease j.row;
      handouts = note_run d.response lease j.handouts;
    }

abbrev recorded_row : ReportDecision → Outcome → Job → Job
recorded_row record_it outcome j = record j {
  row = record (j.row) { status = ended outcome };
  recorded = j.row.attempt ∷ j.recorded;
}
recorded_row _ outcome j = j

unfoldable pub report_step : ℕ → Outcome → Job → Job
report_step attempt outcome j =
    recorded_row (decide_release_job_report j.row attempt outcome) outcome j

abbrev resolved_row : ResolutionDecision → Job → Job
resolved_row (next status) j = record j { row = record (j.row) { status = status } }
resolved_row (refused message) j = j

unfoldable pub resolve_step : Phase → Resolution → Job → Job
resolve_step phase resolution j =
    resolved_row (decide_release_job_resolution phase j.row.status resolution) j

-- What the agents and the operator may do, in any order.
pub data Step (phase : Phase) (j : Job) : Job → Type 0 where
  claims : (lease : String) → Step phase j (claim_step lease j)
  reports : (attempt : ℕ) (outcome : Outcome) → Step phase j (report_step attempt outcome j)
  resolves : (resolution : Resolution) → Step phase j (resolve_step phase resolution j)

pub data Reach (phase : Phase) (j : Job) : Job → Type 0 where
  here : Reach phase j j
  later : {k l : Job} → Reach phase j k → Step phase k l → Reach phase j l

-- A row that was never claimed.
abbrev pub fresh_job : Job
fresh_job = record {
  row = record {
    status = Status.pending;
    attempt = 0;
    status_message = none;
    claimed_lease = none;
  };
  handouts = [];
  recorded = [];
}
