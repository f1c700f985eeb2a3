-- ===== src/Release/Blockers.antt =====
-- The jobs that a claim has to wait on: `selectReleaseJobBlocker` and `describeReleaseJobWait` of
-- packages/runtime/src/release-phases.ts.
pub mod Laws
use nouva_agent.Prelude.{
  String, ◌<>◌, Bool, true, false, Option, none, List, [], ◌∷◌, or_else, find, take_chars,
}

pub data BlockReason : Type 0 where
  outcome_unknown own_attempt_running container_running running : BlockReason

pub record Blocker : Type 0 where
  pub deployment_id : String
  pub reason : BlockReason

abbrev pub same_reason : BlockReason → BlockReason → Bool
same_reason outcome_unknown outcome_unknown = true
same_reason own_attempt_running own_attempt_running = true
same_reason container_running container_running = true
same_reason running running = true
same_reason _ _ = false

-- The order in which an operator has to act on blockers.
abbrev pub reason_order : List BlockReason
reason_order = outcome_unknown ∷ own_attempt_running ∷ container_running ∷ running ∷ []

-- The loop over the reasons that are left.
unfoldable pub select_from : List BlockReason → List Blocker → Option Blocker
select_from [] blockers = none
select_from (reason ∷ order) blockers =
    or_else (find (λ b. same_reason b.reason reason) blockers) (select_from order blockers)

unfoldable pub select_release_job_blocker : List Blocker → Option Blocker
unfolding select_from
select_release_job_blocker blockers = select_from reason_order blockers

abbrev pub container_wait_suffix : String
container_wait_suffix = "whose container is still running on the server"

describe_wait_on : BlockReason → String → String
describe_wait_on outcome_unknown deployment =
    "Waiting on the pre-activation job of " <> deployment
    <> ", whose outcome is unknown. Check its effect and mark it succeeded to let this deployment continue"
describe_wait_on container_running deployment =
    "Waiting on the pre-activation job of " <> deployment <> ", " <> container_wait_suffix
describe_wait_on running deployment =
    "Waiting on the pre-activation job of " <> deployment <> ", which is still running"
describe_wait_on own_attempt_running deployment =
    "Waiting on an earlier attempt of this deployment's pre-activation job, "
    <> container_wait_suffix

unfoldable pub describe_release_job_wait : Blocker → String
unfolding describe_wait_on
describe_release_job_wait b =
    describe_wait_on b.reason ("deployment " <> take_chars 8 b.deployment_id)
