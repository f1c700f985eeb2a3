-- ===== src/Worker/Rollout.antt =====
-- `planWorkerRollout` of agent/src/worker-rollout-plan.ts: the order in which a rollout starts the
-- new containers and retires the old ones.
pub mod Laws
use nouva_agent.Prelude.{
  String, str_eq, Bool, true, false, not, ◌&&◌, Option, none, some, List, [], ◌∷◌, map,
  if◌then◌else◌, any, filter_by,
}
use nouva_agent.Prelude.Names.{is_member}
use nouva_agent.Worker.Policy.{RolloutPolicy, overlap, no_overlap}

pub record Existing : Type 0 where
  pub name : String
  pub deployment_id : Option String
  -- Running, or recorded by the control plane as the live version.
  pub live : Bool

pub data CandidateReason : Type 0 where
  overlap_policy no_previous_version scaled_to_zero : CandidateReason

pub data StopReason : Type 0 where
  no_overlap_policy single_writer_volume : StopReason

pub data StopStrategy : Type 0 where
  stop_first_cutover single_writer_snapshot_cutover : StopStrategy

-- A candidate-first plan's strategy is always the cutover of ready candidates.
pub data Plan : Type 0 where
  candidate_first : CandidateReason → (retire_after_ready : List String) → Plan
  stop_first : StopStrategy → StopReason → (reset_candidates stop_before_start : List String) → Plan

pub record RolloutInput : Type 0 where
  pub rollout_policy : RolloutPolicy
  pub has_volume : Bool
  pub deployment_id : String
  pub candidate_names : List String
  pub containers : List Existing

-- The containers at a candidate's name, and the others.
abbrev pub existing_candidates : RolloutInput → List Existing
existing_candidates i = filter_by (λ c. is_member c.name i.candidate_names) i.containers

abbrev pub others : RolloutInput → List Existing
others i = filter_by (λ c. not (is_member c.name i.candidate_names)) i.containers

abbrev pub names : List Existing → List String
names = map (λ c. c.name)

abbrev pub live_others : RolloutInput → List Existing
live_others i = filter_by (λ c. c.live) (others i)

abbrev pub same_deployment : Option String → String → Bool
same_deployment none id = false
same_deployment (some d) id = str_eq d id

-- Whether an older version is live.
abbrev pub older_version_exists : RolloutInput → Bool
older_version_exists i =
    any (λ c. not (same_deployment c.deployment_id i.deployment_id)) (live_others i)

abbrev pub is_empty {ℓ} : {A : Type ℓ} → List A → Bool
is_empty [] = true
is_empty (x ∷ xs) = false

abbrev is_no_overlap : RolloutPolicy → Bool
is_no_overlap no_overlap = true
is_no_overlap overlap = false

abbrev candidate_reason : RolloutPolicy → Bool → CandidateReason
candidate_reason overlap true = overlap_policy
candidate_reason _ _ = no_previous_version

unfoldable pub plan_worker_rollout : RolloutInput → Plan
plan_worker_rollout i =
    let other_names = names (others i) in
    let reset = names (existing_candidates i) in
    if is_empty i.candidate_names
    then candidate_first scaled_to_zero other_names
    else if i.has_volume && not (is_empty (live_others i))
    then stop_first single_writer_snapshot_cutover single_writer_volume reset other_names
    else if is_no_overlap i.rollout_policy && older_version_exists i
    then stop_first stop_first_cutover no_overlap_policy reset other_names
    else candidate_first (candidate_reason i.rollout_policy (older_version_exists i)) other_names
