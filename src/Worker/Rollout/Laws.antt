-- ===== src/Worker/Rollout/Laws.antt =====
-- What the plan of a rollout guarantees.
use nouva_agent.Prelude.{
  ◌≡◌, ◌⊎◌, inl, inr, String, Bool, true, false, not, List, [], ◌∷◌, arith, All, any, filter_by,
  Bool-cases, ◌≢◌,
}
use nouva_agent.Prelude.Names.{is_member}
use nouva_agent.Worker.Policy.{no_overlap}
use nouva_agent.Worker.Rollout.{
  Existing, Plan, candidate_first, stop_first, RolloutInput, existing_candidates, others, names,
  live_others, plan_worker_rollout, same_deployment, is_empty,
}

-- The containers that a plan stops before a candidate starts, those it resets, and those it retires
-- once the candidates are ready.
abbrev pub touched : Plan → List String
touched (candidate_first reason retire) = retire
touched (stop_first strategy reason reset stop) = stop

-- A stop-first plan resets the containers at the candidates' names.
abbrev pub Resets : RolloutInput → Plan → Type 0
Resets i (candidate_first reason retire) = Unit {0}
Resets i (stop_first strategy reason reset stop) = reset ≡ names (existing_candidates i)

-- Whatever the order, a rollout stops or retires exactly the containers that are not at a
-- candidate's name, and a stop-first plan resets exactly those that are at one.
pub plan-touched :
    (i : RolloutInput)
    → (touched (plan_worker_rollout i) ≡ names (others i)) × Resets i (plan_worker_rollout i)
unfolding plan_worker_rollout
plan-touched i = ground arith

-- The plan lets the new processes start while the other containers still run.
abbrev pub StartsBeside : Plan → Type 0
StartsBeside (candidate_first reason retire) = Unit {0}
StartsBeside (stop_first strategy reason reset stop) = ⊥

abbrev out : List String → Existing → Bool
out candidates c = not (is_member c.name candidates)

abbrev older : String → Existing → Bool
older id c = not (same_deployment c.deployment_id id)

none_live :
    (names : List String) (cs : List Existing)
    → is_empty (filter_by (λ c. c.live) (filter_by (out names) cs)) ≡ true
    → All (λ c. (is_member c.name names ≡ true) ⊎ (c.live ≡ false)) cs
none_live names [] e = tt
none_live names (c ∷ cs) e = elim (Bool-cases (is_member c.name names)) [
  | inl at ↦ (inl at, none_live names cs (rw at at e))
  | inr off ↦ ground (arith, none_live names cs)
]

none_older :
    (names : List String) (id : String) (cs : List Existing)
    → any (older id) (filter_by (λ c. c.live) (filter_by (out names) cs)) ≡ false
    → All
        (λ c.
          (is_member c.name names ≡ true)
          ⊎ (c.live ≡ false)
          ⊎ (same_deployment c.deployment_id id ≡ true))
        cs
none_older names id [] e = tt
none_older names id (c ∷ cs) e = elim (Bool-cases (is_member c.name names)) [
  | inl at ↦ (inl at, none_older names id cs (rw at at e))
  | inr off ↦ ground (arith, none_older names id cs)
]

-- A volume never has two writers: when a rollout of a volume-backed worker with at least one
-- candidate starts it beside the other containers, each container is at a candidate's name or is not
-- live.
pub single_writer :
    (i : RolloutInput)
    → i.candidate_names ≢ []
    → i.has_volume ≡ true
    → StartsBeside (plan_worker_rollout i)
    → All (λ c. (is_member c.name i.candidate_names ≡ true) ⊎ (c.live ≡ false)) i.containers
unfolding plan_worker_rollout
single_writer i some_candidate volume beside =
    none_live i.candidate_names i.containers (ground arith)

-- Two versions never overlap under `no_overlap`: when a rollout with at least one candidate starts it
-- beside the other containers, each container is at a candidate's name, or is not live, or runs the same deployment.
pub no_overlap_same_version :
    (i : RolloutInput)
    → i.candidate_names ≢ []
    → i.rollout_policy ≡ no_overlap
    → StartsBeside (plan_worker_rollout i)
    → All
        (λ c.
          (is_member c.name i.candidate_names ≡ true)
          ⊎ (c.live ≡ false)
          ⊎ (same_deployment c.deployment_id i.deployment_id ≡ true))
        i.containers
unfolding plan_worker_rollout
no_overlap_same_version i some_candidate policy beside =
    none_older i.candidate_names i.deployment_id i.containers (ground arith)

-- Stopped leftovers decide nothing: where no other container is live, the candidates start first.
pub leftovers_decide_nothing :
    (i : RolloutInput) → live_others i ≡ [] → StartsBeside (plan_worker_rollout i)
unfolding plan_worker_rollout
leftovers_decide_nothing i e = ground arith
