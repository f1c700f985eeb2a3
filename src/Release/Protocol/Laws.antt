-- ===== src/Release/Protocol/Laws.antt =====
-- What holds of the rows of a release phase in every reachable state.
use mathlib.Core.List.{Memᴰ}
use nouva_agent.Prelude.{
  All-mem, ◌==◌, ℕ, ◌+◌, ◌≤◌, ◌<◌, ◌≡◌, refl, inl, inr, String, str_eq, eq_iff, Option, none, some,
  List, [], ◌∷◌, arith, All, Bool-cases, All-map, ap,
}
use nouva_agent.Release.Phases.{Phase, Outcome, Status, pending, running, ended}
use nouva_agent.Release.Claim.{
  JobRecord, run, decide_release_job_claim, decide_release_job_report,
  decide_release_job_resolution, Resolution, decide_claim_on, same_outcome,
}
use nouva_agent.Release.Protocol.{
  Handout, Job, claim_step, report_step, resolve_step, Step, claims, reports, resolves, Reach, here,
  later, fresh_job,
}

-- Two `run` answers for one attempt went to one lease.
abbrev pub IsConsistent : List Handout → Type 0
IsConsistent [] = Unit
IsConsistent (h ∷ hs) = All (λ k. k.attempt ≡ h.attempt → k.lease ≡ h.lease) hs × IsConsistent hs

-- No attempt past the current one was recorded; while it runs, nor was the current one.
abbrev IsBehind : Status → ℕ → List ℕ → Type 0
IsBehind running attempt ds = All (λ d. d < attempt) ds
IsBehind _ attempt ds = All (λ d. d ≤ attempt) ds

pub record Inv (j : Job) : Type 0 where
  pub within : All (λ h. h.attempt ≤ j.row.attempt) j.handouts
  pub owned : All (λ h. h.attempt ≡ j.row.attempt → j.row.claimed_lease ≡ some h.lease) j.handouts
  pub consistent : IsConsistent j.handouts
  pub behind : IsBehind j.row.status j.row.attempt j.recorded

fresh_job-Inv : Inv fresh_job
fresh_job-Inv = record { within = tt; owned = tt; consistent = tt; behind = tt }

module _ (status : Status) (attempt : ℕ) (message claimed : Option String) (hs : List Handout)
    (ds : List ℕ) where
  abbrev job : Job
  job = record {
    row = record {
      status = status;
      attempt = attempt;
      status_message = message;
      claimed_lease = claimed;
    };
    handouts = hs;
    recorded = ds;
  }

-- A new attempt differs from every attempt before it.
fresh_consistent :
    (a : ℕ) (lease : String) (hs : List Handout)
    → All (λ h. h.attempt ≤ a) hs
    → All (λ k. k.attempt ≡ a + 1 → k.lease ≡ lease) hs
fresh_consistent a lease [] w = tt
fresh_consistent a lease (h ∷ hs) w =
    ((λ e. absurd (omega (arith, w.0))), fresh_consistent a lease hs w.1)

fresh_owned :
    (a : ℕ) (lease : String) (hs : List Handout)
    → All (λ h. h.attempt ≤ a) hs
    → All (λ h. h.attempt ≡ a + 1 → some lease ≡ some h.lease) hs
fresh_owned a lease [] w = tt
fresh_owned a lease (h ∷ hs) w = ((λ e. absurd (omega (arith, w.0))), fresh_owned a lease hs w.1)

le_step :
    (a : ℕ) (hs : List Handout) → All (λ h. h.attempt ≤ a) hs → All (λ h. h.attempt ≤ a + 1) hs
le_step a hs = All-map _ _ hs (λ h e. omega arith)

lt_step : (a : ℕ) (ds : List ℕ) → All (λ d. d ≤ a) ds → All (λ d. d < a + 1) ds
lt_step a ds = All-map _ _ ds (λ d e. omega arith)

lt-le : (a : ℕ) (ds : List ℕ) → All (λ d. d < a) ds → All (λ d. d ≤ a) ds
lt-le a ds = All-map _ _ ds (λ d e. omega arith)

-- What was handed out for the current attempt went to the lease that owns it.
owner_consistent :
    (a : ℕ) (lease : String) (hs : List Handout)
    → All (λ h. h.attempt ≡ a → some lease ≡ some h.lease) hs
    → All (λ k. k.attempt ≡ a → k.lease ≡ lease) hs
owner_consistent a lease hs = All-map _ _ hs (λ h f e. cc (f e))

claim_pending :
    (a : ℕ) (m c : Option String) (hs : List Handout) (ds : List ℕ) (lease : String)
    → Inv (job pending a m c hs ds)
    → Inv (claim_step lease (job pending a m c hs ds))
unfolding claim_step decide_release_job_claim
claim_pending a m c hs ds lease v = record {
  within = (omega arith, le_step a hs v.within);
  owned = ((λ e. refl), fresh_owned a lease hs v.within);
  consistent = (fresh_consistent a lease hs v.within, v.consistent);
  behind = lt_step a ds v.behind;
}

claim_running :
    (a : ℕ) (m c : Option String) (hs : List Handout) (ds : List ℕ) (lease : String)
    → Inv (job running a m c hs ds)
    → Inv (claim_step lease (job running a m c hs ds))
unfolding claim_step decide_release_job_claim
claim_running a m none hs ds lease v = v
claim_running a m (some owner) hs ds lease v = elim (Bool-cases (str_eq owner lease)) [
  | inl same ↦
      let e = (eq_iff owner lease).0 same in
      rw same (record {
        within = (omega arith, v.within);
        owned = ((λ _. ap some e), v.owned);
        consistent = (rw (← e) (owner_consistent a owner hs v.owned), v.consistent);
        behind = v.behind;
      })
  | inr other ↦ rw other v
]

claim_ended :
    (o : Outcome) (a : ℕ) (m c : Option String) (hs : List Handout) (ds : List ℕ) (lease : String)
    → Inv (job (ended o) a m c hs ds)
    → Inv (claim_step lease (job (ended o) a m c hs ds))
unfolding claim_step decide_release_job_claim
claim_ended Outcome.succeeded a m c hs ds lease v = v
claim_ended Outcome.failed a m c hs ds lease v = v
claim_ended Outcome.timed_out a m c hs ds lease v = v
claim_ended Outcome.outcome_unknown a m c hs ds lease v = v

claim-Inv :
    (s : Status) (a : ℕ) (m c : Option String) (hs : List Handout) (ds : List ℕ) (lease : String)
    → Inv (job s a m c hs ds)
    → Inv (claim_step lease (job s a m c hs ds))
claim-Inv pending = claim_pending
claim-Inv running = claim_running
claim-Inv (ended o) = claim_ended o

-- Once an attempt is over, no attempt past the current one was recorded.
behind-le : (s : Status) (a : ℕ) (ds : List ℕ) → IsBehind s a ds → All (λ d. d ≤ a) ds
behind-le pending a ds b = b
behind-le running a ds b = lt-le a ds b
behind-le (ended o) a ds b = b

report-Inv :
    (s : Status) (a : ℕ) (m c : Option String) (hs : List Handout) (ds : List ℕ) (n : ℕ)
    (o : Outcome)
    → Inv (job s a m c hs ds)
    → Inv (report_step n o (job s a m c hs ds))
unfolding report_step decide_release_job_report
report-Inv pending a m c hs ds n o v = ground arith
report-Inv running a m c hs ds n o v = elim (Bool-cases (n == a)) [
  | inl same ↦ rw same (record {
    within = v.within;
    owned = v.owned;
    consistent = v.consistent;
    behind = (omega arith, lt-le a ds v.behind);
  })
  | inr other ↦ rw other v
]
report-Inv (ended p) a m c hs ds n o v = elim (Bool-cases (n == a)) [
  | inl same ↦ elim (Bool-cases (same_outcome p o)) [
    | inl again ↦ rw (same, again) v
    | inr differs ↦ rw (same, differs) v
  ]
  | inr other ↦ rw other v
]

-- A resolution keeps the status or moves an ended attempt to a status that is not running.
resolve-Inv :
    (phase : Phase) (s : Status) (a : ℕ) (m c : Option String) (hs : List Handout) (ds : List ℕ)
    (r : Resolution)
    → Inv (job s a m c hs ds)
    → Inv (resolve_step phase r (job s a m c hs ds))
unfolding resolve_step decide_release_job_resolution
resolve-Inv Phase.verification s a m c hs ds r v = v
resolve-Inv Phase.pre_activation pending a m c hs ds Resolution.retry v = v
resolve-Inv Phase.pre_activation running a m c hs ds Resolution.retry v = v
resolve-Inv Phase.pre_activation (ended Outcome.succeeded) a m c hs ds Resolution.retry v = v
resolve-Inv Phase.pre_activation (ended Outcome.failed) a m c hs ds Resolution.retry v = record {
  within = v.within;
  owned = v.owned;
  consistent = v.consistent;
  behind = v.behind;
}
resolve-Inv Phase.pre_activation (ended Outcome.timed_out) a m c hs ds Resolution.retry v = record {
  within = v.within;
  owned = v.owned;
  consistent = v.consistent;
  behind = v.behind;
}
resolve-Inv Phase.pre_activation (ended Outcome.outcome_unknown) a m c hs ds Resolution.retry v =
    record { within = v.within; owned = v.owned; consistent = v.consistent; behind = v.behind }
resolve-Inv Phase.pre_activation pending a m c hs ds Resolution.mark_succeeded v = v
resolve-Inv Phase.pre_activation running a m c hs ds Resolution.mark_succeeded v = v
resolve-Inv Phase.pre_activation (ended Outcome.succeeded) a m c hs ds Resolution.mark_succeeded v =
    v
resolve-Inv Phase.pre_activation (ended Outcome.failed) a m c hs ds Resolution.mark_succeeded v = v
resolve-Inv Phase.pre_activation (ended Outcome.timed_out) a m c hs ds Resolution.mark_succeeded v =
    v
resolve-Inv Phase.pre_activation (ended Outcome.outcome_unknown) a m c hs ds
      Resolution.mark_succeeded v =
    record { within = v.within; owned = v.owned; consistent = v.consistent; behind = v.behind }

Step-Inv : {phase : Phase} {j k : Job} → Step phase j k → Inv j → Inv k
Step-Inv {j} (claims lease) v =
    claim-Inv j.row.status j.row.attempt j.row.status_message j.row.claimed_lease j.handouts
      j.recorded lease v
Step-Inv {j} (reports n o) v =
    report-Inv j.row.status j.row.attempt j.row.status_message j.row.claimed_lease j.handouts
      j.recorded n o v
Step-Inv {phase} {j} (resolves r) v =
    resolve-Inv phase j.row.status j.row.attempt j.row.status_message j.row.claimed_lease j.handouts
      j.recorded r v

pub Reach-Inv : {phase : Phase} {j k : Job} → Inv j → Reach phase j k → Inv k
Reach-Inv v here = v
Reach-Inv v (later r s) = Step-Inv s (Reach-Inv v r)

consistent-mem :
    (hs : List Handout) (h k : Handout)
    → IsConsistent hs
    → Memᴰ h hs
    → Memᴰ k hs
    → h.attempt ≡ k.attempt
    → h.lease ≡ k.lease
consistent-mem [] h k c m n e = elim m [ ]
consistent-mem (x ∷ xs) h k c (Memᴰ.head p) (Memᴰ.head q) e = cc
consistent-mem (x ∷ xs) h k c (Memᴰ.head p) (Memᴰ.tail m) e =
    let same = All-mem _ xs k c.0 m (ground arith) in cc
consistent-mem (x ∷ xs) h k c (Memᴰ.tail m) (Memᴰ.head q) e =
    let same = All-mem _ xs h c.0 m (ground arith) in cc
consistent-mem (x ∷ xs) h k c (Memᴰ.tail m) (Memᴰ.tail n) e = consistent-mem xs h k c.1 m n e

-- After any claims, reports and resolutions on a new row, two `run` answers for one attempt went to
-- one lease.
pub run_once :
    {phase : Phase} {j : Job} (h k : Handout)
    → Reach phase fresh_job j
    → Memᴰ h j.handouts
    → Memᴰ k j.handouts
    → h.attempt ≡ k.attempt
    → h.lease ≡ k.lease
run_once {j} h k r = consistent-mem j.handouts h k (Reach-Inv fresh_job-Inv r).consistent

run_behind :
    (s : Status) (r : JobRecord) (ds : List ℕ) (lease : String) (a : ℕ)
    → IsBehind s r.attempt ds
    → (decide_claim_on s r lease).response ≡ run a
    → All (λ d. d < a) ds
unfolding decide_release_job_claim
run_behind pending r ds lease a b e =
    let same : r.attempt + 1 ≡ a = ground arith in rw (← same) (lt_step r.attempt ds b)
run_behind running r ds lease a b e = let same : r.attempt ≡ a = ground arith in rw (← same) b
run_behind (ended Outcome.succeeded) r ds lease a b e = cc
run_behind (ended Outcome.failed) r ds lease a b e = cc
run_behind (ended Outcome.timed_out) r ds lease a b e = cc
run_behind (ended Outcome.outcome_unknown) r ds lease a b e = cc

-- In every reachable state of a new row, an attempt that a claim would be told to run is later than
-- every attempt whose outcome was recorded.
pub run-lt_recorded :
    {phase : Phase} {j : Job} (lease : String) (a : ℕ)
    → Reach phase fresh_job j
    → (decide_release_job_claim j.row lease).response ≡ run a
    → All (λ d. d < a) j.recorded
unfolding decide_release_job_claim
run-lt_recorded {j} lease a r e =
    run_behind j.row.status j.row j.recorded lease a (Reach-Inv fresh_job-Inv r).behind e
