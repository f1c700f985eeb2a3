-- ===== src/Release/Protocol/Repeats.antt =====
-- Lost answers: a repeated claim and a repeated report.
use nouva_agent.Prelude.{◌≡◌, ℕ, String, arith, eq_refl}
use nouva_agent.Release.Phases.{Outcome}
use nouva_agent.Release.Claim.{
  decide_release_job_claim, decide_release_job_report, record_it, duplicate,
}
use nouva_agent.Release.Protocol.{Job, claim_step, report_step}

-- Whatever the row, a lease that repeats its claim is answered the same, and the repeat commits
-- nothing.
pub claim_repeat :
    (j : Job) (lease : String)
    → let k = claim_step lease j in
      ((decide_release_job_claim k.row lease).response
        ≡ (decide_release_job_claim j.row lease).response)
      × ((claim_step lease k).row ≡ k.row)
unfolding claim_step decide_release_job_claim
claim_repeat j lease = ground (arith, eq_refl lease)

-- A report that is recorded is answered as a duplicate when it is repeated, and the repeat changes
-- nothing.
pub report_repeat :
    (j : Job) (attempt : ℕ) (outcome : Outcome)
    → decide_release_job_report j.row attempt outcome ≡ record_it
    → let k = report_step attempt outcome j in
      (decide_release_job_report k.row attempt outcome ≡ duplicate)
      × (report_step attempt outcome k ≡ k)
unfolding report_step decide_release_job_report
report_repeat j attempt outcome e = ground arith
