-- ===== src/Release/Tests.antt =====
-- Runs of the release phases, and the theorems at concrete inputs.
use nouva_agent.Prelude.{
  ◌≡◌, refl, ℕ, [], ◌∷◌, none, some, All, ◌<◌, String, true, false, ◌↔◌, trim, decimal,
  utf16_length, ◌⊎◌, includes_code,
}
use nouva_agent.Release.Config.Laws.{IsPre, IsVerify, validate_iff}
use nouva_agent.Release.Claim.{duplicate}
use nouva_agent.Release.Blockers.{Blocker, BlockReason, select_release_job_blocker}
use nouva_agent.Release.Blockers.Laws.{IsFirstMostUrgent, select-most_urgent}
use nouva_agent.Release.Recovery.{DateParse, classify_release_job_exit, read_timestamp_ms}
use nouva_agent.Release.Recovery.Laws.{RanShort, classify-succeeded_iff}
use nouva_agent.Release.Gates.{
  roll_back, decide_verification_consequence, describe_reported_release_job,
}
use nouva_agent.Release.Gates.Laws.{roll_back_iff}
use nouva_agent.Prelude.Number.{of_ℕ}
use nouva_agent.Release.Phases.{Phase, Outcome, rollback, running}
use nouva_agent.Release.Config.{
  ReleaseConfig, app, worker, validate_service_release_config, rollback_unsupported,
}
use nouva_agent.Release.Claim.{
  run, decide_release_job_claim, decide_release_job_report, record_it, Resolution,
  decide_release_job_resolution,
}
use nouva_agent.Release.Protocol.{
  Job, fresh_job, claim_step, report_step, resolve_step, Reach, here, later, claims, reports,
  resolves,
}
use mathlib.Core.List.{Memᴰ}
use nouva_agent.Release.Protocol.Laws.{run_once, run-lt_recorded}
use nouva_agent.Release.Protocol.Repeats.{claim_repeat, report_repeat}

abbrev rollback_config : ReleaseConfig
rollback_config = record {
  pre = none;
  verify =
      some (record { command = " check "; timeout_seconds = of_ℕ 60; on_failure = some rollback });
}

validate_tests :
    (validate_service_release_config rollback_config app ≡ none)
    × (validate_service_release_config rollback_config worker ≡ some rollback_unsupported)
unfolding validate_service_release_config trim utf16_length includes_code
validate_tests = (refl, refl)

-- Lease A starts attempt 1 and asks again, B finds it running, A reports a failure, the operator
-- asks for a retry and B starts attempt 2.
abbrev retried : Job
retried = claim_step "B" (
    resolve_step Phase.pre_activation Resolution.retry
      (report_step 1 Outcome.failed (claim_step "B" (claim_step "A" (claim_step "A" fresh_job)))))

retried-Reach : Reach Phase.pre_activation fresh_job retried
retried-Reach =
    later
      (later
        (later (later (later (later here (claims "A")) (claims "A")) (claims "B"))
          (reports 1 Outcome.failed))
        (resolves Resolution.retry))
      (claims "B")

retried_runs :
    (retried.handouts
      ≡ record { attempt = 2; lease = "B" }
        ∷ record { attempt = 1; lease = "A" }
        ∷ record { attempt = 1; lease = "A" }
        ∷ [])
    × (retried.recorded ≡ 1 ∷ [])
unfolding claim_step resolve_step report_step decide_release_job_claim decide_release_job_report
    decide_release_job_resolution
retried_runs = (refl, refl)

first_run : Memᴰ (record { attempt = 1; lease = "A" }) retried.handouts
unfolding claim_step resolve_step report_step decide_release_job_claim decide_release_job_report
    decide_release_job_resolution
first_run = Memᴰ.tail (Memᴰ.head refl)

repeated_run : Memᴰ (record { attempt = 1; lease = "A" }) retried.handouts
unfolding claim_step resolve_step report_step decide_release_job_claim decide_release_job_report
    decide_release_job_resolution
repeated_run = Memᴰ.tail (Memᴰ.tail (Memᴰ.head refl))

run_once_example : ◌≡◌ {A = String} "A" "A"
run_once_example =
    run_once (record { attempt = 1; lease = "A" }) (record { attempt = 1; lease = "A" })
      retried-Reach first_run repeated_run refl

retried_answer : (decide_release_job_claim retried.row "B").response ≡ run 2
unfolding claim_step resolve_step report_step decide_release_job_claim decide_release_job_report
    decide_release_job_resolution
retried_answer = refl

run-lt_recorded_example : All (λ d. d < 2) retried.recorded
run-lt_recorded_example = run-lt_recorded "B" 2 retried-Reach retried_answer

claim_repeat_example :
    ((decide_release_job_claim (claim_step "A" fresh_job).row "A").response
      ≡ (decide_release_job_claim fresh_job.row "A").response)
    × ((claim_step "A" (claim_step "A" fresh_job)).row ≡ (claim_step "A" fresh_job).row)
claim_repeat_example = claim_repeat fresh_job "A"

abbrev claimed : Job
claimed = record {
  row = record { status = running; attempt = 1; status_message = none; claimed_lease = some "A" };
  handouts = record { attempt = 1; lease = "A" } ∷ [];
  recorded = [];
}

claimed_recorded : decide_release_job_report claimed.row 1 Outcome.timed_out ≡ record_it
unfolding decide_release_job_report
claimed_recorded = refl

report_repeat_example :
    (decide_release_job_report (report_step 1 Outcome.timed_out claimed).row 1 Outcome.timed_out
      ≡ duplicate)
    × (report_step 1 Outcome.timed_out (report_step 1 Outcome.timed_out claimed)
        ≡ report_step 1 Outcome.timed_out claimed)
report_repeat_example = report_repeat claimed 1 Outcome.timed_out claimed_recorded

validate_iff_example :
    (validate_service_release_config rollback_config app ≡ none)
    ↔ (IsPre none × IsVerify app rollback_config.verify)
validate_iff_example = validate_iff rollback_config app

abbrev first_blocker : Blocker
first_blocker = record { deployment_id = "d1"; reason = BlockReason.running }

abbrev second_blocker : Blocker
second_blocker = record { deployment_id = "d2"; reason = BlockReason.outcome_unknown }

select_second :
    select_release_job_blocker (first_blocker ∷ second_blocker ∷ []) ≡ some second_blocker
unfolding select_release_job_blocker
select_second = refl

select-most_urgent_example : IsFirstMostUrgent second_blocker (first_blocker ∷ second_blocker ∷ [])
select-most_urgent_example =
    select-most_urgent (first_blocker ∷ second_blocker ∷ []) second_blocker select_second

-- A clock that reads every text as time 1000.
abbrev flat_parse : DateParse
flat_parse value = some 1000

classify-succeeded_iff_example :
    (classify_release_job_exit flat_parse 0 (some "t") (some "t") 5 false ≡ Outcome.succeeded) ↔ (
      (◌≡◌ {A = ℕ} 0 0)
      × RanShort
          (read_timestamp_ms flat_parse (some "t"))
          (read_timestamp_ms flat_parse (some "t"))
          5
          false)
classify-succeeded_iff_example = classify-succeeded_iff flat_parse 0 (some "t") (some "t") 5 false

roll_back_iff_example :
    (decide_verification_consequence Outcome.timed_out rollback true ≡ roll_back) ↔ (
      ((Outcome.timed_out ≡ Outcome.failed) ⊎ (Outcome.timed_out ≡ Outcome.timed_out))
      × (rollback ≡ rollback)
      × (true ≡ true))
roll_back_iff_example = roll_back_iff Outcome.timed_out rollback true

message_test :
    describe_reported_release_job Phase.verification Outcome.failed 1
      (some 137)
      5
      (some rollback)
      none
    ≡ some
        "Verification failed with exit code 137. The previous deployment could not take traffic back, so the new deployment keeps serving."
unfolding describe_reported_release_job decimal
message_test = refl
