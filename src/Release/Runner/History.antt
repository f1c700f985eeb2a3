-- ===== src/Release/Runner/History.antt =====
-- What the history of a phase tells, and what it may hold: the rules that the runner of
-- agent/src/release-jobs.ts keeps between the control plane and Docker.
use nouva_agent.Prelude.{
  ℕ, ◌≡◌, Bool, true, false, not, ◌||◌, ◌⊎◌, Option, none, some, List, [], ◌∷◌,
}
use nouva_agent.Release.Phases.{Phase, Outcome, failure_of}
use nouva_agent.Release.Claim.{ClaimResponse, run, resume, skip, halt}
use nouva_agent.Release.Outside.{
  Event, claimed, reported, created_own, started_own, removed_own, Report,
}
use nouva_agent.Release.Runner.{PhaseResult, succeeded, unsuccessful}
use nouva_agent.Release.Runner.ControlPlane.{is_verification}

-- The control plane's answer to the claim.
abbrev pub last_claim : List Event → Option ClaimResponse
last_claim [] = none
last_claim (claimed jobs (some c) ∷ t) = some c
last_claim (_ ∷ t) = last_claim t

-- Whether Docker was asked to start the attempt's container.
abbrev pub has_started : List Event → Bool
has_started [] = false
has_started (started_own ∷ t) = true
has_started (_ ∷ t) = has_started t

abbrev pub last_report : List Event → Option Report
last_report [] = none
last_report (reported r b ∷ t) = some r
last_report (_ ∷ t) = last_report t

-- The report that was acknowledged.
abbrev pub acknowledged : List Event → Option Report
acknowledged [] = none
acknowledged (reported r true ∷ t) = some r
acknowledged (_ ∷ t) = acknowledged t

abbrev pub is_acknowledged : Option Report → Bool
is_acknowledged none = false
is_acknowledged (some r) = true

-- Whether Docker was asked to remove the attempt's container after its last start.
abbrev pub is_gone : List Event → Bool
is_gone [] = false
is_gone (started_own ∷ t) = false
is_gone (removed_own ∷ t) = true
is_gone (_ ∷ t) = is_gone t

-- The attempt that a claim lets run, if it does.
abbrev pub claimed_attempt : Option ClaimResponse → Option ℕ
claimed_attempt (some (run a)) = some a
claimed_attempt (some (resume a)) = some a
claimed_attempt _ = none

abbrev pub Agrees : Report → Option Report → Type 0
Agrees r none = Unit {0}
Agrees r (some earlier) = earlier ≡ r

-- Nothing is claimed once a claim is answered. A container is created for the attempt that a `run`
-- names, started at most once and only for a claim that lets the attempt run, before any report.
-- What is reported is the claimed attempt, always the same report, and none after it is
-- acknowledged. The removal of a pre-activation job's container is only asked for after that.
abbrev pub IsSound : Phase → List Event → Type 0
IsSound p [] = Unit {0}
IsSound p (claimed jobs c ∷ t) = (last_claim t ≡ none) × IsSound p t
IsSound p (created_own a spec ∷ t) =
    (last_claim t ≡ some (run a)) × (has_started t ≡ false) × IsSound p t
IsSound p (started_own ∷ t) =
    ((a : ℕ) × (claimed_attempt (last_claim t) ≡ some a))
    × (has_started t ≡ false)
    × (last_report t ≡ none)
    × IsSound p t
IsSound p (reported r b ∷ t) =
    (claimed_attempt (last_claim t) ≡ some r.attempt)
    × Agrees r (last_report t)
    × (acknowledged t ≡ none)
    × IsSound p t
IsSound p (removed_own ∷ t) =
    ((is_verification p || is_acknowledged (acknowledged t)) ≡ true) × IsSound p t
IsSound p (_ ∷ t) = IsSound p t

-- What a result rests on: the claim's answer, or the report that was acknowledged.
abbrev pub IsJustified : PhaseResult → List Event → Type 0
IsJustified (succeeded a) t =
    (last_claim t ≡ some (skip a))
    ⊎ ((r : Report) × (acknowledged t ≡ some r) × (r.outcome ≡ Outcome.succeeded) × (r.attempt ≡ a))
IsJustified (unsuccessful a f message policy) t =
    (last_claim t ≡ some (halt a f message))
    ⊎ ((r : Report) × (acknowledged t ≡ some r)
        × (failure_of r.outcome ≡ some f)
        × (r.attempt ≡ a)
        × (r.applied_policy ≡ policy))

abbrev pub IsLeftGone : List Event → Type 0
IsLeftGone t = (not (has_started t) || is_gone t) ≡ true

-- How a run leaves things: soundly in any case. Where it returns, the result is justified and Docker
-- was asked to remove a container that was started. Where it throws, it was for a verification's.
abbrev pub Returned : Phase → PhaseResult → List Event → Type 0
Returned p result t = IsSound p t × IsJustified result t × IsLeftGone t

abbrev pub Interrupted : Phase → List Event → Type 0
Interrupted p t =
    IsSound p t × ((not (is_verification p) || not (has_started t) || is_gone t) ≡ true)
