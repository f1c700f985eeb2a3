-- ===== src/Worker/Reports/Laws.antt =====
-- A policy survives the wire, and what is passed on stays in the closed vocabularies.
use nouva_agent.Prelude.{
  get_or_else, Option-cases, inl, inr, ◌≡◌, ℕ, ◌≤◌, String, Bool, true, Option, none, some, List,
  [], ◌∷◌, map, arith, All, ◌↔◌, ◌⊎◌, eq_iff,
}
use nouva_agent.Prelude.Names.{is_member}
use nouva_agent.Prelude.Number.{of_ℕ}
use nouva_agent.Worker.Policy.{RolloutPolicy, ShutdownPolicy, shutdown_signals, overlap, no_overlap}
use nouva_agent.Worker.Reports.{
  redact, Value, null, text, number, PolicyFields, rollout_text, parse_worker_shutdown_policy,
  ReportFields, ShutdownReport, parse_worker_shutdown_report, parse_entries,
  parse_worker_shutdown_reports, RolloutFields, sanitize_worker_rollout_shutdown_fields,
}
use nouva_agent.Worker.Signal.{is_worker_stop_signal_name}

abbrev signal_value : Option String → Value
signal_value none = null
signal_value (some s) = text s

-- A policy as the control plane writes it.
abbrev pub to_fields : ShutdownPolicy → PolicyFields
to_fields p = record {
  signal = signal_value p.signal;
  grace_seconds = number (of_ℕ p.grace_seconds);
  rollout_policy = text (rollout_text p.rollout_policy);
}

-- The signals that a policy may ask for; `none` is the image's own.
abbrev pub IsOffered : Option String → Type 0
IsOffered none = Unit {0}
IsOffered (some s) =
    (s ≡ "SIGTERM")
    ⊎ ((s ≡ "SIGINT") ⊎ ((s ≡ "SIGQUIT") ⊎ ((s ≡ "SIGHUP") ⊎ ((s ≡ "SIGUSR1") ⊎ (s ≡ "SIGUSR2")))))

member-IsOffered : (s : String) → (is_member s shutdown_signals ≡ true) ↔ IsOffered (some s)
member-IsOffered s = ground (
  arith,
  eq_iff "SIGTERM" s,
  eq_iff "SIGINT" s,
  eq_iff "SIGQUIT" s,
  eq_iff "SIGHUP" s,
  eq_iff "SIGUSR1" s,
  eq_iff "SIGUSR2" s,
)

abbrev is_signal : Option String → Bool
is_signal none = true
is_signal (some s) = is_member s shutdown_signals

is_signal-IsOffered : (o : Option String) → (is_signal o ≡ true) ↔ IsOffered o
is_signal-IsOffered none = (λ e. tt, λ u. λ i. true)
is_signal-IsOffered (some s) = member-IsOffered s

round_trip :
    (signal : Option String) (grace : ℕ) (rollout : RolloutPolicy)
    → let p : ShutdownPolicy = record {
      signal = signal;
      grace_seconds = grace;
      rollout_policy = rollout;
    } in
      (parse_worker_shutdown_policy (some (to_fields p)) ≡ some p)
      ↔ ((is_signal signal ≡ true) × (1 ≤ grace) × (grace ≤ 3600))
unfolding parse_worker_shutdown_policy
round_trip none grace overlap = ground arith
round_trip none grace no_overlap = ground arith
round_trip (some s) grace overlap = ground arith
round_trip (some s) grace no_overlap = ground arith

-- A policy is read back as it was written exactly when it names no signal or one of SIGTERM, SIGINT,
-- SIGQUIT, SIGHUP, SIGUSR1 and SIGUSR2, and its grace period is between a second and an hour.
pub policy_round_trip :
    (p : ShutdownPolicy)
    → (parse_worker_shutdown_policy (some (to_fields p)) ≡ some p)
      ↔ (IsOffered p.signal × (1 ≤ p.grace_seconds) × (p.grace_seconds ≤ 3600))
policy_round_trip p =
    let (reads, written) = round_trip p.signal p.grace_seconds p.rollout_policy in
    let (offers, offered) = is_signal-IsOffered p.signal in
    (
      λ e. let (signal, least, most) = reads e in (offers signal, least, most),
      λ (signal, least, most). written (offered signal, least, most),
    )

-- Each report that is passed on has a bare signal name and a grace period within the bounds.
abbrev pub IsSafe : ShutdownReport → Type 0
IsSafe r =
    (is_worker_stop_signal_name r.signal ≡ true) × (1 ≤ r.grace_seconds) × (r.grace_seconds ≤ 3600)

report-IsSafe :
    (v : Option ReportFields) (r : ShutdownReport)
    → parse_worker_shutdown_report v ≡ some r
    → IsSafe r
unfolding parse_worker_shutdown_report
report-IsSafe none r e = absurd (cc)
report-IsSafe (some f) r e = ground arith

entries-IsSafe :
    (f : String → String) (vs : List (Option ReportFields))
    → All IsSafe (map (redact f) (parse_entries vs))
unfolding parse_entries
entries-IsSafe f [] = tt
entries-IsSafe f (v ∷ vs) = elim (Option-cases (parse_worker_shutdown_report v)) [
  | inl dropped ↦ rw dropped (entries-IsSafe f vs)
  | inr (r, e) ↦ rw e (report-IsSafe v r e, entries-IsSafe f vs)
]

passed_on-IsSafe :
    (f : String → String) (p : Option (Option PolicyFields))
    (v : Option (Option (List (Option ReportFields))))
    → All IsSafe (
        get_or_else
          (sanitize_worker_rollout_shutdown_fields
            (record { policy = p; shutdowns = v })
            f).shutdowns
          [])
unfolding sanitize_worker_rollout_shutdown_fields parse_worker_shutdown_reports
passed_on-IsSafe f p none = tt
passed_on-IsSafe f p (some none) = tt
passed_on-IsSafe f p (some (some vs)) = entries-IsSafe f vs

-- Whatever the agent reports, each shutdown that is passed on names a bare signal and a grace period
-- between a second and an hour.
pub sanitized-IsSafe :
    (rollout : RolloutFields) (redact_name : String → String)
    → All IsSafe
        (get_or_else (sanitize_worker_rollout_shutdown_fields rollout redact_name).shutdowns [])
sanitized-IsSafe rollout redact_name = passed_on-IsSafe redact_name rollout.policy rollout.shutdowns
