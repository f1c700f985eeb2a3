-- ===== src/Release/Runner/Laws/Attempts.antt =====
-- One attempt, and what its history holds at the end.
use nouva_agent.Prelude.{
  ℕ, ◌≡◌, refl, ◌≤◌, Bool, true, false, Option, none, some, String, List, ◌∷◌, arith, inl, inr,
  if◌then◌else◌, get_or_else,
}
use nouva_agent.Prelude.Effects.{
  Act, value, Ends, and_then-Ends, or_catch-Ends, call-Ends, Answer-cases, ended, and_then,
  Ends-weaken, pure,
}
use nouva_agent.Release.Phases.{Phase}
use nouva_agent.Release.Claim.{ClaimResponse, run, resume}
use nouva_agent.Release.Recovery.{
  Recovery, start, wait, save, declare_unknown, decide_release_job_recovery,
}
use nouva_agent.Release.Jobs.{Target}
use nouva_agent.Release.Jobs.Laws.{KeepsLook, KeepsSweep, attempts-Ends}
use nouva_agent.Release.Outside.{
  Container, Event, inspected_own, started_own, Thrown, Host, IsClock, IsStamped, observe_container,
  read_started_at_ms,
}
use nouva_agent.Release.Runner.Attempt.{
  Started, began, not_started, Begun, awaits, to_begun, Request, Decision, runs, resumes,
  after_start_failure, start_attempt, run_start, resume_by, begin_attempt,
}
use nouva_agent.Release.Runner.History.{claimed_attempt}
use nouva_agent.Release.Runner.Laws.Calls.{Before, During}

pub Before-KeepsLook : (h : Host) (p : Phase) (c : Option ClaimResponse) → KeepsLook h (Before p c)
Before-KeepsLook h p c = record {
  on_listed = λ cs t b. b;
  on_stopped = λ k t runs late b. b;
  on_inspected = λ k t b. b;
}

pub Before-KeepsSweep : (p : Phase) (c : Option ClaimResponse) → KeepsSweep (Before p c)
Before-KeepsSweep p c = record { on_listed = λ cs t b. b; on_removed = λ k t settled b. b }

abbrev StartedBy : ℕ → Started → Type 0
StartedBy now (began at) = at ≤ now
StartedBy now (not_started x) = Unit {0}

abbrev pub BegunBy : ℕ → Begun → Type 0
BegunBy now (awaits at) = at ≤ now
BegunBy now _ = Unit {0}

StartedBy-judged :
    (o : Option ℕ) (now : ℕ) (b : Bool) (x : Thrown)
    → ((at : ℕ) → o ≡ some at → at ≤ now)
    → StartedBy now (if b then began (get_or_else o now) else not_started x)
StartedBy-judged none now true x f = ground arith
StartedBy-judged (some at) now true x f = f at refl
StartedBy-judged o now false x f = tt

abbrev pub claim_of : Decision → ℕ → ClaimResponse
claim_of runs a = run a
claim_of resumes a = resume a

BegunBy-to_begun : (now : ℕ) (s : Started) → StartedBy now s → BegunBy now (to_begun s)
BegunBy-to_begun now (began at) f = f
BegunBy-to_begun now (not_started x) f = tt

waited : (o : Option ℕ) (now : ℕ) → ((at : ℕ) → o ≡ some at → at ≤ now) → get_or_else o now ≤ now
waited none now f = ground arith
waited (some at) now f = f at refl

module _ (h : Host) (clock : IsClock h) (stamped : IsStamped h) (p : Phase)
    (c : Option ClaimResponse) where
  in_time :
      (k : Option Container) (t : List Event)
      → h.inspect_own t ≡ value k
      → (at : ℕ) → read_started_at_ms h.date_parse k ≡ some at
      → at ≤ h.now (inspected_own ∷ t)
  in_time k t e at f =
      let before = stamped.stamped t k at e f in
      let onward = clock.onward inspected_own t in ground arith

  after_start_failure-Ends :
      (x : Thrown) (t : List Event)
      → During p c t
      → Ends
          (λ s u. During p c u × StartedBy (h.now u) s)
          (λ y u. During p c u)
          (λ u. ⊥)
          (after_start_failure h x t)
  after_start_failure-Ends x t d = elim (Answer-cases (h.inspect_own t)) [
    | inr (y, e) ↦ rw e d
    | inl (k, e) ↦ rw e (
      d,
      StartedBy-judged (read_started_at_ms h.date_parse k) (h.now (inspected_own ∷ t)) _ x
          (in_time k t e),
    )
  ]

  start_attempt-Ends :
      (begin : Act Event Thrown (Unit {0})) (t : List Event)
      → Ends (λ o u. During p c u) (λ x u. During p c u) (λ u. ⊥) (begin t)
      → Ends
          (λ s u. During p c u × StartedBy (h.now u) s)
          (λ x u. During p c u)
          (λ u. ⊥)
          (start_attempt h begin t)
  unfolding start_attempt
  start_attempt-Ends begin t d =
      or_catch-Ends (λ s u. During p c u × StartedBy (h.now u) s) (λ x u. During p c u)
        (λ x u. During p c u) (λ u. ⊥) _ _
        (and_then-Ends (λ o u. During p c u) (λ x u. During p c u) (λ u. ⊥)
          (λ s u. During p c u × StartedBy (h.now u) s) (begin t) _ d
          (λ o u d'. (d', ground arith)))
        after_start_failure-Ends

  -- Calls that leave the claim and the reports alone.
  started-Ends :
      (a : ℕ) (t : List Event)
      → claimed_attempt c ≡ some a
      → Before p c t
      → Ends
          (λ o u. During p c u)
          (λ x u. During p c u)
          (λ u. ⊥)
          (ended (h.start_own t), started_own ∷ t)
  started-Ends a t own (sound, claim, idle, unsent, due) =
      let d : During p c (started_own ∷ t) =
        (((a, rw claim own), idle, unsent, sound), claim, unsent, due) in
      call-Ends (λ o u. During p c u) (λ x u. During p c u) (λ u. ⊥) (h.start_own t)
        (started_own ∷ t) (λ o. d) (λ x. d)

  run_start-Ends :
      (target : Target) (request : Request) (name : String) (a : ℕ) (t : List Event)
      → c ≡ some (run a)
      → Before p c t
      → Ends
          (λ o u. During p c u)
          (λ x u. During p c u)
          (λ u. ⊥)
          (run_start h target request name a t)
  run_start-Ends target request name a t own b =
      and_then-Ends (λ o u. Before p c u) (λ x u. During p c u) (λ u. ⊥) (λ o u. During p c u) _ _
        (Ends-weaken (λ o u. Before p c u) (λ o u. Before p c u) (λ x u. Before p c u)
          (λ x u. During p c u) (λ u. ⊥) _ (λ o u w. w) (λ x u (s, l, i, n, d). (s, l, n, d))
          (attempts-Ends h (Before p c) (Before-KeepsSweep p c) t b))
        (λ o u (sound, claim, idle, unsent, due).
          and_then-Ends (λ o v. Before p c v) (λ x v. During p c v) (λ u. ⊥) (λ o v. During p c v) _
            _
            (call-Ends (λ o v. Before p c v) (λ x v. During p c v) (λ u. ⊥) _ _
              (λ o. ((rw claim own, idle, sound), claim, idle, unsent, due))
              (λ x. ((rw claim own, idle, sound), claim, unsent, due)))
            (λ o v w. started-Ends a v (rw own refl) w))

  begun-Ends :
      (begin : Act Event Thrown (Unit {0})) (t : List Event)
      → Ends (λ o u. During p c u) (λ x u. During p c u) (λ u. ⊥) (begin t)
      → Ends
          (λ b u. During p c u × BegunBy (h.now u) b)
          (λ x u. During p c u)
          (λ u. ⊥)
          (and_then (start_attempt h begin t) (λ s. pure (to_begun s)))
  begun-Ends begin t d =
      and_then-Ends (λ s u. During p c u × StartedBy (h.now u) s) (λ x u. During p c u) (λ u. ⊥)
        (λ b u. During p c u × BegunBy (h.now u) b) (start_attempt h begin t) _
        (start_attempt-Ends begin t d) (λ s u (d', f). (d', BegunBy-to_begun (h.now u) s f))

  resume_by-Ends :
      (a : ℕ) (t : List Event) (k : Option Container) (r : Recovery)
      → claimed_attempt c ≡ some a
      → h.inspect_own t ≡ value k
      → Before p c (inspected_own ∷ t)
      → Ends
          (λ b u. During p c u × BegunBy (h.now u) b)
          (λ x u. During p c u)
          (λ u. ⊥)
          (resume_by h k r (inspected_own ∷ t))
  resume_by-Ends a t k start own e b = begun-Ends _ _ (started-Ends a (inspected_own ∷ t) own b)
  resume_by-Ends a t k wait own e (sound, claim, idle, unsent, due) = (
    (sound, claim, unsent, due),
    waited (read_started_at_ms h.date_parse k) (h.now (inspected_own ∷ t)) (in_time k t e),
  )
  resume_by-Ends a t k (save o code) own e (sound, claim, idle, unsent, due) =
      ((sound, claim, unsent, due), tt)
  resume_by-Ends a t k declare_unknown own e (sound, claim, idle, unsent, due) =
      ((sound, claim, unsent, due), tt)

  pub begin_attempt-Ends :
      (target : Target) (request : Request) (d : Decision) (name : String) (a : ℕ) (t : List Event)
      → c ≡ some (claim_of d a)
      → Before p c t
      → Ends
          (λ b u. During p c u × BegunBy (h.now u) b)
          (λ x u. During p c u)
          (λ u. ⊥)
          (begin_attempt h target request d name a t)
  unfolding begin_attempt
  begin_attempt-Ends target request runs name a t own b =
      begun-Ends (run_start h target request name a) t
        (run_start-Ends target request name a t own b)
  begin_attempt-Ends target request resumes name a t own (sound, claim, idle, unsent, due) =
      elim (Answer-cases (h.inspect_own t)) [
        | inr (x, e) ↦ rw e (sound, claim, unsent, due)
        | inl (k, e) ↦ rw e (
            resume_by-Ends a t k
              (decide_release_job_recovery h.date_parse (observe_container k)
                request.timeout_seconds)
              (rw own refl) e (sound, claim, idle, unsent, due))
      ]
