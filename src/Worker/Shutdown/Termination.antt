-- ===== src/Worker/Shutdown/Termination.antt =====
-- A graceful stop ends, and its report is what the history shows.
use Prim.Native.Nat.{zero, suc}
use nouva_agent.Prelude.{
  ◌==◌, ℕ, ◌+◌, ◌-◌, ◌*◌, ◌≤◌, ◌<◌, leb, min, String, ◌≡◌, refl, Bool, true, false, Option, none,
  some, List, [], ◌∷◌, inl, inr, Bool-cases, arith, leb→le, ap,
}
use nouva_agent.Prelude.Effects.{Ends, and_then-Ends, Act, Answer-cases, Ends-weaken, and_then}
use nouva_agent.Worker.Policy.{StopOutcome, exited, forced, already_stopped, hung, unconfirmed}
use nouva_agent.Worker.Shutdown.{
  Event, inspected, restart_policy_off, killed, waited, Host, Report, wait_until_stopped,
  read_running_state, force_stop, stop_running, stop_worker_container_gracefully, kill_confirm_ms,
  RunningState, Thrown, poll_after, state_of, poll_interval_ms, after_force, after_grace,
  after_update, absent_is_gone,
}

-- The clock never goes back, and a wait takes at least as long as it was asked to.
pub record IsClock (h : Host) : Type 0 where
  pub onward : (e : Event) (t : List Event) → h.now t ≤ h.now (e ∷ t)
  pub waits : (ms : ℕ) (t : List Event) → h.now t + ms ≤ h.now (waited ms ∷ t)

-- The last inspection, with nothing after it, showed the container so.
abbrev pub LastSeen : Bool → List Event → Type 0
LastSeen b (inspected c ∷ t) = c ≡ b
LastSeen b _ = ⊥

-- The signals sent, newest first.
abbrev pub kills : List Event → List String
kills [] = []
kills (killed s ∷ t) = s ∷ kills t
kills (_ ∷ t) = kills t

-- Whether Docker answered that the restart policy is off.
abbrev pub has_off : List Event → Bool
has_off [] = false
has_off (restart_policy_off true ∷ t) = true
has_off (_ ∷ t) = has_off t

-- Docker answered that the restart policy is off before any signal.
abbrev pub IsGuarded : List Event → Type 0
IsGuarded [] = Unit {0}
IsGuarded (killed s ∷ t) = (has_off t ≡ true) × IsGuarded t
IsGuarded (_ ∷ t) = IsGuarded t

-- What a wait that began at time `from` says of its deadline.
abbrev WaitDone : Host → ℕ → ℕ → Option (Option ℕ) → List Event → Type 0
WaitDone h from deadline none u = LastSeen true u × (deadline ≤ h.now u) × (from ≤ h.now u)
WaitDone h from deadline (some code) u = LastSeen false u × (from ≤ h.now u)

module _ (h : Host) (c : IsClock h) (P : List Event → Type 0)
    (on_inspect : (b : Bool) (t : List Event) → P t → P (inspected b ∷ t))
    (on_wait : (ms : ℕ) (t : List Event) → P t → P (waited ms ∷ t)) where
  poll-Ends :
      (fuel deadline from : ℕ) (t : List Event) (again : Act Event Thrown (Option (Option ℕ)))
      (s : RunningState)
      → deadline - h.now t < suc fuel
      → from ≤ h.now t
      → P t
      → ((ms : ℕ)
          → let u = waited ms ∷ inspected true ∷ t in
            deadline - h.now u < fuel
            → from ≤ h.now u
            → P u
            → Ends (λ r v. WaitDone h from deadline r v × P v) (λ x v. P v) (λ v. ⊥) (again u))
      → Ends
          (λ r v. WaitDone h from deadline r v × P v)
          (λ x v. P v)
          (λ v. ⊥)
          (poll_after h deadline again s (inspected s.running ∷ t))
  unfolding poll_after
  poll-Ends fuel deadline from t again s enough since p next = elim (Bool-cases s.running) [
    | inr down ↦ rw down ((refl, omega (arith, c.onward (inspected false) t)), on_inspect false t p)
    | inl up ↦ elim (Bool-cases (leb deadline (h.now (inspected true ∷ t)))) [
      | inl late ↦
          rw (up, late)
            (
              (refl, leb→le _ _ late, omega (arith, c.onward (inspected true) t)),
              on_inspect true t p,
            )
      | inr early ↦
          let now = h.now (inspected true ∷ t) in
          let ms = min poll_interval_ms (deadline - now) in
          let soon : now < deadline = ground arith in
          rw (up, early)
            (next ms (omega (arith, c.waits ms (inspected true ∷ t), c.onward (inspected true) t))
              (omega (arith, c.waits ms (inspected true ∷ t), c.onward (inspected true) t))
              (on_wait ms _ (on_inspect true t p)))
    ]
  ]

  -- With fuel for every millisecond that is left the loop ends; it sends no signal.
  wait-Ends :
      (fuel deadline from : ℕ) (t : List Event)
      → deadline - h.now t < fuel
      → from ≤ h.now t
      → P t
      → Ends
          (λ r u. WaitDone h from deadline r u × P u)
          (λ x u. P u)
          (λ u. ⊥)
          (wait_until_stopped h fuel deadline t)
  unfolding wait_until_stopped read_running_state
  wait-Ends zero deadline from t enough since p = absurd (omega arith)
  wait-Ends (suc fuel) deadline from t enough since p = elim (Answer-cases (h.inspect t)) [
    | inr (x, e) ↦ rw e p
    | inl (o, e) ↦ rw e (
        poll-Ends fuel deadline from t (wait_until_stopped h fuel deadline) (state_of o) enough
          since p λ ms. wait-Ends fuel deadline from (waited ms ∷ inspected true ∷ t))
  ]

-- What the report of each outcome shows in the history, and how long the stop took.
abbrev pub Shown : StopOutcome → ℕ → String → ℕ → List Event → Type 0
Shown exited grace signal elapsed u = LastSeen false u × (kills u ≡ signal ∷ [])
Shown forced grace signal elapsed u =
    LastSeen false u × (kills u ≡ "SIGKILL" ∷ signal ∷ []) × (grace * 1000 ≤ elapsed)
Shown hung grace signal elapsed u =
    LastSeen true u
    × (kills u ≡ "SIGKILL" ∷ signal ∷ [])
    × (grace * 1000 + kill_confirm_ms ≤ elapsed)
Shown already_stopped grace signal elapsed u = kills u ≡ []
Shown unconfirmed grace signal elapsed u = ⊥

abbrev Sent : List String → List Event → Type 0
Sent signals u = (kills u ≡ signals) × (has_off u ≡ true) × IsGuarded u

abbrev pub IsShown : Report → List Event → Type 0
IsShown r u = Shown r.outcome r.grace_seconds r.signal r.elapsed_ms u × IsGuarded u

module _ (h : Host) (c : IsClock h) (fuel grace : ℕ)
    (enough : grace * 1000 + kill_confirm_ms < fuel) (signal : String) where
  -- A wait, and then what is done with its result.
  wait_then-Ends :
      (signals : List String) (deadline from : ℕ) (t : List Event)
      (next : Option (Option ℕ) → Act Event Thrown Report)
      → deadline - h.now t < fuel
      → from ≤ h.now t
      → Sent signals t
      → ((stopped : Option (Option ℕ)) (u : List Event)
          → WaitDone h from deadline stopped u × Sent signals u
          → Ends IsShown (λ x v. IsGuarded v) (λ v. ⊥) (next stopped u))
      → Ends IsShown
          (λ x v. IsGuarded v)
          (λ v. ⊥)
          (and_then (wait_until_stopped h fuel deadline t) next)
  wait_then-Ends signals deadline from t next soon since sent =
      and_then-Ends (λ r u. WaitDone h from deadline r u × Sent signals u) (λ x u. IsGuarded u)
        (λ u. ⊥) IsShown (wait_until_stopped h fuel deadline t) next
        (Ends-weaken {E = Event} {X = Thrown} {A = Option (Option ℕ)}
          (λ r u. WaitDone h from deadline r u × Sent signals u)
          (λ r u. WaitDone h from deadline r u × Sent signals u) (λ x u. Sent signals u)
          (λ x u. IsGuarded u) (λ u. ⊥) (wait_until_stopped h fuel deadline t) (λ r u w. w)
          (λ x u w. w.2)
          (wait-Ends h c (Sent signals) (λ b v p. p) (λ ms v p. p) fuel deadline from t soon since
            sent))

  after_force-Ends :
      (since : ℕ) (stopped : Option (Option ℕ)) (u : List Event)
      → h.now [] + grace * 1000 ≤ since
      → WaitDone h since (since + kill_confirm_ms) stopped u × Sent ("SIGKILL" ∷ signal ∷ []) u
      → Ends IsShown (λ x v. IsGuarded v) (λ v. ⊥) (after_force h (h.now []) signal grace stopped u)
  after_force-Ends since none u late ((up, past, on), (sent, off, guarded)) =
      ((up, sent, omega arith), guarded)
  after_force-Ends since (some code) u late ((down, on), (sent, off, guarded)) =
      ((down, sent, omega arith), guarded)

  force-Ends :
      (t : List Event)
      → h.now [] + grace * 1000 ≤ h.now t
      → Sent (signal ∷ []) t
      → Ends IsShown (λ x u. IsGuarded u) (λ u. ⊥) (force_stop h fuel (h.now []) signal grace t)
  unfolding force_stop
  force-Ends t late (sent, off, guarded) = elim (Answer-cases (h.kill t "SIGKILL")) [
    | inr (x, e) ↦ rw e (off, guarded)
    | inl (o, e) ↦
        let since = h.now (killed "SIGKILL" ∷ t) in
        rw e (
          wait_then-Ends ("SIGKILL" ∷ signal ∷ []) (since + kill_confirm_ms) since
            (killed "SIGKILL" ∷ t) (after_force h (h.now []) signal grace) (omega arith)
            (omega arith) (ap (λ ks. "SIGKILL" ∷ ks) sent, off, (off, guarded))
            (λ stopped u w.
              after_force-Ends since stopped u (omega (arith, c.onward (killed "SIGKILL") t)) w))
  ]

  after_grace-Ends :
      (stopped : Option (Option ℕ)) (u : List Event)
      → WaitDone h (h.now []) (h.now [] + grace * 1000) stopped u × Sent (signal ∷ []) u
      → Ends IsShown
          (λ x v. IsGuarded v)
          (λ v. ⊥)
          (after_grace h fuel (h.now []) signal grace stopped u)
  after_grace-Ends none u ((up, past, on), sent) = force-Ends u past sent
  after_grace-Ends (some code) u ((down, on), (sent, off, guarded)) = ((down, sent), guarded)

  -- A container that is gone at the update is reported as stopped; any other failure is thrown.
  absent-Ends :
      (x : Thrown) (t : List Event)
      → kills t ≡ []
      → IsGuarded t
      → Ends IsShown
          (λ y v. IsGuarded v)
          (λ v. ⊥)
          (and_then (absent_is_gone h x t) (after_update h fuel (h.now []) signal grace))
  absent-Ends Thrown.other t quiet guarded = guarded
  absent-Ends (Thrown.docker_error status) t quiet guarded = elim (Bool-cases (status == 404)) [
    | inl gone ↦ rw gone (quiet, guarded)
    | inr failed ↦ rw failed guarded
  ]

  there-Ends :
      (t : List Event)
      → kills t ≡ []
      → has_off t ≡ true
      → IsGuarded t
      → h.now [] ≤ h.now t
      → Ends IsShown
          (λ x v. IsGuarded v)
          (λ v. ⊥)
          (after_update h fuel (h.now []) signal grace true t)
  there-Ends t quiet off guarded since = elim (Answer-cases (h.kill t signal)) [
    | inr (x, e) ↦ rw e (off, guarded)
    | inl (o, e) ↦ rw e (
        wait_then-Ends (signal ∷ []) (h.now [] + grace * 1000) (h.now []) (killed signal ∷ t)
          (after_grace h fuel (h.now []) signal grace) (omega (arith, c.onward (killed signal) t))
          (omega (arith, c.onward (killed signal) t))
          (ap (λ ks. signal ∷ ks) quiet, off, (off, guarded)) after_grace-Ends)
  ]

  run-Ends :
      (t : List Event)
      → kills t ≡ []
      → IsGuarded t
      → h.now [] ≤ h.now t
      → Ends IsShown (λ x u. IsGuarded u) (λ u. ⊥) (stop_running h fuel (h.now []) signal grace t)
  unfolding stop_running
  run-Ends t quiet guarded since = elim (Answer-cases (h.update t)) [
    | inr (x, e) ↦ rw e (absent-Ends x (restart_policy_off false ∷ t) quiet guarded)
    | inl (o, e) ↦ rw e (
        there-Ends (restart_policy_off true ∷ t) quiet refl guarded
          (omega (arith, c.onward (restart_policy_off true) t)))
  ]

-- Whatever Docker answers, with a clock that does not go back and fuel for each millisecond of the
-- grace period and of the kill's confirmation, a stop ends. Docker has answered that the restart
-- policy is off before any signal is sent, also where the stop throws. Of its report: an exit was seen after one signal; a
-- forced stop was seen after that signal and SIGKILL, no sooner than the grace period; a hung
-- container was still seen running after both, no sooner than the grace period and the
-- confirmation; and a container that was already stopped got no signal.
pub stop_graceful :
    (h : Host) (fuel grace : ℕ) (policy_signal : Option String)
    → IsClock h
    → grace * 1000 + kill_confirm_ms < fuel
    → Ends IsShown
        (λ x u. IsGuarded u)
        (λ u. ⊥)
        (stop_worker_container_gracefully h fuel policy_signal grace [])
unfolding stop_worker_container_gracefully read_running_state
stop_graceful h fuel grace policy_signal c enough = elim (Answer-cases (h.inspect [])) [
  | inr (x, e) ↦ rw e tt
  | inl (o, e) ↦ elim (Bool-cases (state_of o).running) [
    | inr down ↦ rw (e, down) (refl, tt)
    | inl up ↦
        rw (e, up)
          (run-Ends h c fuel grace enough _ (inspected true ∷ []) refl tt
            (c.onward (inspected true) []))
  ]
]
