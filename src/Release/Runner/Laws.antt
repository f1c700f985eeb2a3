-- ===== src/Release/Runner/Laws.antt =====
-- The calls of the control plane: they end, and what a try and a wait keep holds at the end.
pub mod Calls
pub mod Attempts
pub mod Reports
pub mod Phases
pub mod Outages
use Prim.Native.Nat.{zero, suc}
use nouva_agent.Prelude.{
  ℕ, ◌≡◌, refl, ◌≤◌, ◌<◌, ◌+◌, ◌-◌, ◌*◌, leb, ltb, min, ◌||◌, not, Bool, true, false, List, [], ◌∷◌,
  arith, Bool-cases, inl, inr, if◌then◌else◌,
}
use nouva_agent.Prelude.Effects.{Act, Ends, or_catch-Ends}
use nouva_agent.Release.Outside.{Event, slept, Thrown, Host, IsClock}
use nouva_agent.Release.Runner.ControlPlane.{
  call_from, after_failure, is_retryable, call_control_plane, retry_budget_ms,
}

module _ (h : Host) (clock : IsClock h) {A : Type 0} (I : List Event → Type 0)
    (Q : A → List Event → Type 0) (R : Thrown → List Event → Type 0) (try_once : Act Event Thrown A)
    (give_up : Thrown → Bool → Thrown)
    (try-Ends : (t : List Event)
      → I t
      → Ends Q (λ x u. I u × (h.now t ≤ h.now u)) (λ u. ⊥) (try_once t))
    (wait-keeps : (ms : ℕ) (t : List Event) → I t → I (slept ms ∷ t))
    (given-up : (x : Thrown) (retried : Bool) (t : List Event)
      → I t
      → R (give_up x retried) t) where
  pub call_from-Ends :
      (fuel give_up_at delay : ℕ) (retried : Bool) (t : List Event)
      → I t
      → suc (give_up_at - h.now t) ≤ fuel
      → 1 ≤ delay
      → Ends Q R (λ u. ⊥) (call_from h fuel try_once give_up give_up_at delay retried t)
  unfolding call_from
  call_from-Ends zero give_up_at delay retried t i enough positive = ground arith
  call_from-Ends (suc fuel) give_up_at delay retried t i enough positive =
      or_catch-Ends Q (λ x u. I u × (h.now t ≤ h.now u)) R (λ u. ⊥) (try_once t) _ (try-Ends t i)
        (λ x u (j, later).
          elim (Bool-cases (not (is_retryable x) || ltb give_up_at (h.now u + delay))) [
            | inl over ↦ rw over (given-up x retried u j)
            | inr more ↦
                let slow = clock.waits delay u in
                rw more (
                  call_from-Ends fuel give_up_at (min (delay * 2) 30000) true (slept delay ∷ u)
                    (wait-keeps delay u j) (ground arith) (ground arith))
          ])

  pub call_control_plane-Ends :
      (fuel : ℕ) (t : List Event)
      → I t
      → 120000 < fuel
      → Ends Q R (λ u. ⊥) (call_control_plane h fuel try_once give_up t)
  unfolding call_control_plane
  call_control_plane-Ends fuel t i enough =
      call_from-Ends fuel (h.now t + 120000) 2000 false t i (ground arith) (ground arith)
