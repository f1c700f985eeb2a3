-- ===== src/Worker/Readiness/Laws.antt =====
-- When a worker counts as ready, and that the wait for it ends.
use Prim.Native.Nat.{zero, suc}
use nouva_agent.Prelude.{
  ℕ, refl, ◌≤◌, ◌<◌, ◌+◌, ◌-◌, ◌==◌, ltb, Option, none, some, List, [], ◌∷◌, inl, inr, arith,
  Bool-cases,
}
use nouva_agent.Prelude.Effects.{Result, and_then, Act, Ends, Answer-cases}
use nouva_agent.Worker.Readiness.{
  Seen, Thrown, Event, inspected, exits_counted, slept, Host, Input, Watch, watch_from, restarts_of,
  Verdict, ready, fails, goes_on, judge, set_baseline, follow, on_seen, wait_from,
  wait_for_worker_readiness, is_terminal_container_status, lower, first_watch,
}
use nouva_agent.Worker.Readiness.Steady.{
  Fits, Inv, IsReady, Since-none, Since-slept, judge-Fits, IsClock,
}

-- A wait that ends, ready or with an error.
abbrev pub EndsReady : Host → Input → Result Thrown (Unit {0}) × List Event → Type 0
EndsReady h i r = Ends (λ o u. IsReady h i i.has_healthcheck u) (λ x u. Unit {0}) (λ u. ⊥) r

module _ (h : Host) (clock : IsClock h) (i : Input) where
  -- How a loop goes on after a history that an inspection left.
  abbrev GoesOn : (Watch → Act Event Thrown (Unit {0})) → List Event → Type 0
  GoesOn again t =
      (w : Watch) (v : List Event)
      → h.now t ≤ h.now v
      → Inv h i w v
      → EndsReady h i (again w (slept i.interval_ms ∷ v))

  follow-Ends :
      (again : Watch → Act Event Thrown (Unit {0})) (t v : List Event) (x : Verdict)
      → h.now t ≤ h.now v
      → Fits h i v x
      → GoesOn again t
      → EndsReady h i (follow h i again x v)
  follow-Ends again t v ready on fits more = fits
  follow-Ends again t v (fails x) on fits more = tt
  follow-Ends again t v (goes_on w) on fits more = more w v on fits

  first_watch-Inv :
      (at : ℕ) (c : Seen) (w : Watch) (t u : List Event)
      → Inv h i w t
      → Inv h i (first_watch h i at c w u) t
  unfolding first_watch
  first_watch-Inv at c w t u inv = inv

  later_by : (s : ℕ) (t : List Event) → h.now (exits_counted ∷ t) ≤ s → h.now t ≤ s
  later_by s t early = let on = clock.onward exits_counted t in ground arith

  judged-Ends :
      (again : Watch → Act Event Thrown (Unit {0})) (at : ℕ) (c : Seen) (w : Watch) (o : Option ℕ)
      (t : List Event)
      → Inv h i w t
      → GoesOn again (inspected (some c) ∷ t)
      → EndsReady h i (
          and_then
            (set_baseline h i at c w o (inspected (some c) ∷ t))
            (λ set v. follow h i again (judge i (h.now v) c set.0 set.1) v))
  judged-Ends again at c w (some baseline) t inv more =
      follow-Ends again (inspected (some c) ∷ t) (inspected (some c) ∷ t) _ (ground arith)
        (judge-Fits h i c t (inspected (some c) ∷ t) refl (λ s started x. (started, x)) baseline w
          inv)
        more
  judged-Ends again at c w none t inv more =
      let seen = inspected (some c) ∷ t in
      let first : Inv h i (first_watch h i at c w seen) t = first_watch-Inv at c w t seen inv in
      elim (Bool-cases (restarts_of c == 0)) [
        | inl fresh ↦ rw fresh (
            follow-Ends again seen seen _ (ground arith)
              (judge-Fits h i c t seen refl (λ s started x. (started, x)) (restarts_of c)
                (first_watch h i at c w seen) first)
              more)
        | inr restarted ↦ rw restarted (
            follow-Ends again seen (exits_counted ∷ seen) _ (clock.onward exits_counted seen)
              (judge-Fits h i c t (exits_counted ∷ seen) refl
                (λ s started x. (
                  started,
                  elim x [ inl early ↦ inl (later_by s seen early) | inr kept ↦ inr kept ],
                ))
                (restarts_of c) (first_watch h i at c w seen) first)
              more)
      ]

  seen-Ends :
      (again : Watch → Act Event Thrown (Unit {0})) (at : ℕ) (w : Watch) (o : Option Seen)
      (t : List Event)
      → Inv h i w t
      → GoesOn again (inspected o ∷ t)
      → EndsReady h i (on_seen h i again at w o (inspected o ∷ t))
  seen-Ends again at w none t inv more = tt
  seen-Ends again at w (some c) t inv more =
      elim (Bool-cases (is_terminal_container_status (lower c.status))) [
        | inl over ↦ rw over tt
        | inr alive ↦ rw alive (judged-Ends again at c w w.restart_baseline t inv more)
      ]

  wait_from-Ends :
      (fuel deadline : ℕ) (w : Watch) (t : List Event)
      → 1 ≤ i.interval_ms
      → suc (suc deadline - h.now t) ≤ fuel
      → Inv h i w t
      → EndsReady h i (wait_from h i fuel deadline w t)
  unfolding wait_from
  wait_from-Ends zero deadline w t moves enough inv = ground arith
  wait_from-Ends (suc fuel) deadline w t moves enough inv =
      elim (Bool-cases (ltb deadline (h.now t))) [
        | inl over ↦ rw over tt
        | inr still ↦ elim (Answer-cases (h.inspect t)) [
          | inr (x, e) ↦ rw (still, e) tt
          | inl (c, e) ↦
              let on = clock.onward (inspected c) t in
              rw (still, e)
                (seen-Ends (wait_from h i fuel deadline) (h.now t) w c t inv (λ w' v later inv'.
                  let slow = clock.waits i.interval_ms v in
                  wait_from-Ends fuel deadline w' (slept i.interval_ms ∷ v) moves (ground arith) (
                    inv'.0,
                    Since-slept h i.has_healthcheck w'.running_since i.interval_ms v inv'.1,
                  )))
        ]
      ]

-- On a clock that never goes back, with a wait of at least a millisecond between two looks and more
-- fuel than the timeout has milliseconds: the wait for a worker ends. It returns only once the worker
-- is ready: with a health check, the last inspection showed a healthy process; without one, every
-- inspection for the whole grace period showed a process whose count of restarts never rose. Either
-- way the process runs and does not wait to be restarted.
pub wait-EndsReady :
    (h : Host) (i : Input) (fuel : ℕ)
    → IsClock h
    → 1 ≤ i.interval_ms
    → suc i.timeout_ms < fuel
    → EndsReady h i (wait_for_worker_readiness h i fuel [])
unfolding wait_for_worker_readiness
wait-EndsReady h i fuel clock moves enough =
    wait_from-Ends h clock i fuel (h.now [] + i.timeout_ms) (watch_from i) [] moves (ground arith)
      (refl, Since-none h i.has_healthcheck)
