-- ===== src/Service/Update/Laws.antt =====
-- When an agent update restarts the agent.
use Prim.Native.Nat.{zero, suc}
use nouva_agent.Prelude.{
  trim, Option-cases, ◌∙◌, ℕ, ◌+◌, ◌-◌, ◌≤◌, ◌<◌, leb, ◌≡◌, refl, false, Option, none, some, List,
  [], ◌∷◌, any, ◌⊎◌, inl, inr, Bool-cases, arith, String,
}
use nouva_agent.Prelude.Effects.{ok, ended}
use nouva_agent.Work.Reporting.{Thrown, is_transient}
use nouva_agent.Service.Update.{
  Payload, to_update_agent_payload, resolve_update_agent_image_ref, Delivery, pending, unconfirmed,
  rejected, record_attempt, should_start_agent_updater, Event, slept, updater_started, Host, drain,
  start_agent_updater_after_drain, trimmed, filled,
}

-- What the completion report came to after the errors of its attempts, the first one first.
abbrev pub after_failures : Delivery → List Thrown → Delivery
after_failures current [] = current
after_failures current (x ∷ later) = after_failures (record_attempt current (some x)) later

unconfirmed_stays : (xs : List Thrown) → after_failures unconfirmed xs ≡ unconfirmed
unfolding record_attempt
unconfirmed_stays [] = refl
unconfirmed_stays (x ∷ xs) = unconfirmed_stays xs

rejected_until :
    (xs : List Thrown)
    → should_start_agent_updater (after_failures rejected xs) ≡ any is_transient xs
unfolding record_attempt
rejected_until [] = refl
rejected_until (x ∷ xs) = elim (Bool-cases (is_transient x)) [
  | inl t ↦ rw (t, unconfirmed_stays xs) refl
  | inr f ↦ rw (f, rejected_until xs) refl
]

-- After attempts that all failed, the updater starts exactly when one of the failures was transient,
-- so that it may have committed the completion: a later refusal does not take that back.
pub updater_starts_iff :
    (xs : List Thrown)
    → should_start_agent_updater (after_failures pending xs) ≡ any is_transient xs
unfolding record_attempt
updater_starts_iff [] = refl
updater_starts_iff (x ∷ xs) = elim (Bool-cases (is_transient x)) [
  | inl t ↦ rw (t, unconfirmed_stays xs) refl
  | inr f ↦ rw (f, rejected_until xs) refl
]

-- A wait takes at least as long as it was asked to.
pub record IsClock (h : Host) : Type 0 where
  pub waits : (ms : ℕ) (t : List Event) → h.now t + ms ≤ h.now (slept ms ∷ t)

-- Nothing but waits.
abbrev pub IsIdle : List Event → Type 0
IsIdle [] = Unit {0}
IsIdle (slept ms ∷ t) = IsIdle t
IsIdle (updater_started ∷ t) = ⊥

drain_ends :
    (h : Host) (poll fuel deadline : ℕ) (t : List Event)
    → IsClock h
    → 0 < poll
    → deadline - h.now t < fuel
    → IsIdle t
    → (u : List Event) × (drain h poll fuel deadline t ≡ (ok tt, u))
      × IsIdle u
      × ((h.is_work_active u ≡ false) ⊎ (deadline ≤ h.now u))
unfolding drain
drain_ends h poll zero deadline t c p enough idle = absurd (omega (arith, enough))
drain_ends h poll (suc fuel) deadline t c p enough idle = elim (Bool-cases (h.is_work_active t)) [
  | inr quiet ↦ (t, rw quiet refl, idle, inl quiet)
  | inl busy ↦ elim (Bool-cases (leb deadline (h.now t))) [
    | inl late ↦ (t, rw (busy, late) refl, idle, inr (ground arith))
    | inr early ↦
        let before : h.now t < deadline = ground arith in
        let (u, e, i, why) =
          drain_ends h poll fuel deadline (slept poll ∷ t) c p
            (omega (arith, c.waits poll t, before, enough, p)) idle in
        (u, rw (busy, early) e, i, why)
  ]
]

-- On a clock that a wait advances, the drain ends, and the updater starts exactly once, as the last
-- call and after nothing but waits: when no work is active, or when the drain's time is over.
pub updater_starts_last :
    (h : Host) (poll drain_timeout : ℕ)
    → IsClock h
    → 0 < poll
    → (u : List Event) × (start_agent_updater_after_drain h poll
          (drain_timeout + 1)
          drain_timeout
          []
        ≡ (ended (h.start_updater u), updater_started ∷ u))
      × IsIdle u
      × ((h.is_work_active u ≡ false) ⊎ (h.now [] + drain_timeout ≤ h.now u))
unfolding start_agent_updater_after_drain
updater_starts_last h poll drain_timeout c p =
    let (u, e, i, why) =
      drain_ends h poll (drain_timeout + 1) (h.now [] + drain_timeout) [] c p (omega arith) tt in
    (u, rw e refl, i, why)

trimmed-filled : (o : Option String) → trimmed (filled o) ≡ trimmed o
unfolding trim
trimmed-filled none = refl
trimmed-filled (some String.[]) = refl
trimmed-filled (some (String.◌∷◌ c s)) = refl

abbrev filled_payload : Payload → Payload
filled_payload p = record {
  release_id = filled p.release_id;
  version = filled p.version;
  image_ref = filled p.image_ref;
  image_tag = filled p.image_tag;
}

resolve-filled :
    (p : Payload)
    → resolve_update_agent_image_ref (filled_payload p) ≡ resolve_update_agent_image_ref p
unfolding resolve_update_agent_image_ref
resolve-filled p = rw (trimmed-filled p.image_ref, trimmed-filled p.image_tag) refl

accepted_filled : (p q : Payload) → to_update_agent_payload p ≡ some q → filled_payload p ≡ q
unfolding to_update_agent_payload
accepted_filled p q e = ground arith

accepted_has :
    (p q : Payload)
    → to_update_agent_payload p ≡ some q
    → (ref : String) × (resolve_update_agent_image_ref p ≡ some ref)
unfolding to_update_agent_payload resolve_update_agent_image_ref
accepted_has p q e = elim (Option-cases (trimmed p.image_ref)) [
  | inr (ref, r) ↦ (ref, rw r refl)
  | inl r ↦ elim (Option-cases (trimmed p.image_tag)) [
    | inr (tag, a) ↦ (tag, rw (r, a) refl)
    | inl a ↦ absurd (ground (arith, e, r, a))
  ]
]

-- A payload that is accepted names an image, the one that the raw payload resolves to: the updater
-- never fails for want of one.
pub accepted-resolves :
    (p q : Payload)
    → to_update_agent_payload p ≡ some q
    → (ref : String) × (resolve_update_agent_image_ref q ≡ some ref)
      × (resolve_update_agent_image_ref p ≡ some ref)
accepted-resolves p q e =
    let (ref, r) = accepted_has p q e in
    (ref, rw (← accepted_filled p q e) (resolve-filled p ∙ r), r)
