-- ===== src/Work/Reporting/Laws.antt =====
-- What happens to a lease and to the reports of leased work.
use nouva_agent.Prelude.{
  ◌*◌, ◌-◌, ◌^◌, ℕ, ◌+◌, ◌≤◌, ◌≡◌, refl, Bool, true, false, Option, none, some, List, [], ◌∷◌,
  arith, suc, zero, inl, inr, Bool-cases, ◌∙◌, ap,
}
use nouva_agent.Prelude.Effects.{
  Answer-cases, Ends, and_then-Ends, ended, ok, stuck, threw, Ends-weaken, Result, and_then,
  or_catch, pure, call,
}
use nouva_agent.Work.Reporting.{
  Report, complete, fail, WorkOutcome, Thrown, api, other, Event, prepared, lease_stopped, sent,
  slept, asked_rejection, Host, Delivery, send_from, after_delivery, work_body,
  execute_and_report_agent_work, is_complete, List, ℕ, suc, is_retried, flag_after, rethrow,
  is_rejected, is_422, report_outcome, released, terminal,
}

module _ {R : Type 0} where
  -- How often a report was tried, and how often a rejection was asked for.
  abbrev pub tries : List (Event R) → ℕ
  tries [] = 0
  tries (sent r e ∷ t) = suc (tries t)
  tries (_ ∷ t) = tries t

  abbrev pub stops : List (Event R) → ℕ
  stops [] = 0
  stops (lease_stopped ∷ t) = suc (stops t)
  stops (_ ∷ t) = stops t

  -- A rejection is asked for only when the one and only try of a completed report was refused with
  -- 422.
  abbrev pub AsksSoundly : List (Event R) → Type 0
  AsksSoundly [] = Unit {0}
  AsksSoundly (asked_rejection ∷ t) =
      ((r : R) × (t ≡ sent (complete r) (some (api 422)) ∷ prepared ∷ []))
  AsksSoundly (_ ∷ t) = AsksSoundly t

  -- What the tries of a report leave behind, from the history `t` and the flag before them.
  record Tried (left : ℕ) (report : Report R) (flag : Bool) (t : List (Event R)) (d : Delivery)
      (u : List (Event R)) : Type 0 where
    few : tries u ≤ tries t + left + 1
    unstopped : stops u ≡ stops t
    sound : AsksSoundly u
    kept : flag ≡ true → d.may_be_committed ≡ true
    single : is_complete report ≡ true → d.may_be_committed ≡ false → u ≡ sent report d.error ∷ t

  last_try :
      (left : ℕ) (report : Report R) (flag : Bool) (t : List (Event R)) (e : Option Thrown)
      → AsksSoundly t
      → Tried left report flag t
          (record { may_be_committed = flag_after report flag e; error = e })
          (sent report e ∷ t)
  last_try left report flag t none sound = record {
    few = omega arith;
    unstopped = refl;
    sound = sound;
    kept = λ f. f;
    single = λ c f. refl;
  }
  last_try left report flag t (some x) sound = record {
    few = omega arith;
    unstopped = refl;
    sound = sound;
    kept = λ f. ground arith;
    single = λ c f. refl;
  }

  earlier_try :
      (left : ℕ) (report : Report R) (flag : Bool) (t : List (Event R)) (e : Option Thrown) (ms : ℕ)
      (d : Delivery) (u : List (Event R))
      → is_retried e ≡ true
      → Tried left report (flag_after report flag e) (slept ms ∷ sent report e ∷ t) d u
      → Tried (suc left) report flag t d u
  earlier_try left report flag t none ms d u retried v = absurd (cc)
  earlier_try left report flag t (some x) ms d u retried v = record {
    few = omega (arith, v.few);
    unstopped = v.unstopped;
    sound = v.sound;
    kept = λ f. v.kept (ground arith);
    single = λ c f. let committed = v.kept (ground arith) in absurd (cc);
  }

module _ {R : Type 0} (h : Host R) where
  send-Ends :
      (left : ℕ) (report : Report R) (flag : Bool) (t : List (Event R))
      → AsksSoundly t
      → Ends (Tried left report flag t) (λ x u. ⊥) (λ u. ⊥) (send_from h left report flag t)
  unfolding send_from
  send-Ends zero report flag t sound = last_try zero report flag t (h.send t report) sound
  send-Ends (suc left) report flag t sound = elim (Bool-cases (is_retried (h.send t report))) [
    | inr over ↦ rw over (last_try (suc left) report flag t (h.send t report) sound)
    | inl retried ↦ rw retried (
        Ends-weaken {E = Event R} {X = Thrown} {A = Delivery} _ (Tried (suc left) report flag t)
          (λ x u. ⊥) (λ x u. ⊥) (λ u. ⊥)
          (send_from h left report (flag_after report flag (h.send t report))
            (slept (1000 * 2 ^ (2 - left)) ∷ sent report (h.send t report) ∷ t))
          (λ d u v. earlier_try left report flag t (h.send t report) _ d u retried v) (λ x u v. v)
          (send-Ends left report (flag_after report flag (h.send t report))
            (slept (1000 * 2 ^ (2 - left)) ∷ sent report (h.send t report) ∷ t) sound))
  ]

  -- Of the work before its lease stops: no stop, at most eight tries, and rejections asked soundly.
  record Body (u : List (Event R)) : Type 0 where
    unstopped : stops u ≡ 0
    few : tries u ≤ 8
    sound : AsksSoundly u

  rejected_sound :
      (report : Report R) (d : Delivery) (u : List (Event R))
      → is_rejected report d ≡ true
      → Tried 3 report false (prepared ∷ []) d u
      → (r : R) × (u ≡ sent (complete r) (some (api 422)) ∷ prepared ∷ [])
  rejected_sound (fail r m) d u rejected v = absurd (ground arith)
  rejected_sound (complete r) d u rejected v =
      let refused : d.error ≡ some (api 422) = error_422 d.error (ground arith) in
      (r, v.single refl (ground arith) ∙ ap (λ e. sent (complete r) e ∷ prepared ∷ []) refused)
    where
      error_422 : (e : Option Thrown) → is_422 e ≡ true → e ≡ some (api 422)
      error_422 none q = cc
      error_422 (some other) q = cc
      error_422 (some (api status)) q = ground arith

  rethrow-Ends :
      (e : Option Thrown) (u : List (Event R))
      → Body u
      → Ends (λ a v. Body v) (λ x v. Body v) (λ v. ⊥) (rethrow e u)
  rethrow-Ends none u b = b
  rethrow-Ends (some x) u b = b

  after-Ends :
      (report : Report R) (d : Delivery) (t : List (Event R))
      → Tried 3 report false (prepared ∷ []) d t
      → Ends (λ a v. Body v) (λ x v. Body v) (λ v. ⊥) (after_delivery h report d t)
  unfolding after_delivery
  after-Ends report d t v = elim (Bool-cases (is_rejected report d)) [
    | inr kept ↦
        rw kept (record { unstopped = v.unstopped; few = omega (arith, v.few); sound = v.sound })
    | inl refused ↦
        let asked : AsksSoundly (asked_rejection ∷ t) = rejected_sound report d t refused v in
        elim (Answer-cases (h.reject_result t)) [
          | inr (x, e) ↦
              rw (refused, e)
                (record { unstopped = v.unstopped; few = omega (arith, v.few); sound = asked })
          | inl (second, e) ↦
              rw (refused, e)
                (and_then-Ends (Tried 3 second d.may_be_committed (asked_rejection ∷ t))
                  (λ x u. Body u) (λ u. ⊥) (λ a u. Body u)
                  (send_from h 3 second d.may_be_committed (asked_rejection ∷ t))
                  (λ last. rethrow last.error)
                  (Ends-weaken {E = Event R} {X = Thrown} {A = Delivery}
                    (Tried 3 second d.may_be_committed (asked_rejection ∷ t))
                    (Tried 3 second d.may_be_committed (asked_rejection ∷ t)) (λ x u. ⊥)
                    (λ x u. Body u) (λ u. ⊥)
                    (send_from h 3 second d.may_be_committed (asked_rejection ∷ t)) (λ a u w. w)
                    (λ x u w. absurd w)
                    (send-Ends 3 second d.may_be_committed (asked_rejection ∷ t) asked))
                  (λ last u w. rethrow-Ends last.error u (record {
                    unstopped = w.unstopped ∙ v.unstopped;
                    few = omega (arith, w.few, v.few);
                    sound = w.sound;
                  })))
        ]
  ]

  Body-Ends : Ends (λ a v. Body v) (λ x v. Body v) (λ v. ⊥) (work_body h [])
  unfolding work_body
  Body-Ends = elim (Answer-cases (h.prepare [])) [
    | inr (x, e) ↦ rw e (record { unstopped = refl; few = omega arith; sound = tt })
    | inl (o, e) ↦ rw e (outcome o)
  ]
    where
      outcome :
          (o : WorkOutcome R)
          → Ends (λ a v. Body v) (λ x v. Body v) (λ v. ⊥) (report_outcome h o (prepared ∷ []))
      outcome (released reason) = record { unstopped = refl; few = omega arith; sound = tt }
      outcome (terminal report) =
          and_then-Ends (Tried 3 report false (prepared ∷ [])) (λ x u. Body u) (λ u. ⊥)
            (λ a u. Body u) (send_from h 3 report false (prepared ∷ [])) (after_delivery h report)
            (Ends-weaken {E = Event R} {X = Thrown} {A = Delivery}
              (Tried 3 report false (prepared ∷ [])) (Tried 3 report false (prepared ∷ []))
              (λ x u. ⊥) (λ x u. Body u) (λ u. ⊥) (send_from h 3 report false (prepared ∷ []))
              (λ a u w. w) (λ x u w. absurd w) (send-Ends 3 report false (prepared ∷ []) tt))
            (λ d u v. after-Ends report d u v)

  finish :
      (r : Result Thrown (Unit {0}) × List (Event R))
      → Ends (λ a v. Body v) (λ x v. Body v) (λ v. ⊥) r
      → (u : List (Event R)) × (and_then
            (or_catch r (λ x. pure tt))
            (λ _. call lease_stopped h.stop_lease)
          ≡ (ended (h.stop_lease u), lease_stopped ∷ u))
        × Body u
  finish (ok a, u) b = (u, refl, b)
  finish (threw x, u) b = (u, refl, b)
  finish (stuck, u) b = absurd b

-- Whatever the preparation, the control plane and the lease answer, the run ends, and stopping the
-- lease is its last call and happens once. Before it there are at most eight tries of reports, and a
-- rejection is asked for only where the history is the preparation and one try of a completed
-- report that was refused with 422: never after a try that may have committed the completion.
pub lease_stops_last :
    {R : Type 0} (h : Host R)
    → (u : List (Event R)) × (execute_and_report_agent_work h []
        ≡ (ended (h.stop_lease u), lease_stopped ∷ u))
      × (stops u ≡ 0)
      × (tries u ≤ 8)
      × AsksSoundly u
unfolding execute_and_report_agent_work
lease_stops_last h =
    let (u, e, b) = finish h (work_body h []) (Body-Ends h) in (u, e, b.unstopped, b.few, b.sound)
