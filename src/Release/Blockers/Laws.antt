-- ===== src/Release/Blockers/Laws.antt =====
-- Which blocker an operator is shown.
use nouva_agent.Prelude.{
  inl, inr, ◌≡◌, ℕ, ◌≤◌, true, false, List, [], ◌∷◌, some, arith, All, ◌+◌, Option-cases, find,
  All-zip, find-none, find-some, All-map,
}
use mathlib.Core.List.{Memᴰ}
use nouva_agent.Release.Blockers.{
  Blocker, BlockReason, outcome_unknown, own_attempt_running, container_running, running,
  select_release_job_blocker, select_from, same_reason,
}

-- How soon an operator has to act: the smaller, the sooner.
abbrev pub urgency : BlockReason → ℕ
urgency outcome_unknown = 0
urgency own_attempt_running = 1
urgency container_running = 2
urgency running = 3

-- The first blocker that no other is more urgent than.
abbrev pub IsFirstMostUrgent : Blocker → List Blocker → Type 0
IsFirstMostUrgent b bs = Memᴰ b bs × All (λ c. urgency b.reason ≤ urgency c.reason) bs

same_reason-urgency : (x r : BlockReason) → same_reason x r ≡ true → urgency x ≡ urgency r
same_reason-urgency x r e = ground arith

same_reason-next :
    (x r : BlockReason)
    → urgency r ≤ urgency x
    → same_reason x r ≡ false
    → urgency r + 1 ≤ urgency x
same_reason-next x r h e = ground arith

-- One round of the loop: a blocker for this reason is the answer, and else the rest is searched
-- among blockers that are all less urgent.
select_round :
    (r : BlockReason) (order : List BlockReason) (bs : List Blocker) (b : Blocker)
    → All (λ c. urgency r ≤ urgency c.reason) bs
    → (All (λ c. urgency r + 1 ≤ urgency c.reason) bs
        → select_from order bs ≡ some b
        → IsFirstMostUrgent b bs)
    → select_from (r ∷ order) bs ≡ some b
    → IsFirstMostUrgent b bs
unfolding select_from
select_round r order bs b low rest e = elim (Option-cases (find (λ c. same_reason c.reason r) bs)) [
  | inl missed ↦
      rest
        (All-zip _ _ _ bs (λ c h k. same_reason-next c.reason r h k) low
          (find-none (λ c. same_reason c.reason r) bs missed))
        (rw missed at e)
  | inr (c, found) ↦
      let same : c ≡ b = ground arith in
      let (m, t) = find-some (λ d. same_reason d.reason r) bs c found in
      rw (← same) (m, All-map _ _ bs (λ d h. omega (arith, same_reason-urgency c.reason r t)) low)
]

All-zero : (bs : List Blocker) → All (λ c. 0 ≤ urgency c.reason) bs
All-zero [] = tt
All-zero (b ∷ bs) = (omega arith, All-zero bs)

-- The selected blocker is one of those given, and none of them is more urgent.
pub select-most_urgent :
    (bs : List Blocker) (b : Blocker)
    → select_release_job_blocker bs ≡ some b
    → IsFirstMostUrgent b bs
unfolding select_release_job_blocker
select-most_urgent bs b =
    select_round outcome_unknown (own_attempt_running ∷ container_running ∷ running ∷ []) bs b
      (All-zero bs)
      λ l1. select_round own_attempt_running (container_running ∷ running ∷ []) bs b l1 λ l2.
        select_round container_running (running ∷ []) bs b l2
          λ l3. select_round running [] bs b l3 λ l4 e. cc
