-- ===== src/Release/Jobs/Laws.antt =====
-- Which containers of release jobs are stopped and removed.
use nouva_agent.Prelude.{
  if◌then◌else◌, ◌≡◌, String, true, false, not, ◌||◌, List, [], ◌∷◌, arith, Bool-cases, inl, inr,
  filter_by,
}
use nouva_agent.Prelude.Effects.{Answer, Act, Result, and_then, Ends, and_then-Ends, Answer-cases}
use nouva_agent.Release.Outside.{
  Container, Event, listed, stopped, inspected, removed, Thrown, Host, is_running,
}
use nouva_agent.Release.Jobs.{
  list_with, is_swept, add_name, Target, past_deadline, is_concerned, settle, collect_running,
  read_running_jobs, remove_settled, remove_settled_attempts, remove_other_deployments_exited_jobs,
}

-- A look for running jobs removes no container, and stops one only while it runs, past its own
-- deadline.
abbrev pub IsLook : Host → List Event → Type 0
IsLook h [] = Unit {0}
IsLook h (stopped c ∷ t) =
    (is_running c ≡ true) × (past_deadline h.date_parse (h.now t) c ≡ true) × IsLook h t
IsLook h (removed c ∷ t) = ⊥
IsLook h (_ ∷ t) = IsLook h t

-- A sweep stops no container, and removes none that runs.
abbrev pub IsSweep : List Event → Type 0
IsSweep [] = Unit {0}
IsSweep (stopped c ∷ t) = ⊥
IsSweep (removed c ∷ t) = (is_running c ≡ false) × IsSweep t
IsSweep (_ ∷ t) = IsSweep t

-- What a look's listing, stop and inspection keep.
pub record KeepsLook (h : Host) (P : List Event → Type 0) : Type 0 where
  pub on_listed : (cs : List Container) (t : List Event) → P t → P (listed cs ∷ t)
  pub on_stopped :
      (c : Container) (t : List Event)
      → is_running c ≡ true
      → past_deadline h.date_parse (h.now t) c ≡ true
      → P t
      → P (stopped c ∷ t)
  pub on_inspected : (c : Container) (t : List Event) → P t → P (inspected c ∷ t)

-- What a sweep's listing and removal keep.
pub record KeepsSweep (P : List Event → Type 0) : Type 0 where
  pub on_listed : (cs : List Container) (t : List Event) → P t → P (listed cs ∷ t)
  pub on_removed : (c : Container) (t : List Event) → is_running c ≡ false → P t → P (removed c ∷ t)

-- A run that ends and keeps a property of the history, whether it returns or throws.
abbrev pub EndsKept : {A : Type 0} → (List Event → Type 0) → Result Thrown A × List Event → Type 0
EndsKept P r = Ends (λ a u. P u) (λ x u. P u) (λ u. ⊥) r

listed-Ends :
    {A : Type 0} (h : Host) (P : List Event → Type 0)
    (answer : List Event → Answer Thrown (List Container)) (f : List Container → Act Event Thrown A)
    (t : List Event)
    → P t
    → ((cs : List Container) → EndsKept P (f cs (listed cs ∷ t)))
    → EndsKept P (and_then (list_with h answer t) f)
listed-Ends h P answer f t v next = elim (Answer-cases (answer t)) [
  | inl (cs, e) ↦ rw e (next cs)
  | inr (x, e) ↦ rw e v
]

-- A look ends, and keeps whatever these three keep.
module _ (h : Host) (P : List Event → Type 0) (k : KeepsLook h P) where
  settle-Ends :
      (c : Container) (t : List Event) → is_running c ≡ true → P t → EndsKept P (settle h c t)
  unfolding settle
  settle-Ends c t runs v = elim (Bool-cases (past_deadline h.date_parse (h.now t) c)) [
    | inr early ↦ rw early v
    | inl late ↦
        let after : P (stopped c ∷ t) = k.on_stopped c t runs late v in
        elim (Answer-cases (h.stop t c.id)) [
          | inr (x, e) ↦ rw (late, e) after
          | inl (o, e) ↦ elim (Answer-cases (h.inspect (stopped c ∷ t) c.id)) [
            | inr (x, f) ↦ rw (late, e, f) (k.on_inspected c _ after)
            | inl (a, f) ↦ rw (late, e, f) (k.on_inspected c _ after)
          ]
        ]
  ]

  collect-Ends :
      (target : Target) (phase : String) (cs : List Container) (names : List String)
      (t : List Event)
      → P t
      → EndsKept P (collect_running h target phase cs names t)
  unfolding collect_running
  collect-Ends target phase [] names t v = v
  collect-Ends target phase (c ∷ cs) names t v =
      elim (Bool-cases (not (is_running c) || not (is_concerned target phase c))) [
        | inl skipped ↦ rw skipped (collect-Ends target phase cs names t v)
        | inr taken ↦ rw taken (
            and_then-Ends (λ a u. P u) (λ x u. P u) (λ u. ⊥) (λ a u. P u) (settle h c t)
              (λ runs.
                collect_running h target phase cs
                  (if runs then add_name c.deployment_id names else names))
              (settle-Ends c t (ground arith) v) (λ runs u w. collect-Ends target phase cs _ u w))
      ]

  pub read-Ends :
      (target : Target) (phase : String) (t : List Event)
      → P t
      → EndsKept P (read_running_jobs h target phase t)
  unfolding read_running_jobs
  read-Ends target phase t v =
      listed-Ends h P h.list_service_jobs (λ cs. collect_running h target phase cs []) t v
        (λ cs. collect-Ends target phase cs [] (listed cs ∷ t) (k.on_listed cs t v))

-- A sweep ends, and keeps whatever these two keep.
module _ (h : Host) (P : List Event → Type 0) (k : KeepsSweep P) where
  remove-Ends : (cs : List Container) (t : List Event) → P t → EndsKept P (remove_settled h cs t)
  unfolding remove_settled
  remove-Ends [] t v = v
  remove-Ends (c ∷ cs) t v = elim (Bool-cases (is_running c)) [
    | inl runs ↦ rw runs (remove-Ends cs t v)
    | inr settled ↦
        let after : P (removed c ∷ t) = k.on_removed c t settled v in
        elim (Answer-cases (h.remove t c.id)) [
          | inr (x, e) ↦ rw (settled, e) after
          | inl (o, e) ↦ rw (settled, e) (remove-Ends cs (removed c ∷ t) after)
        ]
  ]

  pub attempts-Ends : (t : List Event) → P t → EndsKept P (remove_settled_attempts h t)
  unfolding remove_settled_attempts
  attempts-Ends t v =
      listed-Ends h P h.list_attempts (remove_settled h) t v
        (λ cs. remove-Ends cs (listed cs ∷ t) (k.on_listed cs t v))

  pub others-Ends :
      (target : Target) (phase : String) (t : List Event)
      → P t
      → EndsKept P (remove_other_deployments_exited_jobs h target phase t)
  unfolding remove_other_deployments_exited_jobs
  others-Ends target phase t v =
      listed-Ends h P h.list_service_jobs
        (λ cs. remove_settled h (filter_by (is_swept h target phase) cs)) t v
        (λ cs.
          remove-Ends (filter_by (is_swept h target phase) cs) (listed cs ∷ t) (k.on_listed cs t v))

IsLook-Keeps : (h : Host) → KeepsLook h (IsLook h)
IsLook-Keeps h = record {
  on_listed = λ cs t v. v;
  on_stopped = λ c t runs late v. (runs, late, v);
  on_inspected = λ c t v. v;
}

IsSweep-Keeps : KeepsSweep IsSweep
IsSweep-Keeps = record { on_listed = λ cs t v. v; on_removed = λ c t settled v. (settled, v) }

-- Whatever Docker lists and answers, and also when it fails: a look for running jobs ends, stops a
-- container only while it was listed as running and is past its own deadline, and asks for the
-- removal of none. Each of the two sweeps ends, stops no container, and asks only for the removal of
-- containers that were not listed as running.
pub jobs_careful :
    (h : Host) (target : Target) (phase : String)
    → EndsKept (IsLook h) (read_running_jobs h target phase [])
      × EndsKept IsSweep (remove_settled_attempts h [])
      × EndsKept IsSweep (remove_other_deployments_exited_jobs h target phase [])
jobs_careful h target phase = (
  read-Ends h (IsLook h) (IsLook-Keeps h) target phase [] tt,
  attempts-Ends h IsSweep IsSweep-Keeps [] tt,
  others-Ends h IsSweep IsSweep-Keeps target phase [] tt,
)
