-- ===== src/Worker/Readiness/Steady.antt =====
-- What the loop knows of a worker after each look.
use nouva_agent.Prelude.{
  ℕ, ◌≡◌, refl, subst, ◌≤◌, ◌+◌, leb, Bool, true, false, ◌&&◌, Option, none, some, List, [], ◌∷◌,
  ◌⊎◌, inl, inr, arith, Bool-cases, if◌then◌else◌, get_or_else, String, ap, eq_iff,
}
use nouva_agent.Worker.Readiness.{
  Seen, Event, inspected, slept, Host, Input, Watch, restarts_of, is_started, has_health, is_more,
  Verdict, ready, fails, goes_on, judge_grace, judge_running, judge, counted_restarts,
  crash_looping, unhealthy, is_text, lower, is_true,
}

-- The clock never goes back, and a wait takes at least as long as it was asked to.
pub record IsClock (h : Host) : Type 0 where
  pub onward : (e : Event) (t : List Event) → h.now t ≤ h.now (e ∷ t)
  pub waits : (ms : ℕ) (t : List Event) → h.now t + ms ≤ h.now (slept ms ∷ t)

-- What the last inspection showed.
abbrev pub last_seen : List Event → Option Seen
last_seen [] = none
last_seen (inspected c ∷ t) = c
last_seen (_ ∷ t) = last_seen t

abbrev pub count_of : Option Seen → Option ℕ
count_of none = none
count_of (some c) = some (restarts_of c)

-- A process runs, and Docker does not wait to restart it.
abbrev pub IsUp : Seen → Type 0
IsUp c = (c.running ≡ some true) × ¬ (lower c.status ≡ some "restarting")

abbrev pub NoneMore : ℕ → Option ℕ → Type 0
NoneMore count none = Unit {0}
NoneMore count (some earlier) = count ≤ earlier

-- All inspections since one that was answered at the time `s` or before showed a process that is up, and
-- none of them a higher count of restarts than the one before it.
abbrev pub RunsSince : Host → ℕ → List Event → Type 0
RunsSince h s [] = ⊥
RunsSince h s (inspected none ∷ t) = ⊥
RunsSince h s (inspected (some c) ∷ t) =
    IsUp c
    × ((h.now (inspected (some c) ∷ t) ≤ s)
        ⊎ (RunsSince h s t × NoneMore (restarts_of c) (count_of (last_seen t))))
RunsSince h s (_ ∷ t) = RunsSince h s t

-- With a health check, the last inspection showed a healthy process that is up; without one, the process
-- has run for the whole grace period.
abbrev pub IsReady : Host → Input → Bool → List Event → Type 0
IsReady h i true t =
    (c : Seen) × (last_seen t ≡ some c) × (lower c.health ≡ some "healthy") × IsUp c
IsReady h i false t = (s : ℕ) × RunsSince h s t × (s + i.running_grace_ms ≤ h.now t)

-- With a health check, no start is watched.
abbrev pub Since : Host → Bool → Option ℕ → List Event → Type 0
Since h true o t = o ≡ none
Since h false none t = Unit {0}
Since h false (some s) t = RunsSince h s t

abbrev pub Inv : Host → Input → Watch → List Event → Type 0
Inv h i w t =
    (w.observed_restart_count ≡ count_of (last_seen t))
    × Since h i.has_healthcheck w.running_since t

abbrev pub Fits : Host → Input → List Event → Verdict → Type 0
Fits h i t ready = IsReady h i i.has_healthcheck t
Fits h i t (fails x) = Unit {0}
Fits h i t (goes_on w) = Inv h i w t

Since-checked :
    (h : Host) (b : Bool) (o : Option ℕ) (t : List Event) → b ≡ true → Since h b o t → o ≡ none
Since-checked h true o t e since = since
Since-checked h false o t e since = ground arith

Since-kept :
    (h : Host) (b : Bool) (o : Option ℕ) (s : ℕ) (t : List Event)
    → b ≡ false
    → o ≡ some s
    → Since h b o t
    → RunsSince h s t
Since-kept h true o s t e f since = ground arith
Since-kept h false none s t e f since = ground arith
Since-kept h false (some r) s t e f since =
    let same : r ≡ s = cc in subst (λ m. RunsSince h m t) same since

pub Since-slept :
    (h : Host) (b : Bool) (o : Option ℕ) (ms : ℕ) (t : List Event)
    → Since h b o t
    → Since h b o (slept ms ∷ t)
Since-slept h true o ms t since = since
Since-slept h false none ms t since = since
Since-slept h false (some s) ms t since = since

pub Since-none : (h : Host) (b : Bool) → Since h b none []
Since-none h true = refl
Since-none h false = tt

dropped-none : (b : Bool) (o : Option ℕ) → o ≡ none → (if b then none else o) ≡ none
dropped-none true o e = refl
dropped-none false o e = e

dropped-some :
    (b : Bool) (o : Option ℕ) (s : ℕ)
    → (if b then none else o) ≡ some s
    → (b ≡ false) × (o ≡ some s)
dropped-some true o s e = ground arith
dropped-some false o s e = (refl, e)

is_text-same : (o : Option String) (s : String) → is_text o s ≡ true → o ≡ some s
is_text-same none s e = ground arith
is_text-same (some t) s e = ap some ((eq_iff t s).0 e)

has_health-lower : (c : Seen) (s : String) → has_health c s ≡ true → lower c.health ≡ some s
unfolding has_health
has_health-lower c s e = is_text-same (lower c.health) s e

is_true-some : (o : Option Bool) → is_true o ≡ true → o ≡ some true
is_true-some none e = ground arith
is_true-some (some b) e = ap some e

is_started-IsUp : (c : Seen) → is_started c ≡ true → IsUp c
unfolding is_started
is_started-IsUp c e = (
  is_true-some c.running (ground arith),
  λ restarting.
      let waits : is_text (lower c.status) "restarting" ≡ true = rw restarting refl in ground arith,
)

is_more-NoneMore : (count : ℕ) (o : Option ℕ) → is_more count o ≡ false → NoneMore count o
is_more-NoneMore count none e = tt
is_more-NoneMore count (some earlier) e = ground arith

if-Fits :
    (h : Host) (i : Input) (t : List Event) (b : Bool) (x y : Verdict)
    → (b ≡ true → Fits h i t x)
    → (b ≡ false → Fits h i t y)
    → Fits h i t (if b then x else y)
if-Fits h i t true x y f g = f refl
if-Fits h i t false x y f g = g refl

module _ (h : Host) (i : Input) (c : Seen) (t v : List Event) (seen : last_seen v ≡ some c)
    (runs : (s : ℕ)
      → IsUp c
      → (h.now v ≤ s) ⊎ (RunsSince h s t × NoneMore (restarts_of c) (count_of (last_seen t)))
      → RunsSince h s v) where
  grace-Fits :
      (w : Watch) (s : ℕ)
      → i.has_healthcheck ≡ false
      → w.observed_restart_count ≡ some (restarts_of c)
      → RunsSince h s v
      → Fits h i v (judge_grace i (h.now v) w s)
  grace-Fits w s unchecked o r = elim (Bool-cases (leb (s + i.running_grace_ms) (h.now v))) [
    | inl long ↦ rw (long, unchecked) (s, r, ground arith)
    | inr short ↦ rw (short, unchecked) (rw seen o, r)
  ]

  -- What is known of the start that a watch keeps.
  abbrev Kept : Option ℕ → Type 0
  Kept o =
      (s : ℕ) → o ≡ some s → RunsSince h s t × NoneMore (restarts_of c) (count_of (last_seen t))

  since-RunsSince : (o : Option ℕ) → Kept o → IsUp c → RunsSince h (get_or_else o (h.now v)) v
  since-RunsSince none kept started = runs (h.now v) started (inl (ground arith))
  since-RunsSince (some s) kept started = runs s started (inr (kept s refl))

  -- The watch after its counts are brought up to date.
  running-Fits :
      (w : Watch)
      → w.observed_restart_count ≡ some (restarts_of c)
      → (i.has_healthcheck ≡ true → w.running_since ≡ none)
      → (i.has_healthcheck ≡ false → Kept w.running_since)
      → Fits h i v (judge_running i (h.now v) c w)
  running-Fits w o checked_none kept =
      if-Fits h i v i.has_healthcheck _ _
        (λ checked.
          if-Fits h i v (has_health c "healthy" && is_started c) ready (goes_on w)
            (λ well. rw checked (
              c,
              seen,
              has_health-lower c "healthy" (ground arith),
              is_started-IsUp c (ground arith),
            ))
            (λ ill. rw checked (rw seen o, checked_none checked)))
        (λ unchecked.
          if-Fits h i v (is_started c) _ _
            (λ started.
              grace-Fits w (get_or_else w.running_since (h.now v)) unchecked o
                (since-RunsSince w.running_since (kept unchecked) (is_started-IsUp c started)))
            (λ stopped. rw unchecked (rw seen o, tt)))

  pub judge-Fits :
      (baseline : ℕ) (w : Watch) → Inv h i w t → Fits h i v (judge i (h.now v) c baseline w)
  unfolding judge
  judge-Fits baseline w (o, since) =
      let count = restarts_of c in
      let restarts = counted_restarts w baseline count in
      if-Fits h i v (leb i.crash_loop_restart_count restarts) (fails (crash_looping restarts)) _
        (λ loops. tt)
        (λ calm.
          if-Fits h i v (has_health c "unhealthy") (fails unhealthy) _ (λ ill. tt)
            (λ well.
              running-Fits
                (record w {
                  running_since =
                      if is_more count w.observed_restart_count then none else w.running_since;
                  observed_restart_count = some count;
                })
                refl
                (λ checked.
                  dropped-none _ w.running_since
                    (Since-checked h i.has_healthcheck _ t checked since))
                (λ unchecked s e.
                  let (same, there) =
                    dropped-some (is_more count w.observed_restart_count) w.running_since s e in
                  (
                    Since-kept h i.has_healthcheck _ s t unchecked there since,
                    is_more-NoneMore count _ (rw (← o) same),
                  ))))
