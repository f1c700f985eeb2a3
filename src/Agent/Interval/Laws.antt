-- ===== src/Agent/Interval/Laws.antt =====
-- A loop never has two timers.
use nouva_agent.Prelude.{
  Option-cases, get_or_else, ◌≡◌, refl, ℕ, ◌==◌, Option, none, some, List, [], ◌∷◌, ◌++◌, arith,
  inl, inr, if◌then◌else◌, ◌∙◌, ap,
}
use nouva_agent.Prelude.Number.{Number}
use nouva_agent.Agent.Interval.{
  Interval, TimerCall, set, clear, idle, stop, update, Command, to_period, to_stop, act, run_all,
}

-- The timers that run, as the calls say: a call may only set where none runs, and only clear the one
-- that does; `none` where it does anything else.
abbrev pub follow : Option ℕ → TimerCall → Option (Option ℕ)
follow none (set p handle) = some (some handle)
follow none (clear handle) = none
follow (some h) (set p handle) = none
follow (some h) (clear handle) = if h == handle then some none else none

abbrev pub follow_all : Option ℕ → List TimerCall → Option (Option ℕ)
follow_all h [] = some h
follow_all h (c ∷ cs) = elim (follow h c) [ none ↦ none | some next ↦ follow_all next cs ]

abbrev pub handle_of : Option (Number × ℕ) → Option ℕ
handle_of none = none
handle_of (some (p, handle)) = some handle

some_inj : {A : Type 0} {a b : A} → some a ≡ some b → a ≡ b
some_inj {A} {a} e = ap (λ o. get_or_else o a) e

follow-append :
    (h k : Option ℕ) (cs ds : List TimerCall)
    → follow_all h cs ≡ some k
    → follow_all h (cs ++ ds) ≡ follow_all k ds
follow-append h k [] ds e = rw (some_inj e) refl
follow-append h k (c ∷ cs) ds e = elim (Option-cases (follow h c)) [
  | inl wrong ↦ absurd (ground (arith, wrong, e))
  | inr (next, ok) ↦ rw (follow_all, ok) (follow-append next k cs ds (rw (follow_all, ok) at e))
]

act-follows :
    (c : Command) (running : Option (Number × ℕ)) (made : ℕ)
    → let i : Interval = record { running = running; made = made } in
      follow_all (handle_of running) (act c i).1 ≡ some (handle_of (act c i).0.running)
unfolding stop update
act-follows to_stop none made = refl
act-follows to_stop (some (p, h)) made = ground arith
act-follows (to_period q) none made = ground arith
act-follows (to_period q) (some (p, h)) made = ground arith

run-follows :
    (cs : List Command) (i : Interval)
    → follow_all (handle_of i.running) (run_all cs i).1 ≡ some (handle_of (run_all cs i).0.running)
unfolding run_all
run-follows [] i = refl
run-follows (c ∷ cs) i =
    follow-append (handle_of i.running) (handle_of (act c i).0.running) (act c i).1
      (run_all cs (act c i).0).1 (act-follows c i.running i.made)
    ∙ run-follows cs (act c i).0

-- Whatever periods are given and whenever the loop is stopped, at most one timer runs: a timer is
-- only set where none runs, only the running one is cleared, and the loop knows which one it is.
pub one_timer :
    (cs : List Command)
    → follow_all none (run_all cs idle).1 ≡ some (handle_of (run_all cs idle).0.running)
one_timer cs = run-follows cs idle
