-- ===== src/Agent/Interval.antt =====
-- `createRearmableInterval` of agent/src/rearmable-interval.ts over any timers: `set` answers the
-- handle of the `n`-th timer. A period is any JavaScript number.
pub mod Laws
use nouva_agent.Prelude.{
  ℕ, ◌==◌, Bool, true, false, not, ◌&&◌, ◌||◌, Option, none, some, List, [], ◌∷◌, ◌++◌,
  if◌then◌else◌, ◌+◌,
}
use nouva_agent.Prelude.Number.{Number, nan, infinite, finite, is_finite, is_above}

pub record Interval : Type 0 where
  -- The period of the running timer, with its handle.
  pub running : Option (Number × ℕ)
  -- How many timers were set so far.
  pub made : ℕ

pub data TimerCall : Type 0 where
  set : (period_ms : Number) (handle : ℕ) → TimerCall
  clear : (handle : ℕ) → TimerCall

abbrev pub idle : Interval
idle = record { running = none; made = 0 }

-- `===` of two finite numbers.
abbrev same : Number → Number → Bool
same (finite n w r) (finite n' w' r') = w == w' && r == r' && (same_sign n n' || (w == 0 && r == 0))
  where
    same_sign : Bool → Bool → Bool
    same_sign true b = b
    same_sign false b = not b
same _ _ = false

abbrev is_current : Number → Option (Number × ℕ) → Bool
is_current period none = false
is_current period (some (p, handle)) = same period p

unfoldable pub stop : Interval → Interval × List TimerCall
stop i = elim i.running [
  | none ↦ (i, [])
  | some (p, handle) ↦ (record i { running = none }, clear handle ∷ [])
]

-- The guard of `update`.
abbrev pub is_ignored : Number → Option (Number × ℕ) → Bool
is_ignored period running =
    not (is_finite period) || not (is_above period 0) || is_current period running

unfoldable pub update : Number → Interval → Interval × List TimerCall
unfolding stop
update period i =
    let (stopped, calls) = stop i in
    if is_ignored period i.running then (i, []) else (
      record { running = some (period, i.made); made = i.made + 1 },
      calls ++ (set period i.made ∷ []),
    )

pub data Command : Type 0 where
  to_period : Number → Command
  to_stop : Command

abbrev pub act : Command → Interval → Interval × List TimerCall
act (to_period p) i = update p i
act to_stop i = stop i

-- The calls of a sequence of commands.
unfoldable pub run_all : List Command → Interval → Interval × List TimerCall
run_all [] i = (i, [])
run_all (c ∷ cs) i =
    let (next, calls) = act c i in let (last, more) = run_all cs next in (last, calls ++ more)
