-- ===== src/Work/Scheduler.antt =====
-- `createBoundedWorkScheduler` of agent/src/work-scheduler.ts, one step for each piece of code that
-- runs without waiting: a trigger up to its lease request, the answer to that request, its failure,
-- and the end of a work item. Between them anything may happen in any order. `activeWork` is a list
-- of its keys, of which the code uses the number, the membership and the sorted list.
pub mod Laws
use nouva_agent.Prelude.{
  ℕ, ◌-◌, ◌≤◌, ltb, leb, String, Bool, true, false, ◌||◌, Option, none, some, List, [], ◌∷◌, length,
  if◌then◌else◌, ◌++◌,
}
use nouva_agent.Prelude.Names.{is_member, remove}

pub record Scheduler : Type 0 where
  pub max_concurrency : ℕ
  pub active : List String
  -- The capacity that a pending lease request asked for; `none` when `pollActive` is false.
  pub polling : Option ℕ

-- What a step asks of the outside: a lease with a limit, the start of a work item, and the callbacks.
pub data Effect : Type 0 where
  lease : (limit : ℕ) (active : List String) → Effect
  config_seen : Effect
  starts : (id : String) → Effect
  duplicate : (id : String) → Effect
  -- The promise of the trigger rejects: the response exceeded the capacity.
  exceeded : (capacity : ℕ) → Effect

-- The constructor throws on a limit that is not positive.
unfoldable pub create : ℕ → Option Scheduler
create limit =
    if ltb limit 1
    then none
    else some (record { max_concurrency = limit; active = []; polling = none })

unfoldable pub is_active : Scheduler → Bool
is_active s = elim s.polling [ some c ↦ true | none ↦ ltb 0 (length s.active) ]

trigger_idle : Scheduler → Scheduler × List Effect
trigger_idle s =
    let available = s.max_concurrency - length s.active in
    if leb available 0
    then (s, [])
    else (record s { polling = some available }, lease available s.active ∷ [])

unfoldable pub trigger : Scheduler → Scheduler × List Effect
unfolding trigger_idle
trigger s = elim s.polling [ some c ↦ (s, []) | none ↦ trigger_idle s ]

-- The first loop: the ids to start, with those found so far, and an error for each other item.
unfoldable pub check_items : List String → List String → List String → List String × List Effect
check_items active work_ids [] = (work_ids, [])
check_items active work_ids (id ∷ items) =
    let seen = is_member id work_ids || is_member id active in
    let (ids, errors) = check_items active (if seen then work_ids else id ∷ work_ids) items in
    (ids, if seen then duplicate id ∷ errors else errors)

-- The second loop starts each item whose id is still to be started.
unfoldable pub start_items : List String → List String → List String → List String × List Effect
start_items work_ids active [] = (active, [])
start_items work_ids active (id ∷ items) =
    let fresh = is_member id work_ids in
    let (now_active, started) =
      start_items (remove id work_ids) (if fresh then id ∷ active else active) items in
    (now_active, if fresh then starts id ∷ started else started)

accept : ℕ → Scheduler → List String → Scheduler × List Effect
unfolding check_items start_items
accept capacity s items =
    if ltb capacity (length items)
    then (record s { polling = none }, config_seen ∷ exceeded capacity ∷ [])
    else let (work_ids, errors) = check_items s.active [] items in
      let (active, started) = start_items work_ids s.active items in
      (record s { active = active; polling = none }, config_seen ∷ (errors ++ started))

-- The lease response, with the ids of its work items.
unfoldable pub leased : Scheduler → List String → Scheduler × List Effect
unfolding accept
leased s items = elim s.polling [ none ↦ (s, []) | some capacity ↦ accept capacity s items ]

-- The lease request fails.
unfoldable pub lease_failed : Scheduler → Scheduler
lease_failed s = record s { polling = none }

-- A work item ends, well or not.
unfoldable pub work_ended : Scheduler → String → Scheduler
work_ended s id = record s { active = remove id s.active }

pub data Step (s : Scheduler) : Scheduler → Type 0 where
  triggers : Step s (trigger s).0
  leases : (items : List String) → Step s (leased s items).0
  fails : Step s (lease_failed s)
  ends : (id : String) → Step s (work_ended s id)

pub data Reach (s : Scheduler) : Scheduler → Type 0 where
  here : Reach s s
  later : {t u : Scheduler} → Reach s t → Step t u → Reach s u
