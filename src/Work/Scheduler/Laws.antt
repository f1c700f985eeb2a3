-- ===== src/Work/Scheduler/Laws.antt =====
-- The bound on the work items that run at once, and that none runs twice at once.
use nouva_agent.Prelude.Names.{
  is_member, remove, IsAbsent, IsDistinct, IsApart, IsAbsent-of_apart, remove-IsDistinct,
  remove_self,
}
use text.Mathlib.Text.{◌==◌}
use text.Mathlib.TextPositions.{eq_refl}
use nouva_agent.Prelude.{
  ◌⊎◌, ◌≡◌, refl, ◌||◌, ℕ, ◌+◌, ◌-◌, ◌≤◌, String, true, false, Option, none, some, List, [], ◌∷◌,
  length, arith, Bool-cases, inl, inr, eq_iff, ltb, leb,
}
use nouva_agent.Work.Scheduler.{
  Scheduler, create, trigger, check_items, start_items, leased, lease_failed, work_ended, Step,
  triggers, leases, fails, ends, Reach, here, later,
}

abbrev pub pending : Option ℕ → ℕ
pending none = 0
pending (some c) = c

-- The running items and those that a pending lease may add fit the limit, and no id runs twice.
pub record Inv (limit : ℕ) (s : Scheduler) : Type 0 where
  pub same : s.max_concurrency ≡ limit
  pub within : length s.active + pending s.polling ≤ limit
  pub distinct : IsDistinct s.active

length-remove-le : (id : String) (names : List String) → length (remove id names) ≤ length names
length-remove-le id [] = omega arith
length-remove-le id (n ∷ names) = ground (arith, length-remove-le id names)

length-start-le :
    (ids active items : List String)
    → length (start_items ids active items).0 ≤ length active + length items
unfolding start_items
length-start-le ids active [] = omega arith
length-start-le ids active (id ∷ items) = elim (Bool-cases (is_member id ids)) [
  | inl fresh ↦ rw fresh (omega (arith, length-start-le (remove id ids) (id ∷ active) items))
  | inr old ↦ rw old (omega (arith, length-start-le (remove id ids) active items))
]

-- The ids to start are distinct and none of them runs.
check-IsDistinct :
    (active ids items : List String)
    → IsDistinct ids
    → IsApart ids active
    → IsDistinct (check_items active ids items).0 × IsApart (check_items active ids items).0 active
unfolding check_items
check-IsDistinct active ids [] d a = (d, a)
check-IsDistinct active ids (id ∷ items) d a =
    elim (Bool-cases (is_member id ids || is_member id active)) [
      | inl seen ↦ rw seen (check-IsDistinct active ids items d a)
      | inr new ↦
          rw new (check-IsDistinct active (id ∷ ids) items (ground arith, d) (ground arith, a))
    ]

IsApart-remove :
    (id : String) (ids active : List String) → IsApart ids active → IsApart (remove id ids) active
IsApart-remove id [] active a = tt
IsApart-remove id (w ∷ ids) active a = ground (arith, IsApart-remove id ids active)

-- What is apart from the running items, and not the id, is apart from both.
IsApart-cons :
    (id : String) (ids active : List String)
    → IsAbsent id ids
    → IsApart ids active
    → IsApart ids (id ∷ active)
IsApart-cons id [] active h a = tt
IsApart-cons id (w ∷ ids) active h a =
    (ground (arith, eq_iff id w, eq_iff w id), IsApart-cons id ids active (ground arith) a.1)

start-IsDistinct :
    (ids active items : List String)
    → IsDistinct ids
    → IsApart ids active
    → IsDistinct active
    → IsDistinct (start_items ids active items).0
unfolding start_items
start-IsDistinct ids active [] d a v = v
start-IsDistinct ids active (id ∷ items) d a v = elim (Bool-cases (is_member id ids)) [
  | inl fresh ↦ rw fresh (
      start-IsDistinct (remove id ids) (id ∷ active) items (remove-IsDistinct id ids d)
        (IsApart-cons id (remove id ids) active (remove_self id ids d)
          (IsApart-remove id ids active a))
        (IsAbsent-of_apart id ids active fresh a, v))
  | inr old ↦ rw old (
      start-IsDistinct (remove id ids) active items (remove-IsDistinct id ids d)
        (IsApart-remove id ids active a) v)
]

abbrev pub state : ℕ → List String → Option ℕ → Scheduler
state limit active polling = record { max_concurrency = limit; active = active; polling = polling }

leased-Inv :
    (limit max : ℕ) (active items : List String) (p : Option ℕ)
    → Inv limit (state max active p)
    → Inv limit (leased (state max active p) items).0
unfolding leased
leased-Inv limit max active items none v = v
leased-Inv limit max active items (some c) v = elim (Bool-cases (ltb c (length items))) [
  | inl over ↦
      rw over (record { same = v.same; within = omega (arith, v.within); distinct = v.distinct })
  | inr fits ↦
      let (d, a) = check-IsDistinct active [] items tt tt in
      let small : length items ≤ c = ground arith in
      let ids : List String = (check_items active [] items).0 in
      rw fits (record {
        same = v.same;
        within = omega (arith, v.within, small, length-start-le ids active items);
        distinct = start-IsDistinct ids active items d a v.distinct;
      })
]

trigger-Inv :
    (limit max : ℕ) (active : List String) (p : Option ℕ)
    → Inv limit (state max active p)
    → Inv limit (trigger (state max active p)).0
unfolding trigger
trigger-Inv limit max active (some c) v = v
trigger-Inv limit max active none v = elim (Bool-cases (leb (max - length active) 0)) [
  | inl full ↦ rw full v
  | inr room ↦
      let positive : 1 ≤ max - length active = ground arith in
      rw room
        (record { same = v.same; within = omega (arith, v.same, positive); distinct = v.distinct })
]

Step-Inv : {limit : ℕ} {s t : Scheduler} → Step s t → Inv limit s → Inv limit t
unfolding lease_failed work_ended
Step-Inv {limit} {s} triggers v = trigger-Inv limit s.max_concurrency s.active s.polling v
Step-Inv {limit} {s} (leases items) v =
    leased-Inv limit s.max_concurrency s.active items s.polling v
Step-Inv fails v = record { same = v.same; within = omega (arith, v.within); distinct = v.distinct }
Step-Inv {limit} {s} (ends id) v = record {
  same = v.same;
  within = omega (arith, v.within, length-remove-le id s.active);
  distinct = remove-IsDistinct id s.active v.distinct;
}

Reach-Inv : {limit : ℕ} {s t : Scheduler} → Reach s t → Inv limit s → Inv limit t
Reach-Inv here v = v
Reach-Inv (later r step) v = Step-Inv step (Reach-Inv r v)

-- From a scheduler that was just made, whatever is triggered, leased and ended in any order: no
-- more items run than the limit, counted with those that a pending lease request may add, and no
-- item runs twice at once.
pub bounded :
    (limit : ℕ) (t : Scheduler)
    → Reach (state limit [] none) t
    → (length t.active + pending t.polling ≤ limit) × IsDistinct t.active
bounded limit t r =
    let v : Inv limit t =
      Reach-Inv r (record { same = refl; within = omega arith; distinct = tt }) in
    (v.within, v.distinct)

-- The scheduler of the bound is the one that is made.
create-state : (limit : ℕ) → 1 ≤ limit → create limit ≡ some (state limit [] none)
unfolding create
create-state limit e = ground arith

check-keeps :
    (x : String) (active ids items : List String)
    → is_member x ids ≡ true
    → is_member x (check_items active ids items).0 ≡ true
unfolding check_items
check-keeps x active ids [] m = m
check-keeps x active ids (id ∷ items) m =
    elim (Bool-cases (is_member id ids || is_member id active)) [
      | inl seen ↦ rw seen (check-keeps x active ids items m)
      | inr new ↦ rw new (check-keeps x active (id ∷ ids) items (ground arith))
    ]

-- What is to be started, or runs, before the loop is so after it.
check-found :
    (x : String) (active ids items : List String)
    → (is_member x ids || is_member x active) ≡ true
    → (is_member x (check_items active ids items).0 || is_member x active) ≡ true
check-found x active ids items o = ground (arith, check-keeps x active ids items)

member-cases :
    (x id : String) (items : List String)
    → is_member x (id ∷ items) ≡ true
    → (id ≡ x) ⊎ (is_member x items ≡ true)
member-cases x id items m = elim (Bool-cases (id == x)) [
  | inl same ↦ inl ((eq_iff id x).0 same)
  | inr other ↦ inr (rw other at m)
]

-- Every item is to be started or runs.
check-finds :
    (x : String) (active ids items : List String)
    → is_member x items ≡ true
    → (is_member x (check_items active ids items).0 || is_member x active) ≡ true
unfolding check_items
check-finds x active ids [] m = absurd (cc)
check-finds x active ids (id ∷ items) m =
    elim (Bool-cases (is_member id ids || is_member id active)) [
      | inl seen ↦ rw seen (elim (member-cases x id items m) [
        | inl same ↦ check-found x active ids items (rw same at seen)
        | inr later_on ↦ check-finds x active ids items later_on
      ])
      | inr new ↦ rw new (elim (member-cases x id items m) [
        | inl same ↦ check-found x active (id ∷ ids) items (rw (same, eq_refl x) refl)
        | inr later_on ↦ check-finds x active (id ∷ ids) items later_on
      ])
    ]

start-keeps :
    (x : String) (ids active items : List String)
    → is_member x active ≡ true
    → is_member x (start_items ids active items).0 ≡ true
unfolding start_items
start-keeps x ids active [] m = m
start-keeps x ids active (id ∷ items) m = elim (Bool-cases (is_member id ids)) [
  | inl fresh ↦ rw fresh (start-keeps x (remove id ids) (id ∷ active) items (ground arith))
  | inr old ↦ rw old (start-keeps x (remove id ids) active items m)
]

-- Where the item at hand is moved from the items to start to the running ones, all stay found.
move-found :
    (x id : String) (ids active : List String)
    → (is_member x ids || is_member x active) ≡ true
    → (is_member x (remove id ids) || is_member x (id ∷ active)) ≡ true
move-found x id [] active o = ground arith
move-found x id (w ∷ ids) active o = elim (Bool-cases (w == id)) [
  | inl same ↦ rw (same, ← (eq_iff w id).0 same) (ground arith)
  | inr other ↦ rw (other, remove) (ground (arith, move-found x id ids active))
]

remove-absent_self : (id : String) (ids : List String) → IsAbsent id ids → remove id ids ≡ ids
remove-absent_self id [] h = refl
remove-absent_self id (w ∷ ids) h = elim (Bool-cases (w == id)) [
  | inl same ↦ absurd (ground arith)
  | inr other ↦ rw (other, remove-absent_self id ids (rw other at h)) refl
]

-- An item that is to be started, or runs, runs afterwards.
start-runs :
    (x : String) (ids active items : List String)
    → is_member x items ≡ true
    → (is_member x ids || is_member x active) ≡ true
    → is_member x (start_items ids active items).0 ≡ true
unfolding start_items
start-runs x ids active [] m o = absurd (cc)
start-runs x ids active (id ∷ items) m o = elim (Bool-cases (is_member id ids)) [
  | inl fresh ↦ rw fresh (elim (member-cases x id items m) [
    | inl same ↦ start-keeps x (remove id ids) (id ∷ active) items (rw (same, eq_refl x) refl)
    | inr later_on ↦
        start-runs x (remove id ids) (id ∷ active) items later_on (move-found x id ids active o)
  ])
  | inr old ↦
      rw (old, remove-absent_self id ids old)
        (elim (member-cases x id items m) [
          | inl same ↦ start-keeps x ids active items (old_runs (rw same at old) o)
          | inr later_on ↦ start-runs x ids active items later_on o
        ])
]
  where
    old_runs :
        is_member x ids ≡ false
        → (is_member x ids || is_member x active) ≡ true
        → is_member x active ≡ true
    old_runs old found = ground arith

-- A response within the capacity loses no item: each item of it runs afterwards.
pub leased-runs :
    (limit c : ℕ) (active items : List String) (id : String)
    → length items ≤ c
    → is_member id items ≡ true
    → is_member id (leased (state limit active (some c)) items).0.active ≡ true
unfolding leased
leased-runs limit c active items id fits m =
    let small : ltb c (length items) ≡ false = ground arith in
    rw small (
      start-runs id (check_items active [] items).0 active items m
        (check-finds id active [] items m))
