-- ===== src/Agent/Cleanup/Laws.antt =====
-- What a cleanup removes, and what it has shown when it succeeds.
use nouva_agent.Prelude.{
  ◌∙◌, ap, sym, subst, ◌≡◌, refl, String, str_eq, eq_refl, utf16_length, ◌==◌, Bool, true, Option,
  List, [], ◌∷◌, arith, Bool-cases, inl, inr, All, any, filter_by,
}
use nouva_agent.Prelude.Effects.{and_then, Ends, and_then-Ends, Answer-cases}
use nouva_agent.Agent.Cleanup.{
  Container, Event, listed, removed, Docker, is_owned, scope, lacks_scope, list_owned, remove_all,
  confirm, remove_in_scope, remove_managed_service_containers,
}

-- The history after the removals of the containers, in their order.
abbrev pub removals : List Container → List Event → List Event
removals [] t = t
removals (c ∷ cs) t = removals cs (removed c.id ∷ t)

abbrev pub last_listed : List Event → List Container
last_listed [] = []
last_listed (listed cs ∷ t) = cs
last_listed (removed id ∷ t) = last_listed t

abbrev has_id : String → List Container → Bool
has_id id cs = any (λ c. str_eq c.id id) cs

-- Whatever is removed was listed, and whatever is listed carries every label of the scope.
abbrev pub IsOwned : List (String × String) → List Event → Type 0
IsOwned labels [] = Unit {0}
IsOwned labels (listed cs ∷ t) = All (λ c. is_owned labels c ≡ true) cs × IsOwned labels t
IsOwned labels (removed id ∷ t) = (has_id id (last_listed t) ≡ true) × IsOwned labels t

filter-All :
    (labels : List (String × String)) (cs : List Container)
    → All (λ c. is_owned labels c ≡ true) (filter_by (is_owned labels) cs)
filter-All labels [] = tt
filter-All labels (c ∷ cs) = elim (Bool-cases (is_owned labels c)) [
  | inl owned ↦ rw owned (owned, filter-All labels cs)
  | inr foreign ↦ rw foreign (filter-All labels cs)
]

-- What a listing leaves behind.
abbrev AfterList : List (String × String) → List Event → List Container → List Event → Type 0
AfterList labels t cs u = (u ≡ listed cs ∷ t) × All (λ c. is_owned labels c ≡ true) cs

list-Ends :
    (d : Docker) (labels : List (String × String)) (t : List Event)
    → IsOwned labels t
    → Ends (AfterList labels t) (λ x u. IsOwned labels u) (λ u. ⊥) (list_owned d labels t)
unfolding list_owned
list-Ends d labels t v = elim (Answer-cases (d.list_by_labels t labels)) [
  | inl (cs, e) ↦ rw e (refl, filter-All labels cs)
  | inr (x, e) ↦ rw e v
]

remove-Ends :
    (d : Docker) (labels : List (String × String)) (cs : List Container) (t : List Event)
    → All (λ c. has_id c.id (last_listed t) ≡ true) cs
    → IsOwned labels t
    → Ends
        (λ a u. (u ≡ removals cs t) × IsOwned labels u)
        (λ x u. IsOwned labels u)
        (λ u. ⊥)
        (remove_all d cs t)
unfolding remove_all
remove-Ends d labels [] t a v = (refl, v)
remove-Ends d labels (c ∷ cs) t a v = elim (Bool-cases (utf16_length c.id == 0)) [
  | inl empty ↦ rw empty v
  | inr full ↦ elim (Answer-cases (d.remove t c.id)) [
    | inr (x, e) ↦ rw (full, e) (a.0, v)
    | inl (o, e) ↦ rw (full, e) (remove-Ends d labels cs (removed c.id ∷ t) a.1 (a.0, v))
  ]
]

cons-has_id :
    (c : Container) (cs ds : List Container)
    → All (λ x. has_id x.id cs ≡ true) ds
    → All (λ x. has_id x.id (c ∷ cs) ≡ true) ds
cons-has_id c cs [] a = tt
cons-has_id c cs (x ∷ ds) a = (ground arith, cons-has_id c cs ds a.1)

self-has_id : (cs : List Container) → All (λ c. has_id c.id cs ≡ true) cs
self-has_id [] = tt
self-has_id (c ∷ cs) = (rw (eq_refl c.id) refl, cons-has_id c cs cs (self-has_id cs))

abbrev Cleaned : List (String × String) → List Container → List Event → Type 0
Cleaned labels cs u = (u ≡ listed [] ∷ removals cs (listed cs ∷ [])) × IsOwned labels u

confirm-Ends :
    (d : Docker) (labels : List (String × String)) (cs left : List Container) (t u : List Event)
    → t ≡ removals cs (listed cs ∷ [])
    → IsOwned labels t
    → AfterList labels t left u
    → Ends (Cleaned labels) (λ x v. IsOwned labels v) (λ v. ⊥) (confirm d cs left u)
confirm-Ends d labels cs [] t u shape v (e, a) =
    (e ∙ ap (λ w. listed [] ∷ w) shape, subst (IsOwned labels) (sym e) (tt, v))
confirm-Ends d labels cs (c ∷ left) t u shape v (e, a) = subst (IsOwned labels) (sym e) (a, v)

swept-Ends :
    (d : Docker) (labels : List (String × String)) (cs : List Container)
    → All (λ c. is_owned labels c ≡ true) cs
    → Ends
        (Cleaned labels)
        (λ x v. IsOwned labels v)
        (λ v. ⊥)
        (and_then
          (remove_all d cs (listed cs ∷ []))
          (λ _ t. and_then (list_owned d labels t) (confirm d cs)))
swept-Ends d labels cs owned =
    and_then-Ends (λ a u. (u ≡ removals cs (listed cs ∷ [])) × IsOwned labels u)
      (λ x u. IsOwned labels u) (λ u. ⊥) (Cleaned labels) (remove_all d cs (listed cs ∷ []))
      (λ _ t. and_then (list_owned d labels t) (confirm d cs))
      (remove-Ends d labels cs (listed cs ∷ []) (self-has_id cs) (owned, tt))
      (λ a t w.
        and_then-Ends (AfterList labels t) (λ x u. IsOwned labels u) (λ u. ⊥) (Cleaned labels)
          (list_owned d labels t) (confirm d cs) (list-Ends d labels t w.1)
          (λ left u after. confirm-Ends d labels cs left t u w.0 w.1 after))

scope-Ends :
    (d : Docker) (labels : List (String × String))
    → Ends (Cleaned labels) (λ x v. IsOwned labels v) (λ v. ⊥) (remove_in_scope d labels [])
unfolding remove_in_scope
scope-Ends d labels =
    and_then-Ends (AfterList labels []) (λ x u. IsOwned labels u) (λ u. ⊥) (Cleaned labels)
      (list_owned d labels [])
      (λ cs t.
        and_then (remove_all d cs t) (λ _ u. and_then (list_owned d labels u) (confirm d cs)))
      (list-Ends d labels [] tt)
      (λ cs u after.
        subst
          (λ t.
            Ends (Cleaned labels) (λ x v. IsOwned labels v) (λ v. ⊥)
              (and_then (remove_all d cs t)
                (λ _ w. and_then (list_owned d labels w) (confirm d cs))))
          (sym after.0) (swept-Ends d labels cs after.1))

-- A cleanup ends. Whatever it removes, also when it throws, was listed and carries every label of its
-- scope. When it succeeds, it has removed exactly the listed containers, and a last listing, with no
-- call after it, showed none.
pub cleanup_complete :
    (d : Docker) (service_id : String) (deployment_id : Option String)
    → Ends
        (λ cs u.
          (u ≡ listed [] ∷ removals cs (listed cs ∷ []))
          × IsOwned (scope service_id deployment_id) u)
        (λ x u. IsOwned (scope service_id deployment_id) u)
        (λ u. ⊥)
        (remove_managed_service_containers d service_id deployment_id [])
unfolding remove_managed_service_containers
cleanup_complete d service_id deployment_id =
    elim (Bool-cases (lacks_scope service_id deployment_id)) [
      | inl lacking ↦ rw lacking tt
      | inr scoped ↦ rw scoped (scope-Ends d (scope service_id deployment_id))
    ]
