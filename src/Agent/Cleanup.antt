-- ===== src/Agent/Cleanup.antt =====
-- `removeManagedServiceContainers` of agent/src/service-container-cleanup.ts over any Docker. A
-- container is its id and its labels.
pub mod Laws
use nouva_agent.Prelude.{
  ℕ, ◌==◌, String, str_eq, utf16_length, Bool, true, false, not, ◌&&◌, ◌||◌, Option, none, some,
  List, [], ◌∷◌, ◌++◌, if◌then◌else◌, filter_by, all, any,
}
use nouva_agent.Prelude.Effects.{
  Result, ok, threw, Answer, value, failure, Act, pure, throw, call, ◌>>=◌, ◌>>◌,
}

pub record Container : Type 0 where
  pub id : String
  pub labels : List (String × String)

pub data Thrown : Type 0 where
  no_scope no_id still_there : Thrown
  docker_failed : Thrown

pub data Event : Type 0 where
  -- A listing, and the containers of it that carry every label.
  listed : (found : List Container) → Event
  removed : (id : String) → Event

pub record Docker : Type 0 where
  pub list_by_labels : List Event → List (String × String) → Answer Thrown (List Container)
  pub remove : List Event → String → Answer Thrown (Unit {0})

abbrev pub has_label : String × String → Container → Bool
has_label (key, wanted) c = has key wanted c.labels
  where
    -- The first entry of a key is its value.
    has : String → String → List (String × String) → Bool
    has key wanted [] = false
    has key wanted ((k, v) ∷ rest) =
        let later = has key wanted rest in if str_eq k key then str_eq v wanted else later

abbrev pub is_owned : List (String × String) → Container → Bool
is_owned labels c = all (λ l. has_label l c) labels

abbrev deployment_label : Option String → List (String × String)
deployment_label none = []
deployment_label (some id) = ("nouva.deployment.id", id) ∷ []

abbrev pub scope : String → Option String → List (String × String)
scope service_id deployment_id =
    ("nouva.managed", "true") ∷ ("nouva.service.id", service_id) ∷ deployment_label deployment_id

abbrev is_empty_text : String → Bool
is_empty_text s = utf16_length s == 0

abbrev pub lacks_scope : String → Option String → Bool
lacks_scope service_id none = is_empty_text service_id
lacks_scope service_id (some d) = is_empty_text service_id || is_empty_text d

module _ (d : Docker) where
  abbrev pub found :
      List (String × String)
      → Answer Thrown (List Container)
      → List Event
      → Result Thrown (List Container) × List Event
  found labels (value cs) t =
      (ok (filter_by (is_owned labels) cs), listed (filter_by (is_owned labels) cs) ∷ t)
  found labels (failure x) t = (threw x, t)

  unfoldable pub list_owned : List (String × String) → Act Event Thrown (List Container)
  list_owned labels t = found labels (d.list_by_labels t labels) t

  unfoldable pub remove_all : List Container → Act Event Thrown (Unit {0})
  remove_all [] = pure tt
  remove_all (c ∷ cs) =
      let rest = remove_all cs in
      if is_empty_text c.id
      then throw no_id
      else (call (removed c.id) (λ t. d.remove t c.id) >> rest)

  abbrev pub confirm : List Container → List Container → Act Event Thrown (List Container)
  confirm containers [] = pure containers
  confirm containers (c ∷ cs) = throw still_there

  unfoldable pub remove_in_scope : List (String × String) → Act Event Thrown (List Container)
  unfolding list_owned remove_all
  remove_in_scope labels = do
    containers ← list_owned labels
    remove_all containers
    left ← list_owned labels
    confirm containers left

  unfoldable pub remove_managed_service_containers :
      String → Option String → Act Event Thrown (List Container)
  unfolding remove_in_scope
  remove_managed_service_containers service_id deployment_id =
      if lacks_scope service_id deployment_id
      then throw no_scope
      else remove_in_scope (scope service_id deployment_id)
