-- ===== src/Release/Jobs.antt =====
-- The containers of release jobs: what the runner of agent/src/release-jobs.ts sweeps and stops
-- before it claims a phase and once it may run one. A call's event keeps the container it is about.
pub mod Laws
mod Tests
use nouva_agent.Prelude.{
  ℕ, ◌+◌, ◌*◌, ◌^◌, ◌==◌, leb, String, str_eq, utf16_length, Bool, true, false, not, ◌&&◌, ◌||◌,
  Option, none, some, List, [], ◌∷◌, if◌then◌else◌, filter_by, ◌++◌,
}
use nouva_agent.Release.Outside.{
  Container, Event, listed, stopped, inspected, removed, Thrown, Host, is_text, is_running,
  read_started_at_ms,
}
use nouva_agent.Release.Recovery.{DateParse}
use nouva_agent.Service.Limits.{DockerResourceSettings}
use nouva_agent.Prelude.Names.{is_member}
use nouva_agent.Prelude.Number.{Number, nan, infinite, finite, is_finite, is_above}
use nouva_agent.Prelude.Effects.{Answer, value, failure, Act, pure, call, ok, ◌>>=◌, ◌>>◌, threw}

-- What a release job container runs as; `prepareImage` and `redactLogLine` are the host's.
pub record Target : Type 0 where
  pub service_id : String
  pub deployment_id : String
  pub image : String
  pub network_name : String
  pub env_vars : List (String × String)
  pub labels : List (String × String)
  pub resource_settings : DockerResourceSettings

-- `now >= started + timeout * 1000`, exactly, of a timeout that may be fractional.
time_over : ℕ → ℕ → Number → Bool
time_over now started (finite negative whole rest) =
    leb ((started + whole * 1000) * 2 ^ 1074 + rest * 1000) (now * 2 ^ 1074)
time_over now started _ = false

unfoldable pub past_deadline : DateParse → ℕ → Container → Bool
unfolding time_over read_started_at_ms
past_deadline parse now c = elim (read_started_at_ms parse (some c)) [
  | none ↦ false
  | some started ↦
      is_finite c.timeout_seconds
      && is_above c.timeout_seconds 0
      && time_over now started c.timeout_seconds
]

-- A job of another deployment, or of the deployment's own phase.
unfoldable pub is_concerned : Target → String → Container → Bool
is_concerned target phase c =
    not (is_text c.deployment_id target.deployment_id) || is_text c.phase phase

abbrev pub add_name : Option String → List String → List String
add_name none names = names
add_name (some name) names =
    if utf16_length name == 0 || is_member name names then names else names ++ (name ∷ [])

abbrev still_runs : Option Container → Bool
still_runs none = false
still_runs (some c) = is_running c

module _ (h : Host) where
  abbrev pub list_with :
      (List Event → Answer Thrown (List Container)) → Act Event Thrown (List Container)
  list_with answer t = listing (answer t) t
    where
      listing : Answer Thrown (List Container) → Act Event Thrown (List Container)
      listing (value cs) t = (ok cs, listed cs ∷ t)
      listing (failure x) t = (threw x, t)

  -- Stops a container that is past its deadline; whether it runs afterwards.
  unfoldable pub settle : Container → Act Event Thrown Bool
  settle c t =
      if past_deadline h.date_parse (h.now t) c
      then (do
        call (stopped c) (λ u. h.stop u c.id)
        after ← call (inspected c) (λ u. h.inspect u c.id)
        pure (still_runs after))
          t
      else (ok true, t)

  unfoldable pub collect_running :
      Target → String → List Container → List String → Act Event Thrown (List String)
  unfolding settle
  collect_running target phase [] names = pure names
  collect_running target phase (c ∷ cs) names =
      let rest = λ (ns : List String). collect_running target phase cs ns in
      if not (is_running c) || not (is_concerned target phase c)
      then rest names
      else (do runs ← settle c; rest (if runs then add_name c.deployment_id names else names))

  unfoldable pub read_running_jobs : Target → String → Act Event Thrown (List String)
  unfolding collect_running
  read_running_jobs target phase = do
    containers ← list_with h.list_service_jobs
    collect_running target phase containers []

  unfoldable pub remove_settled : List Container → Act Event Thrown (Unit {0})
  remove_settled [] = pure tt
  remove_settled (c ∷ cs) =
      let rest = remove_settled cs in
      if is_running c then rest else (call (removed c) (λ t. h.remove t c.id) >> rest)

  unfoldable pub remove_settled_attempts : Act Event Thrown (Unit {0})
  unfolding remove_settled
  remove_settled_attempts = do leftovers ← list_with h.list_attempts; remove_settled leftovers

  -- Which containers of other deployments a phase may sweep.
  abbrev pub is_swept : Target → String → Container → Bool
  is_swept target phase c =
      not (is_text c.deployment_id target.deployment_id)
      && not (str_eq phase "verification" && not (is_text c.phase "verification"))

  unfoldable pub remove_other_deployments_exited_jobs :
      Target → String → Act Event Thrown (Unit {0})
  unfolding remove_settled
  remove_other_deployments_exited_jobs target phase = do
    containers ← list_with h.list_service_jobs
    remove_settled (filter_by (is_swept target phase) containers)
