-- ===== src/Release/Jobs/Tests.antt =====
-- A run of the sweeps.
use nouva_agent.Prelude.{some, none, [], ◌∷◌, false, true}
use nouva_agent.Prelude.Number.{of_ℕ}
use nouva_agent.Prelude.Effects.{value}
use nouva_agent.Release.Claim.{skip}
use nouva_agent.Release.Outside.{Container, Host}
use nouva_agent.Release.Jobs.{
  Target, read_running_jobs, remove_settled_attempts, remove_other_deployments_exited_jobs,
}
use nouva_agent.Release.Jobs.Laws.{IsLook, IsSweep, EndsKept, jobs_careful}

-- A job of another deployment that is past its deadline, and one that has exited.
abbrev late : Container
late = record {
  id = "c1";
  running = some true;
  status = some "running";
  exit_code = none;
  started_at = some "1970-01-01T00:00:00Z";
  finished_at = none;
  deployment_id = some "d0";
  phase = some "pre_activation";
  timeout_seconds = of_ℕ 60;
}

abbrev exited : Container
exited = record late { id = "c2"; running = some false; status = some "exited" }

abbrev host : Host
host = record {
  list_service_jobs = λ t. value (late ∷ exited ∷ []);
  list_attempts = λ t. value (exited ∷ []);
  stop = λ t id. value tt;
  inspect = λ t id. value (some exited);
  remove = λ t id. value tt;
  prepare_image = λ t. value tt;
  claim = λ t jobs. value (skip 1);
  report = λ t r. value tt;
  resolve_policy = λ t o. value none;
  create_own = λ t spec. value tt;
  start_own = λ t. value tt;
  inspect_own = λ t. value none;
  stop_own = λ t. value tt;
  remove_own = λ t. value tt;
  read_logs = λ t. value tt;
  has_build_log = false;
  now = λ t. 100000;
  date_parse = λ s. some 0;
  error_text = λ x. "error";
}

abbrev target : Target
target = record {
  service_id = "service-1";
  deployment_id = "d1";
  image = "registry/app:1";
  network_name = "project";
  env_vars = [];
  labels = [];
  resource_settings = record {
    nano_cpus = 500000000;
    memory = 1024;
    memory_swap = 1024;
    pids_limit = 64;
  };
}

jobs_careful_example :
    EndsKept (IsLook host) (read_running_jobs host target "pre_activation" [])
    × EndsKept IsSweep (remove_settled_attempts host [])
    × EndsKept IsSweep (remove_other_deployments_exited_jobs host target "pre_activation" [])
jobs_careful_example = jobs_careful host target "pre_activation"
