-- ===== src/Worker/Policy.antt =====
-- The vocabulary of the shutdown policy of a worker: packages/runtime/src/worker-shutdown.ts.
use nouva_agent.Prelude.{ℕ, String, Option, none, List, [], ◌∷◌}

pub data RolloutPolicy : Type 0 where
  overlap no_overlap : RolloutPolicy

pub data Role : Type 0 where
  previous surplus candidate : Role

pub data StopOutcome : Type 0 where
  exited forced already_stopped hung unconfirmed : StopOutcome

-- `WORKER_SHUTDOWN_SIGNALS`.
abbrev pub shutdown_signals : List String
shutdown_signals = "SIGTERM" ∷ "SIGINT" ∷ "SIGQUIT" ∷ "SIGHUP" ∷ "SIGUSR1" ∷ "SIGUSR2" ∷ []

abbrev pub min_grace_seconds : ℕ
min_grace_seconds = 1

abbrev pub max_grace_seconds : ℕ
max_grace_seconds = 3600

pub record ShutdownPolicy : Type 0 where
  -- `none` keeps the image's own stop signal.
  pub signal : Option String
  pub grace_seconds : ℕ
  pub rollout_policy : RolloutPolicy

abbrev pub default_policy : ShutdownPolicy
default_policy = record { signal = none; grace_seconds = 30; rollout_policy = overlap }
