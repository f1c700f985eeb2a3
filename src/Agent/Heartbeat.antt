-- ===== src/Agent/Heartbeat.antt =====
-- `sendAgentHeartbeat` of agent/src/agent-heartbeat.ts over any dependencies, for any types of
-- configs and snapshots. `peers` answers the text of `JSON.stringify(config.trustedForwardedPeers
-- ?? [])`.
pub mod Laws
use nouva_agent.Prelude.{ℕ, ◌==◌, String, str_eq, Bool, not, List, ◌∷◌, if◌then◌else◌}
use nouva_agent.Prelude.Effects.{Answer, Act, pure, throw, call, catching, ◌>>=◌, ◌>>◌}

pub data Thrown : Type 0 where
  -- The heartbeat's own error, with the status of the response.
  failed_with : (status : ℕ) → Thrown
  dependency : Thrown

-- A response: its status, `ok`, and what reading its body gives.
pub record Response (C : Type 0) : Type 0 where
  pub status : ℕ
  pub ok : Bool
  pub config : Answer Thrown C

pub data Event (C : Type 0) : Type 0 where
  collected requested reregistered body_read : Event C
  reloaded reconciled : (next : C) → Event C

pub record Dependencies (C S : Type 0) : Type 0 where
  pub collect_snapshot : List (Event C) → C → Answer Thrown S
  pub request : List (Event C) → S → Answer Thrown (Response C)
  pub reregister : List (Event C) → C → Answer Thrown C
  pub reload_redaction_context : List (Event C) → C → C → Answer Thrown (Unit {0})
  pub reconcile_traefik : List (Event C) → C → Answer Thrown (Unit {0})
  pub peers : C → String

module _ {C S : Type 0} (d : Dependencies C S) where
  abbrev pub adopt_body : C → Response C → Act (Event C) Thrown C
  adopt_body config response = if not response.ok then throw (failed_with response.status) else (do
    next ← call body_read (λ t. response.config)
    call (reloaded next) (λ t. d.reload_redaction_context t next config)
    pure next)

  abbrev pub next_config : C → Response C → Act (Event C) Thrown C
  next_config config response =
      if response.status == 401
      then call reregistered (λ t. d.reregister t config)
      else adopt_body config response

  -- A failure to reconcile is only logged.
  abbrev pub adopt : C → C → Act (Event C) Thrown C
  adopt config next =
      if str_eq (d.peers next) (d.peers config)
      then pure next
      else (catching (call (reconciled next) (λ t. d.reconcile_traefik t next)) (λ x. pure tt)
          >> pure next)

  unfoldable pub send_agent_heartbeat : C → Act (Event C) Thrown C
  send_agent_heartbeat config = do
    snapshot ← call collected (λ t. d.collect_snapshot t config)
    response ← call requested (λ t. d.request t snapshot)
    next ← next_config config response
    adopt config next
