-- ===== src/Service/Update.antt =====
-- agent/src/update-agent.ts: the payload of an agent update, what its completion report came to, and
-- the drain before the updater starts. A field of a payload that is no string is `none`.
pub mod Laws
use Prim.Native.Nat.{zero, suc}
use Prim.Native.Char.{code}
use Prim.Native.String
use Prim.Native.String.{String, [], ◌∷◌}
use nouva_agent.Prelude.{
  ℕ, ◌+◌, leb, ◌==◌, ◌<>◌, str_eq, trim, Bool, true, false, not, ◌&&◌, ◌||◌, Option, none, some,
  List, if◌then◌else◌,
}
use nouva_agent.Prelude.Effects.{Answer, value, Act, pure, no_fuel, call, ◌>>=◌, ◌>>◌, ok}
use nouva_agent.Work.Reporting.{Thrown, is_transient}

pub record Payload : Type 0 where
  pub release_id : Option String
  pub version : Option String
  pub image_ref : Option String
  pub image_tag : Option String

-- An empty string counts as missing.
abbrev pub filled : Option String → Option String
filled none = none
filled (some []) = none
filled (some (c ∷ s)) = some (c ∷ s)

abbrev pub trimmed : Option String → Option String
trimmed none = none
trimmed (some s) = filled (some (trim s))

abbrev is_missing : Option String → Bool
is_missing none = true
is_missing (some s) = false

-- `none` stands for the error about a payload without an image.
unfoldable pub to_update_agent_payload : Payload → Option Payload
to_update_agent_payload p =
    if is_missing (trimmed p.image_ref) && is_missing (trimmed p.image_tag)
    then none
    else some (record {
      release_id = filled p.release_id;
      version = filled p.version;
      image_ref = filled p.image_ref;
      image_tag = filled p.image_tag;
    })

abbrev first_of : Option String → Option String → Option String
first_of none b = b
first_of (some a) b = some a

unfoldable pub resolve_update_agent_image_ref : Payload → Option String
resolve_update_agent_image_ref p = first_of (trimmed p.image_ref) (trimmed p.image_tag)

unfoldable pub normalize_version : String → String
normalize_version [] = "v"
normalize_version (c ∷ s) = if code c == 118 then c ∷ s else "v" <> (c ∷ s)

abbrev is_image : String → Option String → Bool
is_image image none = false
is_image image (some ref) = str_eq (trim image) ref

abbrev is_version : String → Option String → Bool
is_version version none = false
is_version version (some requested) =
    str_eq (normalize_version (trim version)) (normalize_version requested)

abbrev is_throwing : Option String → Bool
is_throwing none = true
is_throwing (some ref) = false

-- `none` where resolving the image throws, which a payload with a version but no image does.
unfoldable pub is_agent_update_already_applied : String → String → Payload → Option Bool
unfolding resolve_update_agent_image_ref
is_agent_update_already_applied image version p =
    let ref = resolve_update_agent_image_ref p in
    let requested = trimmed p.version in
    if is_missing requested
    then some false
    else if is_throwing ref
    then none
    else some (is_image image ref && is_version version requested)

pub data Delivery : Type 0 where
  pending delivered unconfirmed rejected : Delivery

-- `none` for an attempt that was accepted.
unfoldable pub record_attempt : Delivery → Option Thrown → Delivery
record_attempt current none = delivered
record_attempt unconfirmed (some x) = unconfirmed
record_attempt current (some x) = if is_transient x then unconfirmed else rejected

abbrev pub should_start_agent_updater : Delivery → Bool
should_start_agent_updater delivered = true
should_start_agent_updater unconfirmed = true
should_start_agent_updater _ = false

pub data Event : Type 0 where
  slept : (ms : ℕ) → Event
  updater_started : Event

pub record Host : Type 0 where
  pub is_work_active : List Event → Bool
  pub start_updater : List Event → Answer Thrown (Unit {0})
  pub now : List Event → ℕ

module _ (h : Host) (poll_interval_ms : ℕ) where
  abbrev clock : Act Event Thrown ℕ
  clock t = (ok (h.now t), t)

  abbrev ask_active : Act Event Thrown Bool
  ask_active t = (ok (h.is_work_active t), t)

  unfoldable pub drain : ℕ → ℕ → Act Event Thrown (Unit {0})
  drain zero deadline = no_fuel
  drain (suc fuel) deadline =
      let again = drain fuel deadline in
      do
        active ← ask_active
        now ← clock
        if not active || leb deadline now
            then pure tt
            else call (slept poll_interval_ms) (λ t. value tt) >> again

  unfoldable pub start_agent_updater_after_drain : ℕ → ℕ → Act Event Thrown (Unit {0})
  unfolding drain
  start_agent_updater_after_drain fuel drain_timeout_ms = do
    started ← clock
    drain fuel (started + drain_timeout_ms)
    call updater_started h.start_updater
