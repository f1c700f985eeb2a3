-- ===== src/Agent/Heartbeat/Laws.antt =====
-- Which config a heartbeat adopts.
use nouva_agent.Prelude.{
  if◌then◌else◌, ◌≡◌, refl, ◌==◌, str_eq, true, false, List, [], ◌∷◌, Bool-cases, inl, inr,
}
use nouva_agent.Prelude.Effects.{value, Answer-cases, ok}
use nouva_agent.Agent.Heartbeat.{
  Response, Event, Dependencies, collected, requested, body_read, reloaded, reconciled,
  send_agent_heartbeat, adopt,
}

-- The history after a config is adopted: one reconciliation exactly when the trusted peers changed.
abbrev pub adopted : {C S : Type 0} → Dependencies C S → C → C → List (Event C) → List (Event C)
adopted d config next t = if str_eq (d.peers next) (d.peers config) then t else reconciled next ∷ t

adopt_returns :
    {C S : Type 0} (d : Dependencies C S) (config next : C) (t : List (Event C))
    → adopt d config next t ≡ (ok next, adopted d config next t)
adopt_returns d config next t = elim (Bool-cases (str_eq (d.peers next) (d.peers config))) [
  | inl same ↦ rw same refl
  | inr changed ↦ elim (Answer-cases (d.reconcile_traefik t next)) [
    | inl (o, e) ↦ rw (changed, e) refl
    | inr (x, e) ↦ rw (changed, e) refl
  ]
]

-- The response's config is adopted whatever Traefik answers: with a response that is `ok` and not
-- 401, a body and a reload that work, the heartbeat returns that config, and it asks for one
-- reconciliation exactly when the trusted peers changed.
pub heartbeat_adopts :
    {C S : Type 0} (d : Dependencies C S) (config next : C) (snapshot : S) (response : Response C)
    → d.collect_snapshot [] config ≡ value snapshot
    → d.request (collected ∷ []) snapshot ≡ value response
    → (response.status == 401) ≡ false
    → response.ok ≡ true
    → response.config ≡ value next
    → d.reload_redaction_context (body_read ∷ requested ∷ collected ∷ []) next config ≡ value tt
    → send_agent_heartbeat d config []
      ≡ (ok next, adopted d config next (reloaded next ∷ body_read ∷ requested ∷ collected ∷ []))
unfolding send_agent_heartbeat
heartbeat_adopts d config next snapshot response s r other fine body reload =
    rw (s, r, other, fine, body, reload) (adopt_returns d config next _)
