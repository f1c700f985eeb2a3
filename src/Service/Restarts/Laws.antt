-- ===== src/Service/Restarts/Laws.antt =====
-- What the restarts of a loop are bounded by.
use nouva_agent.Prelude.{
  to_lower, str_eq, ◌≡◌, ℕ, ◌-◌, ◌+◌, ◌≤◌, ◌<◌, ◌*◌, String, true, Option, some, arith,
}
use nouva_agent.Service.Restarts.{
  Inspection, recent_exit_window_ms, read_restart_count, count_restart_loop,
}

-- A restart loop is never reported without evidence: where restarts are counted, Docker's restart
-- count and the exits that its log holds for the last five minutes are both at least that many.
pub loop-evidence :
    (exits : String → ℕ → ℕ → Option ℕ) (date_parse : String → Option ℕ) (i : Inspection)
    (until threshold : ℕ)
    → 0 < count_restart_loop exits date_parse i until threshold
    → (n : ℕ) × (exits i.id (until - recent_exit_window_ms) until ≡ some n)
      × (count_restart_loop exits date_parse i until threshold ≤ n)
      × (count_restart_loop exits date_parse i until threshold ≤ read_restart_count (some i))
unfolding count_restart_loop
loop-evidence exits date_parse i until threshold e = ground arith

-- A container that reports running, and that started early enough, is in no loop.
pub recovered_counts_none :
    (exits : String → ℕ → ℕ → Option ℕ) (date_parse : String → Option ℕ) (i : Inspection)
    (until threshold started : ℕ) (status text : String)
    → i.running ≡ some true
    → i.status ≡ some status
    → str_eq (to_lower status) "running" ≡ true
    → i.started_at ≡ some text
    → date_parse text ≡ some started
    → started * threshold + recent_exit_window_ms ≤ until * threshold
    → count_restart_loop exits date_parse i until threshold ≡ 0
unfolding count_restart_loop
recovered_counts_none exits date_parse i until threshold started status text r s l a d early =
    rw (r, s, a, d) (ground (arith, early, l))
