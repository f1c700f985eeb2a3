-- ===== src/Logs/Publisher/Laws.antt =====
-- What a publisher forwards, and that nothing stays behind.
use nouva_agent.Prelude.{
  ℕ, ◌≡◌, refl, ap, sym, ◌∙◌, ◌+◌, leb, Bool, true, false, List, [], ◌∷◌, ◌++◌, if◌then◌else◌,
  Bool-cases, inl, inr,
}
use nouva_agent.Logs.Publisher.{
  Entry, Limits, Publisher, create, shorten, is_exit, flush, emit, timer_fires, close, Action,
  emits, fires, closes, run,
}
use mathlib.Core.List.{append_assoc, append-nil}
use nouva_agent.Logs.Publisher.Steps.{
  forwarded, notice_of, flush-Keeps, fires-Keeps, if-false, emit-closed, close-closed, added,
  counted, noticed_after, emit-AddsAll,
}

-- What is forwarded of some actions: the first entries up to the limit, then one notice at the first
-- entry past it and every exit, until the close.
abbrev pub expected : Limits → ℕ → Bool → List Action → List Entry
expected l n noticed [] = []
expected l n noticed (closes ∷ later) = []
expected l n noticed (fires ∷ later) = expected l n noticed later
expected l n noticed (emits now e ∷ later) =
    let kept = shorten l e ∷ expected l (n + 1) noticed later in
    let late = shorten l e ∷ expected l (n + 1) true later in
    let gone = expected l n true later in
    if leb l.max_entries n
    then notice_of l now noticed ++ (if is_exit e then late else gone)
    else kept

run-closed :
    (l : Limits) (later : List Action) (p : Publisher)
    → p.closed ≡ true
    → forwarded (run l later p) ≡ forwarded p
run-closed l [] p c = refl
run-closed l (emits now e ∷ later) p c =
    ap (λ q. forwarded (run l later q)) (emit-closed l now e p c) ∙ run-closed l later p c
run-closed l (closes ∷ later) p c =
    ap (λ q. forwarded (run l later q)) (close-closed p c) ∙ run-closed l later p c
run-closed l (fires ∷ later) p c =
    let (f, n, d, o) = fires-Keeps p in run-closed l later (timer_fires p) (o ∙ c) ∙ f

expected-next :
    (l : Limits) (now : ℕ) (e : Entry) (n : ℕ) (noticed : Bool) (later : List Action)
    → expected l n noticed (emits now e ∷ later)
      ≡ added l now e n noticed ++ expected l (counted l e n) (noticed_after l n noticed) later
expected-next l now e n noticed later = elim (Bool-cases (leb l.max_entries n)) [
  | inr room ↦ rw room refl
  | inl over ↦ elim (Bool-cases (is_exit e)) [
    | inl exits ↦
        rw (over, exits)
          (sym (
            append_assoc (notice_of l now noticed) (shorten l e ∷ [])
              (expected l (n + 1) true later)))
    | inr stays ↦
        rw (over, stays)
          (ap (λ xs. xs ++ expected l n true later) (sym (append-nil (notice_of l now noticed))))
  ]
]

close-Keeps :
    (p : Publisher)
    → p.closed ≡ false
    → (forwarded (close p) ≡ forwarded p) × ((close p).closed ≡ true)
unfolding close
close-Keeps p o =
    let (f, n, c, d) = flush-Keeps (record p { closed = true }) in
    rw (if-false p.closed p (flush (record p { closed = true })) o) (f, d)

run-open :
    (l : Limits) (later : List Action) (p : Publisher)
    → p.closed ≡ false
    → forwarded (run l later p) ≡ forwarded p ++ expected l p.emitted p.capacity_notice_sent later
run-open l [] p o = sym (append-nil (forwarded p))
run-open l (closes ∷ later) p o =
    let (f, c) = close-Keeps p o in
    run-closed l later (close p) c ∙ f ∙ sym (append-nil (forwarded p))
run-open l (fires ∷ later) p o =
    let (f, n, c, d) = fires-Keeps p in
    let q = timer_fires p in
    run-open l later q (d ∙ o)
    ∙ ap (λ xs. xs ++ expected l q.emitted q.capacity_notice_sent later) f
    ∙ ap (λ m. forwarded p ++ expected l m q.capacity_notice_sent later) n
    ∙ ap (λ b. forwarded p ++ expected l p.emitted b later) c
run-open l (emits now e ∷ later) p o =
    let (f, n, c, d) = emit-AddsAll l now e p o in
    let q = emit l now e p in
    let es = added l now e p.emitted p.capacity_notice_sent in
    run-open l later q (d ∙ o)
    ∙ ap (λ xs. xs ++ expected l q.emitted q.capacity_notice_sent later) f
    ∙ ap (λ m. (forwarded p ++ es) ++ expected l m q.capacity_notice_sent later) n
    ∙ ap (λ b. (forwarded p ++ es) ++ expected l (counted l e p.emitted) b later) c
    ∙ append_assoc (forwarded p) es _
    ∙ ap (λ xs. forwarded p ++ xs)
        (sym (expected-next l now e p.emitted p.capacity_notice_sent later))

-- Whatever entries, timers and closes come, in any order: the batches that are sent, followed by what
-- is buffered, are the entries that the limit lets through, in their order, none of them lost or
-- sent twice.
pub run_refines :
    (l : Limits) (actions : List Action)
    → forwarded (run l actions create) ≡ expected l 0 false actions
run_refines l actions = run-open l actions create refl
