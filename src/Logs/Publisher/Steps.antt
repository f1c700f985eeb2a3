-- ===== src/Logs/Publisher/Steps.antt =====
-- What each step of a publisher does to the entries that it has taken.
use nouva_agent.Prelude.{
  ℕ, ◌≡◌, refl, ap, sym, subst, ◌∙◌, ◌+◌, leb, Bool, true, false, ◌||◌, List, [], ◌∷◌, ◌++◌, length,
  if◌then◌else◌, arith, Bool-cases, inl, inr,
}
use nouva_agent.Logs.Publisher.{
  Entry, Limits, Publisher, shorten, capacity_notice, is_exit, flush, send_buffer, arm_timer, push,
  accept, give_notice, emit, timer_fires, close,
}
use mathlib.Core.List.{append_assoc, append-nil}

abbrev pub concat : List (List Entry) → List Entry
concat [] = []
concat (batch ∷ batches) = batch ++ concat batches

-- What has been forwarded, in order: the batches, then what is buffered.
abbrev pub forwarded : Publisher → List Entry
forwarded p = concat p.sent ++ p.buffer

abbrev pub notice_of : Limits → ℕ → Bool → List Entry
notice_of l now true = []
notice_of l now false = capacity_notice l now ∷ []

pub concat-append : (xs ys : List (List Entry)) → concat (xs ++ ys) ≡ concat xs ++ concat ys
concat-append [] ys = refl
concat-append (x ∷ xs) ys =
    ap (λ zs. x ++ zs) (concat-append xs ys) ∙ sym (append_assoc x (concat xs) (concat ys))

-- What a push changes.
abbrev pub Adds : Entry → Publisher → Publisher → Type 0
Adds e p q =
    (forwarded q ≡ forwarded p ++ (e ∷ []))
    × (q.emitted ≡ p.emitted)
    × (q.capacity_notice_sent ≡ p.capacity_notice_sent)
    × (q.closed ≡ p.closed)

pub send-forwarded :
    (b : List Entry) (p : Publisher)
    → p.buffer ≡ b
    → forwarded (send_buffer b p) ≡ concat p.sent ++ b
send-forwarded [] p h = rw h refl
send-forwarded (e ∷ es) p h =
    append-nil (concat (p.sent ++ ((e ∷ es) ∷ [])))
    ∙ concat-append p.sent ((e ∷ es) ∷ [])
    ∙ ap (λ ys. concat p.sent ++ ys) (append-nil (e ∷ es))

pub send-keeps :
    (b : List Entry) (p : Publisher)
    → let q = send_buffer b p in
      (q.emitted ≡ p.emitted)
      × (q.capacity_notice_sent ≡ p.capacity_notice_sent)
      × (q.closed ≡ p.closed)
send-keeps [] p = (refl, refl, refl)
send-keeps (e ∷ es) p = (refl, refl, refl)

pub arm-keeps :
    (p : Publisher)
    → let q = arm_timer p in
      (forwarded q ≡ forwarded p)
      × (q.emitted ≡ p.emitted)
      × (q.capacity_notice_sent ≡ p.capacity_notice_sent)
      × (q.closed ≡ p.closed)
arm-keeps p = elim (Bool-cases (p.timer || p.closed)) [
  | inl done ↦ rw done (refl, refl, refl, refl)
  | inr idle ↦ rw idle (refl, refl, refl, refl)
]

pub push-Adds : (l : Limits) (e : Entry) (p : Publisher) → Adds e p (push l e p)
unfolding push
push-Adds l e p =
    let q : Publisher = record p { buffer = p.buffer ++ (e ∷ []) } in
    let longer : forwarded q ≡ forwarded p ++ (e ∷ []) =
      sym (append_assoc (concat p.sent) p.buffer (e ∷ [])) in
    elim (Bool-cases (leb l.flush_batch_size (length (p.buffer ++ (e ∷ []))))) [
      | inl full ↦
          let (n, c, d) = send-keeps q.buffer q in
          rw full (send-forwarded q.buffer q refl ∙ longer, n, c, d)
      | inr room ↦ let (f, n, c, d) = arm-keeps q in rw room (f ∙ longer, n, c, d)
    ]

-- What leaves the forwarded entries and the counts as they are.
abbrev pub Keeps : Publisher → Publisher → Type 0
Keeps p q =
    (forwarded q ≡ forwarded p)
    × (q.emitted ≡ p.emitted)
    × (q.capacity_notice_sent ≡ p.capacity_notice_sent)
    × (q.closed ≡ p.closed)

pub flush-Keeps : (p : Publisher) → Keeps p (flush p)
flush-Keeps p = let (n, c, d) = send-keeps p.buffer p in (send-forwarded p.buffer p refl, n, c, d)

pub either-Keeps :
    (b : Bool) (p q r : Publisher) → Keeps p q → Keeps p r → Keeps p (if b then q else r)
either-Keeps true p q r h k = h
either-Keeps false p q r h k = k

pub fires-Keeps : (p : Publisher) → Keeps p (timer_fires p)
unfolding timer_fires
fires-Keeps p = either-Keeps p.timer p (flush p) p (flush-Keeps p) (refl, refl, refl, refl)

pub if-true : (b : Bool) (q r : Publisher) → b ≡ true → (if b then q else r) ≡ q
if-true true q r h = refl
if-true false q r h = ground arith

pub if-false : (b : Bool) (q r : Publisher) → b ≡ false → (if b then q else r) ≡ r
if-false false q r h = refl
if-false true q r h = ground arith

pub emit-closed :
    (l : Limits) (now : ℕ) (e : Entry) (p : Publisher) → p.closed ≡ true → emit l now e p ≡ p
unfolding emit
emit-closed l now e p c = if-true p.closed p _ c

pub close-closed : (p : Publisher) → p.closed ≡ true → close p ≡ p
unfolding close
close-closed p c = if-true p.closed p _ c

-- What an entry adds to an open publisher, and the counts after it.
abbrev pub AddsAll : List Entry → ℕ → Bool → Publisher → Publisher → Type 0
AddsAll es n noticed p q =
    (forwarded q ≡ forwarded p ++ es)
    × (q.emitted ≡ n)
    × (q.capacity_notice_sent ≡ noticed)
    × (q.closed ≡ p.closed)

pub accept-AddsAll :
    (l : Limits) (e : Entry) (p : Publisher)
    → AddsAll (shorten l e ∷ []) (p.emitted + 1) p.capacity_notice_sent p (accept l e p)
accept-AddsAll l e p = push-Adds l (shorten l e) (record p { emitted = p.emitted + 1 })

pub notice-AddsAll :
    (l : Limits) (now : ℕ) (p : Publisher)
    → AddsAll (notice_of l now p.capacity_notice_sent) p.emitted true p (give_notice l now p)
notice-AddsAll l now p = go p.capacity_notice_sent refl
  where
    go :
        (b : Bool)
        → p.capacity_notice_sent ≡ b
        → AddsAll (notice_of l now b) p.emitted true p (
            if b
            then p
            else push l (capacity_notice l now) (record p { capacity_notice_sent = true }))
    go true e = (sym (append-nil (forwarded p)), refl, e, refl)
    go false e = push-Adds l (capacity_notice l now) (record p { capacity_notice_sent = true })

pub AddsAll-append :
    (es fs : List Entry) (n m : ℕ) (a b : Bool) (p q r : Publisher)
    → AddsAll es n a p q
    → AddsAll fs m b q r
    → AddsAll (es ++ fs) m b p r
AddsAll-append es fs n m a b p q r (f, _, _, d) (g, n', c', d') =
    (g ∙ ap (λ xs. xs ++ fs) f ∙ append_assoc (forwarded p) es fs, n', c', d' ∙ d)

-- An entry past the limit.
pub late-AddsAll :
    (l : Limits) (e : Entry) (p : Publisher) (exits : Bool)
    → p.capacity_notice_sent ≡ true
    → AddsAll
        (if exits then shorten l e ∷ [] else [])
        (if exits then p.emitted + 1 else p.emitted)
        true
        p
        (if exits then accept l e p else p)
late-AddsAll l e p true noticed = let (f, n, c, d) = accept-AddsAll l e p in (f, n, c ∙ noticed, d)
late-AddsAll l e p false noticed = (sym (append-nil (forwarded p)), refl, noticed, refl)

pub emit-open :
    (l : Limits) (now : ℕ) (e : Entry) (p : Publisher)
    → p.closed ≡ false
    → emit l now e p ≡ (
        if leb l.max_entries p.emitted
        then (if is_exit e then accept l e (give_notice l now p) else give_notice l now p)
        else accept l e p)
unfolding emit
emit-open l now e p o = if-false p.closed p _ o

-- What an entry is taken to add, and the counts.
abbrev pub added : Limits → ℕ → Entry → ℕ → Bool → List Entry
added l now e n noticed =
    if leb l.max_entries n
    then notice_of l now noticed ++ (if is_exit e then shorten l e ∷ [] else [])
    else shorten l e ∷ []

abbrev pub counted : Limits → Entry → ℕ → ℕ
counted l e n = if leb l.max_entries n then (if is_exit e then n + 1 else n) else n + 1

abbrev pub noticed_after : Limits → ℕ → Bool → Bool
noticed_after l n noticed = if leb l.max_entries n then true else noticed

pub emit-AddsAll :
    (l : Limits) (now : ℕ) (e : Entry) (p : Publisher)
    → p.closed ≡ false
    → AddsAll
        (added l now e p.emitted p.capacity_notice_sent)
        (counted l e p.emitted)
        (noticed_after l p.emitted p.capacity_notice_sent)
        p
        (emit l now e p)
emit-AddsAll l now e p o = rw (emit-open l now e p o) (go (leb l.max_entries p.emitted))
  where
    late :
        AddsAll
          (notice_of l now p.capacity_notice_sent ++ (if is_exit e then shorten l e ∷ [] else []))
          (if is_exit e then p.emitted + 1 else p.emitted)
          true
          p
          (if is_exit e then accept l e (give_notice l now p) else give_notice l now p)
    late =
        let h = notice-AddsAll l now p in
        let (f, n, c, d) = h in
        AddsAll-append (notice_of l now p.capacity_notice_sent)
          (if is_exit e then shorten l e ∷ [] else []) p.emitted
          (if is_exit e then p.emitted + 1 else p.emitted) true true p (give_notice l now p)
          (if is_exit e then accept l e (give_notice l now p) else give_notice l now p) h
          (subst
            (λ m.
              AddsAll (if is_exit e then shorten l e ∷ [] else []) (if is_exit e then m + 1 else m)
                true (give_notice l now p)
                (if is_exit e then accept l e (give_notice l now p) else give_notice l now p))
            n (late-AddsAll l e (give_notice l now p) (is_exit e) c))

    go :
        (b : Bool)
        → AddsAll
            (if b
              then notice_of l now p.capacity_notice_sent
                ++ (if is_exit e then shorten l e ∷ [] else [])
              else shorten l e ∷ [])
            (if b then (if is_exit e then p.emitted + 1 else p.emitted) else p.emitted + 1)
            (if b then true else p.capacity_notice_sent)
            p
            (if b
              then (if is_exit e then accept l e (give_notice l now p) else give_notice l now p)
              else accept l e p)
    go true = late
    go false = accept-AddsAll l e p
