-- ===== src/Logs/Publisher/Tidy.antt =====
-- No entry stays behind in an open publisher, and no batch is too long.
use nouva_agent.Prelude.{
  ℕ, ◌≡◌, refl, ◌∙◌, ◌≤◌, ◌<◌, ◌+◌, leb, Bool, true, false, not, ◌||◌, List, [], ◌∷◌, ◌++◌, length,
  length-append, All, All-append, if◌then◌else◌, arith,
}
use nouva_agent.Logs.Publisher.Steps.{notice-AddsAll}
use nouva_agent.Logs.Publisher.{
  Entry, Limits, Publisher, create, shorten, capacity_notice, is_exit, flush, send_buffer,
  arm_timer, push, accept, give_notice, emit, timer_fires, close, Action, emits, fires, closes, act,
  run,
}

abbrev pub is_empty : List Entry → Bool
is_empty [] = true
is_empty (e ∷ es) = false

-- A closed publisher buffers nothing. An open one has its timer armed exactly while it buffers.
abbrev pub IsWatched : Bool → Bool → List Entry → Type 0
IsWatched true timer buffer = buffer ≡ []
IsWatched false timer buffer = timer ≡ not (is_empty buffer)

-- Besides, a full batch is never left in the buffer, and a batch that is sent is neither empty nor
-- over the size.
abbrev pub IsTidy : Limits → Publisher → Type 0
IsTidy l p =
    IsWatched p.closed p.timer p.buffer
    × (length p.buffer < l.flush_batch_size)
    × All (λ b. (1 ≤ length b) × (length b ≤ l.flush_batch_size)) p.sent

IsWatched-idle : (c : Bool) (b : List Entry) → b ≡ [] → IsWatched c false b
IsWatched-idle true b e = e
IsWatched-idle false b e = rw e refl

IsWatched-armed :
    (c t : Bool) (b : List Entry) → c ≡ false → t ≡ true → is_empty b ≡ false → IsWatched c t b
IsWatched-armed true t b o armed full = ground arith
IsWatched-armed false t b o armed full = rw (armed, full) refl

is_empty-append : (xs : List Entry) (e : Entry) → is_empty (xs ++ (e ∷ [])) ≡ false
is_empty-append [] e = refl
is_empty-append (x ∷ xs) e = refl

module _ (l : Limits) (room : 1 ≤ l.flush_batch_size) where
  abbrev AreSized : List (List Entry) → Type 0
  AreSized batches = All (λ b. (1 ≤ length b) × (length b ≤ l.flush_batch_size)) batches

  -- A flush of a buffer that is not over the size.
  send-IsTidy :
      (b : List Entry) (p : Publisher)
      → p.buffer ≡ b
      → length b ≤ l.flush_batch_size
      → AreSized p.sent
      → IsTidy l (send_buffer b p)
  send-IsTidy [] p e fits sent = (IsWatched-idle p.closed p.buffer e, rw e room, sent)
  send-IsTidy (x ∷ xs) p e fits sent =
      (IsWatched-idle p.closed [] refl, room, All-append _ p.sent _ sent ((ground arith, fits), tt))

  either-IsTidy :
      (b : Bool) (q r : Publisher)
      → (b ≡ true → IsTidy l q)
      → (b ≡ false → IsTidy l r)
      → IsTidy l (if b then q else r)
  either-IsTidy true q r f g = f refl
  either-IsTidy false q r f g = g refl

  push-IsTidy :
      (e : Entry) (p : Publisher)
      → p.closed ≡ false
      → length p.buffer < l.flush_batch_size
      → AreSized p.sent
      → IsTidy l (push l e p)
  unfolding push
  push-IsTidy e p o short sent =
      let q : Publisher = record p { buffer = p.buffer ++ (e ∷ []) } in
      let longer = length-append p.buffer (e ∷ []) in
      let kept = is_empty-append p.buffer e in
      either-IsTidy (leb l.flush_batch_size (length q.buffer)) (flush q) (arm_timer q)
        (λ full. send-IsTidy q.buffer q refl (omega arith) sent)
        (λ free.
          let small : length q.buffer < l.flush_batch_size = ground arith in
          either-IsTidy (p.timer || p.closed) q (record q { timer = true })
            (λ armed.
              (IsWatched-armed p.closed p.timer q.buffer o (ground arith) kept, small, sent))
            (λ idle. (IsWatched-armed p.closed true q.buffer o refl kept, small, sent)))

  accept-IsTidy :
      (e : Entry) (p : Publisher) → p.closed ≡ false → IsTidy l p → IsTidy l (accept l e p)
  accept-IsTidy e p o (watched, short, sent) =
      push-IsTidy (shorten l e) (record p { emitted = p.emitted + 1 }) o short sent

  notice-IsTidy :
      (now : ℕ) (p : Publisher) → p.closed ≡ false → IsTidy l p → IsTidy l (give_notice l now p)
  notice-IsTidy now p o (watched, short, sent) =
      either-IsTidy p.capacity_notice_sent p _ (λ c. (watched, short, sent))
        (λ c.
          push-IsTidy (capacity_notice l now) (record p { capacity_notice_sent = true }) o short
            sent)

  emit-IsTidy : (now : ℕ) (e : Entry) (p : Publisher) → IsTidy l p → IsTidy l (emit l now e p)
  unfolding emit
  emit-IsTidy now e p tidy =
      let q = give_notice l now p in
      let (f, n, c, same) = notice-AddsAll l now p in
      either-IsTidy p.closed p _ (λ c. tidy)
        (λ o.
          either-IsTidy (leb l.max_entries p.emitted) (if is_exit e then accept l e q else q)
            (accept l e p)
            (λ over.
              either-IsTidy (is_exit e) (accept l e q) q
                (λ exits. accept-IsTidy e q (same ∙ o) (notice-IsTidy now p o tidy))
                (λ stays. notice-IsTidy now p o tidy))
            (λ free. accept-IsTidy e p o tidy))

  fires-IsTidy : (p : Publisher) → IsTidy l p → IsTidy l (timer_fires p)
  unfolding timer_fires
  fires-IsTidy p (watched, short, sent) =
      either-IsTidy p.timer (flush p) p (λ armed. send-IsTidy p.buffer p refl (omega arith) sent)
        (λ idle. (watched, short, sent))

  close-IsTidy : (p : Publisher) → IsTidy l p → IsTidy l (close p)
  unfolding close
  close-IsTidy p (watched, short, sent) =
      either-IsTidy p.closed p (flush (record p { closed = true })) (λ c. (watched, short, sent))
        (λ o. send-IsTidy p.buffer (record p { closed = true }) refl (omega arith) sent)

  act-IsTidy : (a : Action) (p : Publisher) → IsTidy l p → IsTidy l (act l a p)
  act-IsTidy (emits now e) p tidy = emit-IsTidy now e p tidy
  act-IsTidy fires p tidy = fires-IsTidy p tidy
  act-IsTidy closes p tidy = close-IsTidy p tidy

  reached-IsTidy : (actions : List Action) (p : Publisher) → IsTidy l p → IsTidy l (run l actions p)
  reached-IsTidy [] p tidy = tidy
  reached-IsTidy (a ∷ later) p tidy = reached-IsTidy later (act l a p) (act-IsTidy a p tidy)

-- With a batch size of at least 1, after any entries, timers and closes in any order: a closed publisher
-- buffers nothing, an open one has its timer armed exactly while it buffers, a full batch is never
-- left in the buffer, and every batch that was sent has an entry and is not over the size.
pub run-IsTidy :
    (l : Limits) (actions : List Action) → 1 ≤ l.flush_batch_size → IsTidy l (run l actions create)
run-IsTidy l actions room = reached-IsTidy l room actions create (refl, room, tt)
