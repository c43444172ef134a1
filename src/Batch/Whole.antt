-- ===== src/Batch/Whole.antt =====
-- The grouping stages lose no item and keep the order: the rule Conserves holds of each.
use go_kitsune.Prelude.{
  ◌≡◌, refl, Bool, false, List, [], ◌∷◌, ◌++◌, Option, append-nil, flatten, arith, inl, inr,
  Bool-cases, if◌then◌else◌,
}
use go_kitsune.Keys.{Eq}
use go_kitsune.Stage.{Event, closed, feed, contents, Room, Trace, never, returned, run, cut}
use go_kitsune.Stage.Rules.{Conserves, Kept, Flushed, run_delivers}
use go_kitsune.Batch.{
  BatchConfig, Buffered, Session, Chunk, no_items, flush, flush_of, flush_and_return, measured,
  end_session, no_session, new_chunk, batch_loop, buffer_with_loop, session_loop, chunk_by_loop,
  chunk_while_loop, accept, should_flush, chunk_item,
}

module _ {ℓ} {T : Type ℓ} where
  flush_of-Kept :
      (xs : List T) (s : Buffered T) → s.buf ≡ xs → Kept (λ s'. s'.buf) (flush_of xs s) xs
  unfolding flatten
  flush_of-Kept [] s h = (refl, h)
  flush_of-Kept (x ∷ xs) s h = (refl, simp append-nil)

  flush_and_return-Flushed {κ} :
      (S : Type κ) (xs : List T) → Flushed (flush_and_return {S = S} xs) xs
  unfolding flatten
  flush_and_return-Flushed S [] = (refl, refl, refl)
  flush_and_return-Flushed S (x ∷ xs) = (refl, simp append-nil, refl)

  accept-Kept :
      (c : BatchConfig T) (s : Buffered T) (x : T)
      → Kept (λ s'. s'.buf) (accept c s x) (s.buf ++ x ∷ [])
  unfolding accept flatten
  accept-Kept c s x =
      let s' : Buffered T = record { buf = s.buf ++ x ∷ []; measure = measured c s x } in
      elim (Bool-cases (should_flush c s')) [
        | inl full ↦ rw full (flush_of-Kept (s.buf ++ x ∷ []) s' refl)
        | inr room ↦ rw room (refl, refl)
      ]

  signal-Kept :
      (c : BatchConfig T) (s : Buffered T)
      → Kept (λ s'. s'.buf) (if c.timed then flush s else never s) s.buf
  unfolding flatten
  signal-Kept c s = elim (Bool-cases c.timed) [
    | inl timed ↦ rw timed (flush_of-Kept s.buf s refl)
    | inr untimed ↦ rw untimed (refl, refl)
  ]

  batch-Conserves :
      (c : BatchConfig T) → c.drop_partial ≡ false → Conserves (batch_loop c) (λ s. s.buf)
  unfolding batch_loop
  batch-Conserves c keep = record {
    endless_lem = λ s. refl;
    item_kept = accept-Kept c;
    signal_kept = signal-Kept c;
    closed_flushed = λ s. rw keep (flush_and_return-Flushed _ s.buf);
  }

  buffer_with-Conserves : Conserves (buffer_with_loop {T = T}) (λ s. s.buf)
  unfolding buffer_with_loop flatten
  buffer_with-Conserves = record {
    endless_lem = λ s. refl;
    item_kept = λ s x. (refl, refl);
    signal_kept = λ s. flush_of-Kept s.buf s refl;
    closed_flushed = λ s. flush_and_return-Flushed _ s.buf;
  }

  end_session-Kept : (xs : List T) → Kept (λ (s : Session T). s.buf) (end_session xs) xs
  unfolding flatten
  end_session-Kept [] = (refl, refl)
  end_session-Kept (x ∷ xs) = (refl, simp append-nil)

  session-Conserves : Conserves (session_loop {T = T}) (λ s. s.buf)
  unfolding session_loop flatten
  session-Conserves = record {
    endless_lem = λ s. refl;
    item_kept = λ s x. (refl, refl);
    signal_kept = λ s. elim (Bool-cases s.timer_active) [
      | inl active ↦ rw active (end_session-Kept s.buf)
      | inr idle ↦ rw idle (refl, refl)
    ];
    closed_flushed = λ s. flush_and_return-Flushed _ s.buf;
  }

  chunk_while_item-Kept :
      (pred : T → T → Bool) (buf : List T) (x : T)
      → Kept (λ b. b) ((chunk_while_loop pred).on_item buf x) (buf ++ x ∷ [])
  unfolding chunk_while_loop flatten
  chunk_while_item-Kept pred buf x = ground (arith, append-nil buf)

  chunk_while-Conserves : (pred : T → T → Bool) → Conserves (chunk_while_loop pred) (λ buf. buf)
  unfolding chunk_while_loop flatten
  chunk_while-Conserves pred = record {
    endless_lem = λ buf. refl;
    item_kept = chunk_while_item-Kept pred;
    signal_kept = λ buf. (refl, refl);
    closed_flushed = flush_and_return-Flushed _;
  }

  new_chunk-Kept {κ} :
      {K : Type κ} ⦃e : Eq K⦄ (buf : List T) (x : T) (k : K)
      → Kept (λ (s : Chunk T K). s.buf) (new_chunk buf x k) (buf ++ x ∷ [])
  unfolding flatten
  new_chunk-Kept [] x k = (refl, refl)
  new_chunk-Kept (y ∷ ys) x k = (refl, simp append-nil)

  chunk_item-Kept {κ} :
      {K : Type κ} ⦃e : Eq K⦄ (key_fn : T → K) (s : Chunk T K) (x : T)
      → Kept (λ s'. s'.buf) (chunk_item key_fn s x) (s.buf ++ x ∷ [])
  unfolding chunk_item flatten
  chunk_item-Kept key_fn s x = ground (arith, new_chunk-Kept s.buf x (key_fn x))

  chunk_by-Conserves {κ} :
      {K : Type κ} ⦃e : Eq K⦄ (key_fn : T → K) → Conserves (chunk_by_loop key_fn) (λ s. s.buf)
  unfolding chunk_by_loop flatten
  chunk_by-Conserves key_fn = record {
    endless_lem = λ s. refl;
    item_kept = λ s x. chunk_item-Kept key_fn s x;
    signal_kept = λ s. (refl, refl);
    closed_flushed = λ s. flush_and_return-Flushed _ s.buf;
  }

  -- Batch without DropPartial: however the ticks of its ticker fall between the items, the batches
  -- put together are the items in order, and the stage returns nil; if its sends are interrupted
  -- after some number of them, it delivers that many of those batches.
  pub run-batch_loop_whole :
      (c : BatchConfig T) (r : Room) (fs : List (Option T)) (es : List (Event T))
      → c.drop_partial ≡ false
      → (t : Trace (List T)) × (flatten t.out ≡ contents fs)
        × (t.ending ≡ returned)
        × (run (batch_loop c) r no_items (feed fs ++ closed ∷ es) ≡ cut (batch_loop c) r t)
  run-batch_loop_whole c r fs es keep = run_delivers (batch-Conserves c keep) r no_items fs es

  -- BufferWith and SessionWindow: however the signals of the closing selector, or the expiries of
  -- the gap timer, fall between the items, the groups put together are the items in order, and the
  -- stage returns nil; interrupted sends leave a first part of those groups.
  pub run_windows_whole :
      (r : Room) (fs : List (Option T)) (es : List (Event T))
      → ((t : Trace (List T)) × (flatten t.out ≡ contents fs)
          × (t.ending ≡ returned)
          × (run buffer_with_loop r no_items (feed fs ++ closed ∷ es) ≡ cut buffer_with_loop r t))
        × ((t : Trace (List T)) × (flatten t.out ≡ contents fs)
            × (t.ending ≡ returned)
            × (run session_loop r no_session (feed fs ++ closed ∷ es) ≡ cut session_loop r t))
  run_windows_whole r fs es = (
    run_delivers buffer_with-Conserves r no_items fs es,
    run_delivers session-Conserves r no_session fs es,
  )
