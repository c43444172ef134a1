-- ===== src/Batch.antt =====
-- batch.go: Batch, BufferWith, Unbatch, SlidingWindow, SessionWindow, ChunkBy and ChunkWhile, each
-- as the loop of its stage function. A measure is a number without the wrap-around of Go's int.
pub mod Whole
pub mod Bounds
pub mod Sliding
pub mod Chunks
use go_kitsune.Prelude.{
  ℕ, ◌+◌, Bool, true, false, not, ◌&&◌, ◌||◌, List, [], ◌∷◌, ◌++◌, Option, none, some, length, drop,
  get_last?, ltb, leb, ◌==◌, if◌then◌else◌,
}
use go_kitsune.Keys.{Eq, ◌==◌ as key_eq}
use go_kitsune.Stage.{Action, continue, finish, returned, Loop, never, endless, outbox_send}

-- The fields of stageConfig that Batch reads; `timed` says that batchTimeout is not 0.
pub record BatchConfig {ℓ} (T : Type ℓ) : Type ℓ where
  pub batch_count : ℕ
  pub batch_measure_fn : Option (T → ℕ)
  pub batch_measure_max : ℕ
  pub timed : Bool
  pub drop_partial : Bool

-- The variables `buf` and `measure` of the stage.
pub record Buffered {ℓ} (T : Type ℓ) : Type ℓ where
  pub buf : List T
  pub measure : ℕ

-- The guard of SlidingWindow, which panics where it is false.
abbrev pub window_ok : ℕ → ℕ → Bool
window_ok size step = ltb 0 step && leb step size

module _ {ℓ} {T : Type ℓ} where
  -- The guard of Batch, which panics at construction where this is false.
  abbrev pub has_trigger : BatchConfig T → Bool
  has_trigger c = elim c.batch_measure_fn [
    | some f ↦ true
    | none ↦ not (c.batch_count == 0) || c.timed
  ]

  abbrev pub no_items : Buffered T
  no_items = record { buf = []; measure = 0 }

  -- `flush`: an empty buffer sends nothing.
  abbrev pub flush_of : List T → Buffered T → Action (Buffered T) (List T)
  flush_of [] s = continue [] s
  flush_of (x ∷ xs) s = continue ((x ∷ xs) ∷ []) no_items

  abbrev pub flush : Buffered T → Action (Buffered T) (List T)
  flush s = flush_of s.buf s

  -- `return flush()`.
  abbrev pub flush_and_return {κ} : {S : Type κ} → List T → Action S (List T)
  flush_and_return [] = finish [] returned
  flush_and_return (x ∷ xs) = finish ((x ∷ xs) ∷ []) returned

  unfoldable pub should_flush : BatchConfig T → Buffered T → Bool
  should_flush c s =
      (ltb 0 c.batch_count && leb c.batch_count (length s.buf))
      || elim c.batch_measure_fn [ none ↦ false | some f ↦ leb c.batch_measure_max s.measure ]

  abbrev pub measured : BatchConfig T → Buffered T → T → ℕ
  measured c s x = elim c.batch_measure_fn [ none ↦ s.measure | some f ↦ s.measure + f x ]

  -- The case of an item.
  unfoldable pub accept : BatchConfig T → Buffered T → T → Action (Buffered T) (List T)
  accept c s x =
      let s' : Buffered T = record { buf = s.buf ++ x ∷ []; measure = measured c s x } in
      if should_flush c s' then flush s' else continue [] s'

  -- Batch: `signal` is a tick of the ticker, which is there only with a timeout.
  unfoldable pub batch_loop : BatchConfig T → Loop (Buffered T) T (List T)
  unfolding accept
  batch_loop c = record {
    finished = endless;
    on_item = accept c;
    on_closed = λ s. if c.drop_partial then finish [] returned else flush_and_return s.buf;
    on_signal = λ s. if c.timed then flush s else never s;
    on_signal_closed = never;
    interrupted = outbox_send;
  }

  -- BufferWith: the signals are the items of closingSelector, and its close.
  unfoldable pub buffer_with_loop : Loop (Buffered T) T (List T)
  buffer_with_loop = record {
    finished = endless;
    on_item = λ s x. continue [] (record s { buf = s.buf ++ x ∷ [] });
    on_closed = λ s. flush_and_return s.buf;
    on_signal = flush;
    on_signal_closed = λ s. flush_and_return s.buf;
    interrupted = outbox_send;
  }

  unfoldable pub unbatch_loop : Loop (Unit {0}) (List T) T
  unbatch_loop = record {
    finished = endless;
    on_item = λ s batch. continue batch s;
    on_closed = λ s. finish [] returned;
    on_signal = never;
    on_signal_closed = never;
    interrupted = outbox_send;
  }

  -- SlidingWindow: the state is `buf`.
  unfoldable pub sliding_loop : ℕ → ℕ → Loop (List T) T (List T)
  sliding_loop size step = record {
    finished = endless;
    on_item = λ buf x.
        let buf' = buf ++ x ∷ [] in
        if length buf' == size then continue (buf' ∷ []) (drop step buf') else continue [] buf';
    on_closed = λ buf. finish [] returned;
    on_signal = never;
    on_signal_closed = never;
    interrupted = outbox_send;
  }

-- The variables `buf` and `timerActive` of SessionWindow.
pub record Session {ℓ} (T : Type ℓ) : Type ℓ where
  pub buf : List T
  pub timer_active : Bool

module _ {ℓ} {T : Type ℓ} where
  abbrev pub no_session : Session T
  no_session = record { buf = []; timer_active = false }

  abbrev pub end_session : List T → Action (Session T) (List T)
  end_session [] = continue [] (record { buf = []; timer_active = false })
  end_session (x ∷ xs) = continue ((x ∷ xs) ∷ []) (record { buf = []; timer_active = false })

  -- SessionWindow: `signal` is the timer, a nil channel while it is not active.
  unfoldable pub session_loop : Loop (Session T) T (List T)
  session_loop = record {
    finished = endless;
    on_item = λ s x. continue [] (record { buf = s.buf ++ x ∷ []; timer_active = true });
    on_closed = λ s. flush_and_return s.buf;
    on_signal = λ s. if s.timer_active then end_session s.buf else never s;
    on_signal_closed = never;
    interrupted = outbox_send;
  }

  -- ChunkWhile: the state is `buf`; its last item is the one that the next is compared with.
  unfoldable pub chunk_while_item : (T → T → Bool) → List T → T → Action (List T) (List T)
  chunk_while_item pred buf x = elim (get_last? buf) [
    | none ↦ continue [] (buf ++ x ∷ [])
    | some prev ↦ if pred prev x then continue [] (buf ++ x ∷ []) else continue (buf ∷ []) (x ∷ [])
  ]

  unfoldable pub chunk_while_loop : (T → T → Bool) → Loop (List T) T (List T)
  unfolding chunk_while_item
  chunk_while_loop pred = record {
    finished = endless;
    on_item = chunk_while_item pred;
    on_closed = λ buf. flush_and_return buf;
    on_signal = never;
    on_signal_closed = never;
    interrupted = outbox_send;
  }

-- The variables `buf`, and `curKey` unless `first`.
pub record Chunk {ℓ κ} (T : Type ℓ) (K : Type κ) : Type (ℓ ⊔ κ) where
  pub buf : List T
  pub cur_key : Option K

module _ {ℓ κ} {T : Type ℓ} {K : Type κ} ⦃e : Eq K⦄ where
  abbrev pub no_chunk : Chunk T K
  no_chunk = record { buf = []; cur_key = none }

  -- The buffer goes out as one chunk, and the item starts the next one.
  abbrev pub new_chunk : List T → T → K → Action (Chunk T K) (List T)
  new_chunk [] x k = continue [] (record { buf = x ∷ []; cur_key = some k })
  new_chunk (y ∷ ys) x k = continue ((y ∷ ys) ∷ []) (record { buf = x ∷ []; cur_key = some k })

  unfoldable pub chunk_item : (T → K) → Chunk T K → T → Action (Chunk T K) (List T)
  chunk_item key_fn s x = elim s.cur_key [
    | none ↦ continue [] (record { buf = s.buf ++ x ∷ []; cur_key = some (key_fn x) })
    | some cur ↦
        if key_eq (key_fn x) cur
        then continue [] (record { buf = s.buf ++ x ∷ []; cur_key = some (key_fn x) })
        else new_chunk s.buf x (key_fn x)
  ]

  unfoldable pub chunk_by_loop : (T → K) → Loop (Chunk T K) T (List T)
  unfolding chunk_item
  chunk_by_loop key_fn = record {
    finished = endless;
    on_item = chunk_item key_fn;
    on_closed = λ s. flush_and_return s.buf;
    on_signal = never;
    on_signal_closed = never;
    interrupted = outbox_send;
  }
