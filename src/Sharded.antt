-- ===== src/Sharded.antt =====
-- state_withkey.go: mapWithKeyConcurrent with the blocking overflow mode, as steps of its dispatcher
-- and of its workers, on one run of the supervised loop.
--
-- `body` is what a worker does with an item: the values that it then sends, or the error that it
-- reports. `shard` is the worker that an item is dispatched to, and `buffer` the stage's buffer size. A send of an
-- output comes with the number of its worker, which only the model keeps. A send to a worker's channel and
-- one to the outbox are each one step; the order of the steps is up to the environment.
pub mod Shares
pub mod Prefix
pub mod PerKey
use go_kitsune.Prelude.{
  ℕ, ◌≤◌, ◌≡◌, Bool, true, false, List, [], ◌∷◌, ◌++◌, length, Option, none, some, ◌==◌,
  if◌then◌else◌,
}
use go_kitsune.Errors.{Error, canceled}
use go_kitsune.Stage.{Action, continue, finish, End, failed}

pub data Status : Type 0 where
  -- it still reads its channel; its `range` has ended; it has reported an error
  running exited stopped : Status

pub record Worker (M I O : Type 0) : Type 0 where
  pub refs : M
  pub queue : List I
  pub unsent : List O
  pub status : Status

pub record State (M I O : Type 0) : Type 0 where
  pub input : List I
  -- the channels of the workers are closed
  pub closed : Bool
  pub workers : ℕ → Worker M I O
  pub cancelled : Bool
  -- errCh, which holds one error
  pub reported : Option Error
  pub out : List (ℕ × O)

-- reportErr
abbrev pub report : Option Error → Error → Option Error
report none e = some e
report (some e) later = some e

-- The error of an action that ends.
abbrev pub end_error : End → Error
end_error (failed e) = e
end_error end = canceled

abbrev pub update {ℓ} : {A : Type ℓ} → ℕ → A → (ℕ → A) → ℕ → A
update i a f j = if j == i then a else f j

module _ {M I O : Type 0} where
  -- What a worker does with the next item of its channel.
  abbrev pub taken : Worker M I O → List I → Action M O → Worker M I O
  taken w queue (continue vs m) = record { refs = m; queue = queue; unsent = vs; status = running }
  taken w queue (finish vs end) = record w { queue = queue; status = stopped }

  abbrev pub after_take : State M I O → ℕ → List I → Action M O → State M I O
  after_take s i queue (continue vs m) = record s {
    workers = update i (taken (s.workers i) queue (continue vs m)) s.workers;
  }
  after_take s i queue (finish vs end) = record s {
    workers = update i (taken (s.workers i) queue (finish vs end)) s.workers;
    cancelled = true;
    reported = report s.reported (end_error end);
  }

  abbrev pub start : (ℕ → M) → List I → State M I O
  start refs input = record {
    input = input;
    closed = false;
    workers = λ i. record { refs = refs i; queue = []; unsent = []; status = running };
    cancelled = false;
    reported = none;
    out = [];
  }

module _ {M I O : Type 0} (body : M → I → Action M O) (shard : I → ℕ) (buffer : ℕ) where
  pub data Step : State M I O → State M I O → Type 0 where
    -- `workerChs[shard] <- item`, whose channel has room for buffer + 1 items
    dispatch :
        (s : State M I O) (x : I) (xs : List I)
        → s.input ≡ x ∷ xs
        → s.closed ≡ false
        → length (s.workers (shard x)).queue ≤ buffer
        → Step s (record s {
          input = xs;
          workers =
              update
                (shard x)
                (record (s.workers (shard x)) { queue = (s.workers (shard x)).queue ++ x ∷ [] })
                s.workers;
        })
    -- the input is closed
    dispatched : (s : State M I O) → s.input ≡ [] → Step s (record s { closed = true })
    -- innerCtx is done; the item at hand, if there is one, is lost
    dispatch_cancelled :
        (s : State M I O) → s.cancelled ≡ true → Step s (record s { closed = true })
    -- a cooperative drain, or the end of the stage's context
    drained : (s : State M I O) → Step s (record s { closed = true; cancelled = true })
    ctx_ended : (s : State M I O) → Step s (record s { cancelled = true })
    -- a worker receives an item and processes it
    take :
        (s : State M I O) (i : ℕ) (x : I) (queue : List I)
        → (s.workers i).status ≡ running
        → (s.workers i).unsent ≡ []
        → (s.workers i).queue ≡ x ∷ queue
        → Step s (after_take s i queue (body (s.workers i).refs x))
    -- its send finds a reader
    send :
        (s : State M I O) (i : ℕ) (v : O) (vs : List O)
        → (s.workers i).status ≡ running
        → (s.workers i).unsent ≡ v ∷ vs
        → Step s (record s {
          workers = update i (record (s.workers i) { unsent = vs }) s.workers;
          out = s.out ++ (i, v) ∷ [];
        })
    -- its send ends with innerCtx, whose Err is `e`
    send_cancelled :
        (s : State M I O) (i : ℕ) (v : O) (vs : List O) (e : Error)
        → (s.workers i).status ≡ running
        → (s.workers i).unsent ≡ v ∷ vs
        → s.cancelled ≡ true
        → Step s (record s {
          workers = update i (record (s.workers i) { status = stopped }) s.workers;
          reported = report s.reported e;
        })
    -- its channel is closed and empty
    exit :
        (s : State M I O) (i : ℕ)
        → (s.workers i).status ≡ running
        → (s.workers i).unsent ≡ []
        → (s.workers i).queue ≡ []
        → s.closed ≡ true
        → Step s
            (record s { workers = update i (record (s.workers i) { status = exited }) s.workers })

  pub data Reach (s : State M I O) : State M I O → Type 0 where
    here : Reach s s
    next : {t u : State M I O} → Reach s t → Step t u → Reach s u
