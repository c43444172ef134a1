-- ===== src/Outbox.antt =====
-- internal/outbox.go: dropNewestOutbox, dropOldestOutbox and dropOldestShard over a buffered channel.
--
-- A Send of the drop-oldest outboxes is four operations on the channel, with a mutex taken in between,
-- and each is one step here: a schedule says which worker makes its next step, and when the reader
-- takes an item, so that every interleaving is a list. `shard` maps a worker to its mutex: the
-- constant function for dropOldestOutbox, and the worker's shard for NewShardedDropOldestOutbox.
-- The OnDrop hook of an item is its entry in `dropped`, whose length is the counter.
pub mod Conserved
pub mod Alone
use go_kitsune.Prelude.{
  ℕ, zero, suc, ◌+◌, Bool, true, false, List, [], ◌∷◌, ◌++◌, length, set, Option, none, some, ltb,
  ◌==◌, ◌||◌, not, get_elem?, if◌then◌else◌,
}

module _ {ℓ} where
  -- The channel, with what the reader took from it and what the outbox dropped.
  pub record Wire (T : Type ℓ) : Type ℓ where
    pub cap : ℕ
    pub buf : List T
    pub taken : List T
    pub dropped : List T

  -- Where a worker stands in Send.
  pub data Phase (T : Type ℓ) : Type ℓ where
    idle : Phase T
    fast waiting locked evicting resending : T → Phase T

  pub record System (T : Type ℓ) : Type ℓ where
    pub wire : Wire T
    pub phases : List (Phase T)
    -- every item that a Send was called with
    pub started : List T

  -- What the schedule picks: a worker that calls Send, a worker's next step, or the reader.
  pub data Pick (T : Type ℓ) : Type ℓ where
    call : ℕ → T → Pick T
    advance : ℕ → Pick T
    receive : Pick T

module _ {ℓ} {T : Type ℓ} where
  abbrev pub has_room : Wire T → Bool
  has_room w = ltb (length w.buf) w.cap

  abbrev pub push : Wire T → T → Wire T
  push w x = record w { buf = w.buf ++ x ∷ [] }

  abbrev pub discard : Wire T → T → Wire T
  discard w x = record w { dropped = w.dropped ++ x ∷ [] }

  -- `select { case old := <-o.ch: … default: }`
  abbrev pub evict_from : Wire T → List T → Wire T
  evict_from w [] = w
  evict_from w (old ∷ rest) = discard (record w { buf = rest }) old

  -- `<-o.ch` by the downstream reader.
  abbrev pub read_from : Wire T → List T → Wire T
  read_from w [] = w
  read_from w (x ∷ rest) = record w { buf = rest; taken = w.taken ++ x ∷ [] }

  -- dropNewestOutbox.Send
  unfoldable pub drop_newest_send : Wire T → T → Wire T
  drop_newest_send w x = if has_room w then push w x else discard w x

  -- A worker between Lock and Unlock.
  abbrev pub holds : Phase T → Bool
  holds idle = false
  holds (fast x) = false
  holds (waiting x) = false
  holds (locked x) = true
  holds (evicting x) = true
  holds (resending x) = true

  -- Whether a worker from the i-th on holds the mutex m.
  abbrev pub held : (ℕ → ℕ) → ℕ → ℕ → List (Phase T) → Bool
  held shard m i [] = false
  held shard m i (p ∷ ps) =
      let rest = held shard m (i + 1) ps in if shard i == m then holds p || rest else rest

  -- One step of a worker: the channel and its next phase. `free` says that its mutex is free.
  unfoldable pub step_of : Bool → Wire T → Phase T → Wire T × Phase T
  step_of free w idle = (w, idle)
  step_of free w (fast x) = if has_room w then (push w x, idle) else (w, waiting x)
  step_of free w (waiting x) = if free then (w, locked x) else (w, waiting x)
  step_of free w (locked x) = if has_room w then (push w x, idle) else (w, evicting x)
  step_of free w (evicting x) = (evict_from w w.buf, resending x)
  step_of free w (resending x) = if has_room w then (push w x, idle) else (discard w x, idle)

  abbrev pub called : System T → ℕ → T → Option (Phase T) → System T
  called s i x (some idle) = record s {
    phases = set s.phases i (fast x);
    started = s.started ++ x ∷ [];
  }
  called s i x p = s

  abbrev pub moved : System T → ℕ → Wire T × Phase T → System T
  moved s i (w, p) = record s { wire = w; phases = set s.phases i p }

  abbrev pub advanced : (ℕ → ℕ) → System T → ℕ → Option (Phase T) → System T
  advanced shard s i none = s
  advanced shard s i (some p) = moved s i (step_of (not (held shard (shard i) 0 s.phases)) s.wire p)

  unfoldable pub pick : (ℕ → ℕ) → System T → Pick T → System T
  unfolding step_of
  pick shard s (call i x) = called s i x (get_elem? s.phases i)
  pick shard s (advance i) = advanced shard s i (get_elem? s.phases i)
  pick shard s receive = record s { wire = read_from s.wire s.wire.buf }

  unfoldable pub schedule : (ℕ → ℕ) → System T → List (Pick T) → System T
  unfolding pick
  schedule shard s [] = s
  schedule shard s (p ∷ ps) = schedule shard (pick shard s p) ps

  -- A fresh channel of capacity `cap`, and n workers that do not send.
  abbrev pub empty_wire : ℕ → Wire T
  empty_wire cap = record { cap = cap; buf = []; taken = []; dropped = [] }

  abbrev pub idle_workers : ℕ → List (Phase T)
  idle_workers zero = []
  idle_workers (suc n) = idle ∷ idle_workers n

  abbrev pub new_system : ℕ → ℕ → System T
  new_system cap n = record { wire = empty_wire cap; phases = idle_workers n; started = [] }

  -- A Send that no other goroutine interferes with.
  unfoldable pub drop_oldest_send : Wire T → T → Wire T
  unfolding step_of
  drop_oldest_send w x =
      let (w1, p1) = step_of true w (fast x) in
      let (w2, p2) = step_of true w1 p1 in
      let (w3, p3) = step_of true w2 p2 in
      let (w4, p4) = step_of true w3 p3 in let (w5, p5) = step_of true w4 p4 in w5

  -- The calls of Send with the items of a list, one after the other.
  abbrev pub send_each : (Wire T → T → Wire T) → Wire T → List T → Wire T
  send_each send w [] = w
  send_each send w (x ∷ xs) = send_each send (send w x) xs
