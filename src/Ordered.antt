-- ===== src/Ordered.antt =====
-- operator_map.go: mapOrdered with the blocking overflow mode, step by step.
--
-- The stage runs a dispatcher, a goroutine for each item and a drainer. The dispatcher takes a token of
-- `sem` for an item and queues a slot for it in `slots`; the item's goroutine puts the result in the
-- slot and gives the token back; the drainer takes the slots in their order and sends the results on.
-- Each operation on a channel is one step, so a sequence of steps is an interleaving. What ProcessItem
-- gives for an item is a function of the item: an item stands for one occurrence in the input.
pub mod Ahead
pub mod Contexts
pub mod Agreement
pub mod Bounds
pub mod Progress
use go_kitsune.Prelude.{
  ℕ, suc, ◌*◌, ◌<◌, ◌≡◌, Bool, true, false, List, [], ◌∷◌, ◌++◌, length, Option, none, some,
  if◌then◌else◌,
}
use go_kitsune.Errors.{Error, canceled, skipped, Result, ok, err, wrap_stage_err}
use go_kitsune.Process.{Outcome}

module _ {ℓ κ} where
  -- `slotCh`, before and after its goroutine has sent the result.
  pub data Slot (I : Type ℓ) (O : Type κ) : Type (ℓ ⊔ κ) where
    pending : I → Slot I O
    filled : Outcome O → Slot I O

  -- The drainer: at `range slots`, at `<-slotCh`, in Send; the other three have put a value in
  -- `drainErrs`: the goroutine that only receives, between slots and within one, and the end.
  pub data Drainer (I : Type ℓ) (O : Type κ) : Type (ℓ ⊔ κ) where
    ranging : Drainer I O
    receiving : Slot I O → Drainer I O
    sending : O → Drainer I O
    discarding : Option Error → Drainer I O
    dropping : Option Error → Slot I O → Drainer I O
    done : Option Error → Drainer I O

-- The dispatcher: its three selects, then `for i := 0; i < cfg.concurrency; i++ { sem <- struct{}{} }`
-- with i, the receive after close(slots), and the return.
pub data Dispatcher : Type 0 where
  reading acquiring queueing : Dispatcher
  joining : ℕ → Dispatcher
  closing : Dispatcher
  returning : Option Error → Dispatcher

-- innerCtx: not cancelled, cancelled by the drainer, and cancelled by the outer context or by the
-- dispatcher when drainCh is closed.
pub data Cancel : Type 0 where
  live by_drainer : Cancel
  from_outside : Error → Cancel

-- innerCtx.Err()
abbrev pub ctx_error : Cancel → Option Error
ctx_error live = none
ctx_error by_drainer = some canceled
ctx_error (from_outside e) = some e

-- cancel()
abbrev pub cancel : Cancel → Cancel → Cancel
cancel why live = why
cancel why by_drainer = by_drainer
cancel why (from_outside e) = from_outside e

-- `close(slots)` has run.
abbrev pub is_closed : Dispatcher → Bool
is_closed reading = false
is_closed acquiring = false
is_closed queueing = false
is_closed (joining i) = false
is_closed closing = true
is_closed (returning v) = true

abbrev pub is_skipped : Error → Bool
is_skipped skipped = true
is_skipped e = false

-- Whether the drainer cancels innerCtx on a result.
abbrev pub cancel_on {ℓ} : {O : Type ℓ} → Result O → Cancel → Cancel
cancel_on (ok v) k = k
cancel_on (err e) k = if is_skipped e then k else cancel by_drainer k

module _ {ℓ κ} {I : Type ℓ} {O : Type κ} where
  -- What the drainer does with a result.
  abbrev pub hear : ℕ → ℕ → Result O → Drainer I O
  hear name attempt (ok v) = sending v
  hear name attempt (err e) =
      if is_skipped e then ranging else discarding (some (wrap_stage_err name e attempt))

  -- The value in `drainErrs`.
  abbrev pub verdict : Drainer I O → Option (Option Error)
  verdict ranging = none
  verdict (receiving s) = none
  verdict (sending v) = none
  verdict (discarding v) = some v
  verdict (dropping v s) = some v
  verdict (done v) = some v

-- The dispatcher, the items without a slot (the first of them is the dispatcher's from its read to
-- `slots <- slotCh`), `slots`, the drainer, the tokens in `sem`, the goroutines that have sent their
-- result and not yet given back the token, innerCtx, and what was sent downstream.
pub data State {ℓ κ} (I : Type ℓ) (O : Type κ) : Type (ℓ ⊔ κ) where
  state : Dispatcher → List I → List (Slot I O) → Drainer I O → ℕ → ℕ → Cancel → List O → State I O

abbrev pub initial {ℓ κ} : {I : Type ℓ} {O : Type κ} → List I → State I O
initial xs = state reading xs [] ranging 0 0 live []

module _ {ℓ κ} {I : Type ℓ} {O : Type κ} (process : I → Outcome O) where
  -- A goroutine sends its result into its slot.
  pub data Fill : List (Slot I O) → List (Slot I O) → Type (ℓ ⊔ κ) where
    here : {x : I} {q : List (Slot I O)} → Fill (pending x ∷ q) (filled (process x) ∷ q)
    there : {s : Slot I O} {q p : List (Slot I O)} → Fill q p → Fill (s ∷ q) (s ∷ p)

  -- The steps of the stage with name `name` and concurrency c.
  pub data Step (name c : ℕ) : State I O → State I O → Type (ℓ ⊔ κ) where
    read_item :
        {x : I} {xs : List I} {q : List (Slot I O)} {r : Drainer I O} {n l : ℕ} {k : Cancel}
        {out : List O}
        → Step name c
            (state reading (x ∷ xs) q r n l k out)
            (state acquiring (x ∷ xs) q r n l k out)
    read_closed :
        {q : List (Slot I O)} {r : Drainer I O} {n l : ℕ} {k : Cancel} {out : List O}
        → Step name c (state reading [] q r n l k out) (state (joining 0) [] q r n l k out)
    drain_signal :
        {xs : List I} {q : List (Slot I O)} {r : Drainer I O} {n l : ℕ} {k : Cancel} {out : List O}
        → Step name c
            (state reading xs q r n l k out)
            (state (joining 0) xs q r n l (cancel (from_outside canceled) k) out)
    read_done :
        {xs : List I} {q : List (Slot I O)} {r : Drainer I O} {n l : ℕ} {k : Cancel} {out : List O}
        {e : Error}
        → ctx_error k ≡ some e
        → Step name c (state reading xs q r n l k out) (state (joining 0) xs q r n l k out)
    acquire :
        {xs : List I} {q : List (Slot I O)} {r : Drainer I O} {n l : ℕ} {k : Cancel} {out : List O}
        → n < c
        → Step name c (state acquiring xs q r n l k out) (state queueing xs q r (suc n) l k out)
    acquire_done :
        {xs : List I} {q : List (Slot I O)} {r : Drainer I O} {n l : ℕ} {k : Cancel} {out : List O}
        {e : Error}
        → ctx_error k ≡ some e
        → Step name c (state acquiring xs q r n l k out) (state (joining 0) xs q r n l k out)
    queue_slot :
        {x : I} {xs : List I} {q : List (Slot I O)} {r : Drainer I O} {n l : ℕ} {k : Cancel}
        {out : List O}
        → length q < 2 * c
        → Step name c
            (state queueing (x ∷ xs) q r n l k out)
            (state reading xs (q ++ pending x ∷ []) r n l k out)
    queue_done :
        {xs : List I} {q : List (Slot I O)} {r : Drainer I O} {n l : ℕ} {k : Cancel} {out : List O}
        {e : Error}
        → ctx_error k ≡ some e
        → Step name c (state queueing xs q r (suc n) l k out) (state (joining 0) xs q r n l k out)
    join :
        {xs : List I} {q : List (Slot I O)} {r : Drainer I O} {i n l : ℕ} {k : Cancel}
        {out : List O}
        → i < c
        → n < c
        → Step name c
            (state (joining i) xs q r n l k out)
            (state (joining (suc i)) xs q r (suc n) l k out)
    close_slots :
        {xs : List I} {q : List (Slot I O)} {r : Drainer I O} {i n l : ℕ} {k : Cancel}
        {out : List O}
        → i ≡ c
        → Step name c (state (joining i) xs q r n l k out) (state closing xs q r n l k out)
    return_verdict :
        {xs : List I} {q : List (Slot I O)} {r : Drainer I O} {n l : ℕ} {k : Cancel} {out : List O}
        {v : Option Error}
        → verdict r ≡ some v
        → Step name c (state closing xs q r n l k out) (state (returning v) xs q r n l k out)
    cancel_outside :
        {d : Dispatcher} {xs : List I} {q : List (Slot I O)} {r : Drainer I O} {n l : ℕ}
        {out : List O}
        → (e : Error)
        → Step name c (state d xs q r n l live out) (state d xs q r n l (from_outside e) out)
    fill :
        {d : Dispatcher} {xs : List I} {q p : List (Slot I O)} {r : Drainer I O} {n l : ℕ}
        {k : Cancel} {out : List O}
        → Fill q p
        → Step name c (state d xs q r n l k out) (state d xs p r n (suc l) k out)
    fill_received :
        {d : Dispatcher} {xs : List I} {q : List (Slot I O)} {x : I} {n l : ℕ} {k : Cancel}
        {out : List O}
        → Step name c
            (state d xs q (receiving (pending x)) n l k out)
            (state d xs q (receiving (filled (process x))) n (suc l) k out)
    fill_dropped :
        {d : Dispatcher} {xs : List I} {q : List (Slot I O)} {x : I} {v : Option Error} {n l : ℕ}
        {k : Cancel} {out : List O}
        → Step name c
            (state d xs q (dropping v (pending x)) n l k out)
            (state d xs q (dropping v (filled (process x))) n (suc l) k out)
    release :
        {d : Dispatcher} {xs : List I} {q : List (Slot I O)} {r : Drainer I O} {n l : ℕ}
        {k : Cancel} {out : List O}
        → Step name c (state d xs q r (suc n) (suc l) k out) (state d xs q r n l k out)
    take_slot :
        {d : Dispatcher} {xs : List I} {s : Slot I O} {q : List (Slot I O)} {n l : ℕ} {k : Cancel}
        {out : List O}
        → Step name c (state d xs (s ∷ q) ranging n l k out) (state d xs q (receiving s) n l k out)
    discard_slot :
        {d : Dispatcher} {xs : List I} {s : Slot I O} {q : List (Slot I O)} {v : Option Error}
        {n l : ℕ} {k : Cancel} {out : List O}
        → Step name c
            (state d xs (s ∷ q) (discarding v) n l k out)
            (state d xs q (dropping v s) n l k out)
    slots_end :
        {d : Dispatcher} {xs : List I} {n l : ℕ} {k : Cancel} {out : List O}
        → is_closed d ≡ true
        → Step name c (state d xs [] ranging n l k out) (state d xs [] (done none) n l k out)
    discard_end :
        {d : Dispatcher} {xs : List I} {v : Option Error} {n l : ℕ} {k : Cancel} {out : List O}
        → is_closed d ≡ true
        → Step name c (state d xs [] (discarding v) n l k out) (state d xs [] (done v) n l k out)
    receive_result :
        {d : Dispatcher} {xs : List I} {q : List (Slot I O)} {o : Outcome O} {n l : ℕ} {k : Cancel}
        {out : List O}
        → Step name c
            (state d xs q (receiving (filled o)) n l k out)
            (state d xs q (hear name o.attempt o.result) n l (cancel_on o.result k) out)
    drop_result :
        {d : Dispatcher} {xs : List I} {q : List (Slot I O)} {o : Outcome O} {v : Option Error}
        {n l : ℕ} {k : Cancel} {out : List O}
        → Step name c
            (state d xs q (dropping v (filled o)) n l k out)
            (state d xs q (discarding v) n l k out)
    send_value :
        {d : Dispatcher} {xs : List I} {q : List (Slot I O)} {v : O} {n l : ℕ} {k : Cancel}
        {out : List O}
        → Step name c
            (state d xs q (sending v) n l k out)
            (state d xs q ranging n l k (out ++ v ∷ []))
    send_done :
        {d : Dispatcher} {xs : List I} {q : List (Slot I O)} {v : O} {n l : ℕ} {k : Cancel}
        {out : List O} {e : Error}
        → ctx_error k ≡ some e
        → Step name c
            (state d xs q (sending v) n l k out)
            (state d xs q (discarding (some e)) n l (cancel by_drainer k) out)

  -- What a run over the items `all` can come to.
  pub data Reach (name c : ℕ) (all : List I) : State I O → Type (ℓ ⊔ κ) where
    start : Reach name c all (initial all)
    later : {s t : State I O} → Reach name c all s → Step name c s t → Reach name c all t
