-- ===== src/Concurrent.antt =====
-- operator_map.go: mapConcurrent with the blocking overflow mode, step by step.
--
-- The dispatcher takes a token of `sem` for an item and starts a goroutine, which processes the item,
-- sends its value, gives the token back and then leaves the WaitGroup. Each operation on a channel is
-- one step. As for the ordered map (Ordered), what ProcessItem gives is a function of the item.
pub mod Delivery
pub mod Running
use go_kitsune.Prelude.{ℕ, suc, ◌<◌, ◌≡◌, List, [], ◌∷◌, ◌++◌, Option, none, some, if◌then◌else◌}
use go_kitsune.Errors.{Error, canceled, Result, ok, err, wrap_stage_err}
use go_kitsune.Process.{Outcome}
use go_kitsune.Ordered.{
  Cancel, live, by_drainer, from_outside, ctx_error, cancel, cancel_on, is_skipped,
}

-- A goroutine: in ProcessItem, in Send, before `<-sem`, and before wg.Done().
pub data Worker {ℓ κ} (I : Type ℓ) (O : Type κ) : Type (ℓ ⊔ κ) where
  working : I → Worker I O
  sending : O → Worker I O
  leaving released : Worker I O

-- The dispatcher: its two selects, wg.Wait(), and the return.
pub data Loader : Type 0 where
  reading acquiring waiting : Loader
  returning : Option Error → Loader

-- `by_drainer` of Cancel says here that a goroutine has cancelled innerCtx.
abbrev pub cancel_inner : Cancel → Cancel
cancel_inner k = cancel by_drainer k

-- reportErr: errCh holds one error, and a later one is dropped.
abbrev pub report_err : Option Error → Error → Option Error
report_err none e = some e
report_err (some first) e = some first

module _ {ℓ κ} {I : Type ℓ} {O : Type κ} where
  -- What a goroutine does with its result.
  abbrev pub next_worker : Result O → Worker I O
  next_worker (ok v) = sending v
  next_worker (err e) = leaving

-- errCh after a result.
abbrev pub reported {ℓ} : {O : Type ℓ} → ℕ → ℕ → Result O → Option Error → Option Error
reported name attempt (ok v) ch = ch
reported name attempt (err e) ch =
    if is_skipped e then ch else report_err ch (wrap_stage_err name e attempt)

-- The dispatcher, the items without a goroutine (the first of them is the dispatcher's while it waits
-- for a token), the goroutines, the tokens in `sem`, errCh, innerCtx, and what was sent downstream. The
-- last receive of errCh leaves it as it is: nothing reads it after that.
pub data Pool {ℓ κ} (I : Type ℓ) (O : Type κ) : Type (ℓ ⊔ κ) where
  pool : Loader → List I → List (Worker I O) → ℕ → Option Error → Cancel → List O → Pool I O

-- One goroutine goes on.
pub data Replace {ℓ} {W : Type ℓ} (a b : W) : List W → List W → Type ℓ where
  first : {ws : List W} → Replace a b (a ∷ ws) (b ∷ ws)
  further : {w : W} {ws us : List W} → Replace a b ws us → Replace a b (w ∷ ws) (w ∷ us)

-- One goroutine ends.
pub data Remove {ℓ} {W : Type ℓ} (a : W) : List W → List W → Type ℓ where
  first_out : {ws : List W} → Remove a (a ∷ ws) ws
  further_out : {w : W} {ws us : List W} → Remove a ws us → Remove a (w ∷ ws) (w ∷ us)

module _ {ℓ κ} {I : Type ℓ} {O : Type κ} (process : I → Outcome O) where
  -- The steps of the stage with name `name` and concurrency c.
  pub data Move (name c : ℕ) : Pool I O → Pool I O → Type (ℓ ⊔ κ) where
    read_item :
        {x : I} {xs : List I} {ws : List (Worker I O)} {n : ℕ} {ch : Option Error} {k : Cancel}
        {out : List O}
        → Move name c (pool reading (x ∷ xs) ws n ch k out) (pool acquiring (x ∷ xs) ws n ch k out)
    read_closed :
        {ws : List (Worker I O)} {n : ℕ} {ch : Option Error} {k : Cancel} {out : List O}
        → Move name c (pool reading [] ws n ch k out) (pool waiting [] ws n ch k out)
    drain_signal :
        {xs : List I} {ws : List (Worker I O)} {n : ℕ} {ch : Option Error} {k : Cancel}
        {out : List O}
        → Move name c
            (pool reading xs ws n ch k out)
            (pool waiting xs ws n ch (cancel (from_outside canceled) k) out)
    read_done :
        {xs : List I} {ws : List (Worker I O)} {n : ℕ} {ch : Option Error} {k : Cancel}
        {out : List O} {e : Error}
        → ctx_error k ≡ some e
        → Move name c (pool reading xs ws n ch k out) (pool waiting xs ws n ch k out)
    acquire :
        {x : I} {xs : List I} {ws : List (Worker I O)} {n : ℕ} {ch : Option Error} {k : Cancel}
        {out : List O}
        → n < c
        → Move name c
            (pool acquiring (x ∷ xs) ws n ch k out)
            (pool reading xs (working x ∷ ws) (suc n) ch k out)
    acquire_done :
        {xs : List I} {ws : List (Worker I O)} {n : ℕ} {ch : Option Error} {k : Cancel}
        {out : List O} {e : Error}
        → ctx_error k ≡ some e
        → Move name c (pool acquiring xs ws n ch k out) (pool waiting xs ws n ch k out)
    return_error :
        {xs : List I} {n : ℕ} {ch : Option Error} {k : Cancel} {out : List O}
        → Move name c (pool waiting xs [] n ch k out) (pool (returning ch) xs [] n ch k out)
    cancel_outside :
        {d : Loader} {xs : List I} {ws : List (Worker I O)} {n : ℕ} {ch : Option Error}
        {out : List O}
        → (e : Error)
        → Move name c (pool d xs ws n ch live out) (pool d xs ws n ch (from_outside e) out)
    process_item :
        {d : Loader} {x : I} {xs : List I} {ws us : List (Worker I O)} {n : ℕ} {ch : Option Error}
        {k : Cancel} {out : List O}
        → Replace (working x) (next_worker (process x).result) ws us
        → Move name c (pool d xs ws n ch k out) (
            pool d xs us n
              (reported name (process x).attempt (process x).result ch)
              (cancel_on (process x).result k)
              out)
    send_value :
        {d : Loader} {v : O} {xs : List I} {ws us : List (Worker I O)} {n : ℕ} {ch : Option Error}
        {k : Cancel} {out : List O}
        → Replace (sending v) leaving ws us
        → Move name c (pool d xs ws n ch k out) (pool d xs us n ch k (out ++ v ∷ []))
    send_done :
        {d : Loader} {v : O} {xs : List I} {ws us : List (Worker I O)} {n : ℕ} {ch : Option Error}
        {k : Cancel} {out : List O} {e : Error}
        → ctx_error k ≡ some e
        → Replace (sending v) leaving ws us
        → Move name c
            (pool d xs ws n ch k out)
            (pool d xs us n (report_err ch e) (cancel_inner k) out)
    release :
        {d : Loader} {xs : List I} {ws us : List (Worker I O)} {n : ℕ} {ch : Option Error}
        {k : Cancel} {out : List O}
        → Replace leaving released ws us
        → Move name c (pool d xs ws (suc n) ch k out) (pool d xs us n ch k out)
    done :
        {d : Loader} {xs : List I} {ws us : List (Worker I O)} {n : ℕ} {ch : Option Error}
        {k : Cancel} {out : List O}
        → Remove released ws us
        → Move name c (pool d xs ws n ch k out) (pool d xs us n ch k out)

  -- What a run over the items `all` can come to.
  pub data Runs (name c : ℕ) (all : List I) : Pool I O → Type (ℓ ⊔ κ) where
    start : Runs name c all (pool reading all [] 0 none live [])
    later : {s t : Pool I O} → Runs name c all s → Move name c s t → Runs name c all t
