-- ===== src/Concurrent/Running.antt =====
-- The tokens of the concurrent map, and its progress.
use go_kitsune.Prelude.{
  ℕ, zero, suc, ◌+◌, ◌≤◌, ◌<◌, ◌≡◌, refl, Bool, true, false, List, [], ◌∷◌, Option, arith,
}
use go_kitsune.Errors.{Error, Result, ok, err}
use go_kitsune.Process.{Outcome}
use go_kitsune.Ordered.{Cancel}
use go_kitsune.Concurrent.{
  Worker, working, sending, leaving, released, Loader, reading, acquiring, waiting, returning,
  next_worker, Pool, pool, Replace, first, further, Remove, first_out, further_out, Move, read_item,
  read_closed, drain_signal, read_done, acquire, acquire_done, return_error, cancel_outside,
  process_item, send_value, send_done, release, done, Runs, start, later,
}

-- The dispatcher waits for a token only with an item.
abbrev has_item {ℓ} : {I : Type ℓ} → Loader → List I → Bool
has_item acquiring [] = false
has_item acquiring (x ∷ xs) = true
has_item reading xs = true
has_item waiting xs = true
has_item (returning v) xs = true

module _ {ℓ κ} {I : Type ℓ} {O : Type κ} where
  -- A goroutine that has its token.
  abbrev pub has_token : Worker I O → ℕ
  has_token (working x) = 1
  has_token (sending v) = 1
  has_token leaving = 1
  has_token released = 0

  abbrev pub tokens : List (Worker I O) → ℕ
  tokens [] = 0
  tokens (w ∷ ws) = has_token w + tokens ws

  abbrev Sound : ℕ → Pool I O → Type 0
  Sound c (pool d xs ws n ch k out) = (n ≡ tokens ws) × (n ≤ c) × (has_item d xs ≡ true)

  Replace-tokens :
      {a b : Worker I O} {ws us : List (Worker I O)}
      → Replace a b ws us
      → tokens us + has_token a ≡ tokens ws + has_token b
  Replace-tokens first = omega arith
  Replace-tokens (further r) = omega (arith, Replace-tokens r)

  Remove-tokens :
      {a : Worker I O} {ws us : List (Worker I O)}
      → Remove a ws us
      → tokens us + has_token a ≡ tokens ws
  Remove-tokens first_out = omega arith
  Remove-tokens (further_out r) = omega (arith, Remove-tokens r)

has_token-next_worker {ℓ κ} :
    (I : Type ℓ) {O : Type κ} (r : Result O) → has_token (next_worker {I = I} r) ≡ 1
has_token-next_worker I (ok v) = refl
has_token-next_worker I (err e) = refl

module _ {ℓ κ} {I : Type ℓ} {O : Type κ} (process : I → Outcome O) (name c : ℕ) where
  Move-Sound : {s t : Pool I O} → Move process name c s t → Sound c s → Sound c t
  Move-Sound read_item (e, b, y) = (e, b, refl)
  Move-Sound read_closed (e, b, y) = (e, b, refl)
  Move-Sound drain_signal (e, b, y) = (e, b, refl)
  Move-Sound (read_done f) (e, b, y) = (e, b, refl)
  Move-Sound (acquire f) (e, b, y) = (omega (arith, e), f, refl)
  Move-Sound (acquire_done f) (e, b, y) = (e, b, refl)
  Move-Sound return_error (e, b, y) = (e, b, refl)
  Move-Sound (cancel_outside f) h = h
  Move-Sound (process_item {x} r) (e, b, y) =
      (omega (arith, e, Replace-tokens r, has_token-next_worker I (process x).result), b, y)
  Move-Sound (send_value r) (e, b, y) = (omega (arith, e, Replace-tokens r), b, y)
  Move-Sound (send_done f r) (e, b, y) = (omega (arith, e, Replace-tokens r), b, y)
  Move-Sound (release r) (e, b, y) = (omega (arith, e, Replace-tokens r), omega (arith, b), y)
  Move-Sound (done r) (e, b, y) = (omega (arith, e, Remove-tokens r), b, y)

  Runs-Sound : {all : List I} {s : Pool I O} → Runs process name c all s → Sound c s
  Runs-Sound start = (refl, omega arith, refl)
  Runs-Sound (later r m) = Move-Sound m (Runs-Sound r)

  -- A step that a goroutine of the stage makes: not the end of the outer context, nor a drain signal.
  abbrev pub is_own : {s t : Pool I O} → Move process name c s t → Bool
  is_own read_item = true
  is_own read_closed = true
  is_own drain_signal = false
  is_own (read_done x) = true
  is_own (acquire x) = true
  is_own (acquire_done x) = true
  is_own return_error = true
  is_own (cancel_outside x) = false
  is_own (process_item x) = true
  is_own (send_value x) = true
  is_own (send_done x y) = true
  is_own (release x) = true
  is_own (done x) = true

  abbrev pub Next : Pool I O → Type (ℓ ⊔ κ)
  Next s = (t : Pool I O) × (m : Move process name c s t) × (is_own m ≡ true)

  abbrev pub is_over : Pool I O → Bool
  is_over (pool reading xs ws n ch k out) = false
  is_over (pool acquiring xs ws n ch k out) = false
  is_over (pool waiting xs ws n ch k out) = false
  is_over (pool (returning v) xs ws n ch k out) = true

  -- A goroutine goes on.
  next_worker_step :
      (d : Loader) (xs : List I) (w : Worker I O) (ws : List (Worker I O)) (n : ℕ)
      (ch : Option Error) (k : Cancel) (out : List O)
      → n ≡ tokens (w ∷ ws)
      → Next (pool d xs (w ∷ ws) n ch k out)
  next_worker_step d xs (working x) ws n ch k out h = (_, process_item first, refl)
  next_worker_step d xs (sending v) ws n ch k out h = (_, send_value first, refl)
  next_worker_step d xs leaving ws zero ch k out h = absurd (omega (arith, h))
  next_worker_step d xs leaving ws (suc n) ch k out h = (_, release first, refl)
  next_worker_step d xs released ws n ch k out h = (_, done first_out, refl)

  next : (s : Pool I O) → 0 < c → is_over s ≡ false → Sound c s → Next s
  next (pool (returning v) xs ws n ch k out) pos over h = absurd (cc over)
  next (pool d xs (w ∷ ws) n ch k out) pos over (e, b, y) = next_worker_step d xs w ws n ch k out e
  next (pool reading [] [] n ch k out) pos over h = (_, read_closed, refl)
  next (pool reading (x ∷ xs) [] n ch k out) pos over h = (_, read_item, refl)
  next (pool acquiring [] [] n ch k out) pos over (e, b, y) = absurd (cc y)
  next (pool acquiring (x ∷ xs) [] n ch k out) pos over (e, b, y) =
      (_, acquire (omega (arith, pos, e)), refl)
  next (pool waiting xs [] n ch k out) pos over h = (_, return_error, refl)

  -- The concurrent Map with concurrency c, which is at least one, at every moment that any interleaving
  -- can come to, when ProcessItem returns, the upstream sends or closes and what is sent is received: no
  -- more than c goroutines are at work, and as long as the stage has not returned, some goroutine has a
  -- step to make, other than the end of the outer context or a drain signal, so there is no deadlock.
  pub concurrent_progress :
      (all xs : List I) (d : Loader) (ws : List (Worker I O)) (n : ℕ) (ch : Option Error)
      (k : Cancel) (out : List O)
      → 0 < c
      → is_over (pool d xs ws n ch k out) ≡ false
      → Runs process name c all (pool d xs ws n ch k out)
      → (tokens ws ≤ c) × Next (pool d xs ws n ch k out)
  concurrent_progress all xs d ws n ch k out pos over runs =
      let (e, b, y) = Runs-Sound runs in
      (omega (arith, e, b), next (pool d xs ws n ch k out) pos over (e, b, y))
