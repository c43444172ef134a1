-- ===== src/Concurrent/Delivery.antt =====
-- The concurrent map delivers what the items give, in some order.
use go_kitsune.Prelude.{
  subst, ℕ, ◌+◌, ◌≤◌, ◌≡◌, refl, sym, ap, Bool, true, false, List, [], ◌∷◌, Option, none, some,
  arith, inl, inr, Bool-cases,
}
use go_kitsune.Errors.{Error, canceled, wrap_stage_err, Result, ok, err}
use go_kitsune.Process.{Outcome}
use go_kitsune.Outbox.Conserved.{count, count-append}
use go_kitsune.Ordered.{cancel_on, Cancel, by_drainer, from_outside, ctx_error, is_skipped}
use go_kitsune.Ordered.Contexts.{
  undisturbed-cancel, cancel-by_itself, ctx_error-cancel, cancel_on-live, undisturbed, by_itself,
  live_of,
}
use go_kitsune.Concurrent.{
  Worker, working, sending, leaving, released, Loader, reading, acquiring, waiting, returning,
  report_err, next_worker, reported, Pool, pool, Replace, first, further, Remove, first_out,
  further_out, Move, read_item, read_closed, drain_signal, read_done, acquire, acquire_done,
  return_error, cancel_outside, process_item, send_value, send_done, release, done, Runs, start,
  later,
}

abbrev is_waiting : Loader → Bool
is_waiting reading = false
is_waiting acquiring = false
is_waiting waiting = true
is_waiting (returning v) = true

abbrev answer_of : Loader → Option (Option Error)
answer_of reading = none
answer_of acquiring = none
answer_of waiting = none
answer_of (returning v) = some v

Replace-nil {ℓ} : {W : Type ℓ} {a b : W} {ws us : List W} → Replace a b ws us → ws ≡ [] → ⊥
Replace-nil first e = absurd (cc e)
Replace-nil (further r) e = absurd (cc e)

Remove-nil {ℓ} : {W : Type ℓ} {a : W} {ws us : List W} → Remove a ws us → ws ≡ [] → ⊥
Remove-nil first_out e = absurd (cc e)
Remove-nil (further_out r) e = absurd (cc e)

report_err_is_some : (ch : Option Error) (e : Error) → (c : Error) × (report_err ch e ≡ some c)
report_err_is_some none e = (e, refl)
report_err_is_some (some old) e = (old, refl)

-- A result that leaves errCh empty does not cancel.
reported-none {κ} :
    {O : Type κ} (name attempt : ℕ) (r : Result O) (ch : Option Error) (k : Cancel)
    → reported name attempt r ch ≡ none
    → (ch ≡ none) × (cancel_on r k ≡ k)
reported-none name attempt (ok v) ch k h = (h, refl)
reported-none name attempt (err e) ch k h = elim (Bool-cases (is_skipped e)) [
  | inl y ↦ (simp y at h, rw y refl)
  | inr n ↦
      let full = (report_err_is_some ch (wrap_stage_err name e attempt)).1 in
      absurd (cc (simp n at h, full))
]

module _ {κ} {O : Type κ} (p : O → Bool) where
  -- How many values with p a result gives.
  abbrev pub gain : Result O → ℕ
  gain (ok v) = count p (v ∷ [])
  gain (err e) = 0

module _ {ℓ κ} {I : Type ℓ} {O : Type κ} (process : I → Outcome O) (p : O → Bool) where
  -- How many values with p the items give.
  abbrev pub total_gain : List I → ℕ
  total_gain [] = 0
  total_gain (x ∷ xs) = gain p (process x).result + total_gain xs

  abbrev carried : Worker I O → ℕ
  carried (working x) = gain p (process x).result
  carried (sending v) = count p (v ∷ [])
  carried leaving = 0
  carried released = 0

  abbrev all_carried : List (Worker I O) → ℕ
  all_carried [] = 0
  all_carried (w ∷ ws) = carried w + all_carried ws

  Replace-carried :
      {a b : Worker I O} {ws us : List (Worker I O)}
      → Replace a b ws us
      → all_carried us + carried a ≡ all_carried ws + carried b
  Replace-carried first = omega arith
  Replace-carried (further r) = omega (arith, Replace-carried r)

  Remove-carried :
      {a : Worker I O} {ws us : List (Worker I O)}
      → Remove a ws us
      → all_carried us + carried a ≡ all_carried ws
  Remove-carried first_out = omega arith
  Remove-carried (further_out r) = omega (arith, Remove-carried r)

  carried-next_worker : (r : Result O) → carried (next_worker r) ≡ gain p r
  carried-next_worker (ok v) = refl
  carried-next_worker (err e) = refl

  -- What was delivered, what the goroutines hold and what the items left would give.
  abbrev at_stake : List I → List (Worker I O) → List O → ℕ
  at_stake xs ws out = count p out + all_carried ws + total_gain xs

  abbrev Inv : ℕ → Pool I O → Type (ℓ ⊔ κ)
  Inv total (pool d xs ws n ch k out) =
      (at_stake xs ws out ≤ total)
      × (ch ≡ none → undisturbed k ≡ true → at_stake xs ws out ≡ total)
      × (ch ≡ none → by_itself k ≡ false)
      × (is_waiting d ≡ true → ctx_error k ≡ none → xs ≡ [])
      × ((v : Option Error) → answer_of d ≡ some v → (ws ≡ []) × (ch ≡ v))

  Move-Inv :
      (total name c : ℕ) {s t : Pool I O} → Move process name c s t → Inv total s → Inv total t
  Move-Inv total name c read_item (b, e, q, x, h) = (b, e, q, λ w. absurd (cc w), h)
  Move-Inv total name c read_closed (b, e, q, x, h) = (b, e, q, λ w n. refl, λ v r. absurd (cc r))
  Move-Inv total name c (drain_signal {k}) (b, e, q, x, h) = (
    b,
    λ n u. e n (undisturbed-cancel canceled k u),
    λ n. cancel-by_itself canceled k (q n),
    λ w n. absurd (cc (n, (ctx_error-cancel (from_outside canceled) k refl).1)),
    λ v r. absurd (cc r),
  )
  Move-Inv total name c (read_done f) (b, e, q, x, h) =
      (b, e, q, λ w n. absurd (cc (f, n)), λ v r. absurd (cc r))
  Move-Inv total name c (acquire f) (b, e, q, x, h) =
      (omega (arith, b), λ n u. omega (arith, e n u), q, λ w. absurd (cc w), λ v r. absurd (cc r))
  Move-Inv total name c (acquire_done f) (b, e, q, x, h) =
      (b, e, q, λ w n. absurd (cc (f, n)), λ v r. absurd (cc r))
  Move-Inv total name c return_error (b, e, q, x, h) = (b, e, q, x, λ v r. (refl, cc r))
  Move-Inv total name c (cancel_outside f) (b, e, q, x, h) =
      (b, λ n u. absurd (cc u), λ n. refl, λ w n. absurd (cc n), h)
  Move-Inv total name c (process_item {x} {ch} {k} r) (b, e, q, y, h) =
      let result = (process x).result in
      let same = Replace-carried r in
      let worth = carried-next_worker result in
      let clean = reported-none name (process x).attempt result ch k in
      (
        omega (arith, b, same, worth),
        λ n u.
            omega
              (arith, e (clean n).0 (subst (λ k. undisturbed k ≡ true) (clean n).1 u), same, worth),
        λ n. subst (λ k. by_itself k ≡ false) (sym (clean n).1) (q (clean n).0),
        λ w n. y w (cancel_on-live result k n),
        λ w a. absurd (Replace-nil r (h w a).0),
      )
  Move-Inv total name c (send_value {v} {xs} {ws} {us} {out} r) (b, e, q, x, h) =
      let same = Replace-carried r in
      let more = count-append p out (v ∷ []) in
      (
        omega (arith, b, same, more),
        λ n u. omega (arith, e n u, same, more),
        q,
        x,
        λ w a. absurd (Replace-nil r (h w a).0),
      )
  Move-Inv total name c (send_done {ch} {k} {e = why} f r) (b, e, q, x, h) =
      let same = Replace-carried r in
      let full = (report_err_is_some ch why).1 in
      (
        omega (arith, b, same),
        λ n u. absurd (cc (n, full)),
        λ n. absurd (cc (n, full)),
        λ w n. absurd (cc (n, (ctx_error-cancel by_drainer k refl).1)),
        λ w a. absurd (Replace-nil r (h w a).0),
      )
  Move-Inv total name c (release r) (b, e, q, x, h) =
      let same = Replace-carried r in
      (
        omega (arith, b, same),
        λ n u. omega (arith, e n u, same),
        q,
        x,
        λ w a. absurd (Replace-nil r (h w a).0),
      )
  Move-Inv total name c (done r) (b, e, q, x, h) =
      let same = Remove-carried r in
      (
        omega (arith, b, same),
        λ n u. omega (arith, e n u, same),
        q,
        x,
        λ w a. absurd (Remove-nil r (h w a).0),
      )

  Runs-Inv :
      {name c : ℕ} {all : List I} {s : Pool I O}
      → Runs process name c all s
      → Inv (total_gain all) s
  Runs-Inv start =
      (omega arith, λ n u. omega arith, λ n. refl, λ w. absurd (cc w), λ v r. absurd (cc r))
  Runs-Inv {name} {c} {all} (later r m) = Move-Inv (total_gain all) name c m (Runs-Inv r)

  -- The concurrent Map, for any concurrency and any interleaving, also with errors and cancellations: for
  -- any predicate, it has at every moment sent no more values with it than ProcessItem gives for the
  -- items, so it never sends a value twice and makes none up.
  pub concurrent_at_most :
      (name c : ℕ) (all xs : List I) (d : Loader) (ws : List (Worker I O)) (n : ℕ)
      (ch : Option Error) (k : Cancel) (out : List O)
      → Runs process name c all (pool d xs ws n ch k out)
      → count p out ≤ total_gain all
  concurrent_at_most name c all xs d ws n ch k out runs =
      let (b, e, q, x, h) = Runs-Inv runs in omega (arith, b)

  -- The concurrent Map, for any concurrency and any interleaving, when it returns nil and neither its
  -- context was cancelled nor a drain signal came: for any predicate, it has sent as many values with it
  -- as ProcessItem gives for the items. So it delivers the values of all items, in some order, and
  -- leaves out just those that are skipped.
  pub concurrent_all :
      (name c : ℕ) (all xs : List I) (ws : List (Worker I O)) (n : ℕ) (ch : Option Error)
      (k : Cancel) (out : List O)
      → undisturbed k ≡ true
      → Runs process name c all (pool (returning none) xs ws n ch k out)
      → count p out ≡ total_gain all
  concurrent_all name c all xs ws n ch k out u runs =
      let (b, e, q, x, h) = Runs-Inv runs in
      let (over, quiet) = h none refl in
      let left : xs ≡ [] = x refl (live_of k (q quiet) u) in
      let no_items = ap total_gain left in
      let no_workers = ap all_carried over in omega (arith, e quiet u, no_items, no_workers)
