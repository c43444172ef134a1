-- ===== src/Resubscribe/Budget.antt =====
-- Retry keeps to its budget of attempts and forwards what they yield.
use go_kitsune.Prelude.{
  ℕ, suc, ◌+◌, ◌≤◌, ◌<◌, ◌≡◌, refl, sym, append-nil, ap, Bool, true, false, List, [], ◌∷◌, ◌++◌,
  Option, none, some, length, take, arith,
}
use go_kitsune.Errors.{Error}
use go_kitsune.Resubscribe.{RetryStrategy, Attempt, Retried, decide, resume, retry_from, retry}

decide-again :
    (pol : RetryStrategy) (retries : ℕ) (stopped : Bool) (ctx run_err wait : Option Error)
    → 0 < pol.max_attempts
    → decide pol retries stopped ctx run_err wait ≡ none
    → retries + 1 < pol.max_attempts
unfolding decide
decide-again pol retries true ctx run_err wait h e = absurd (cc e)
decide-again pol retries false (some c) run_err wait h e = absurd (cc e)
decide-again pol retries false none none wait h e = absurd (cc e)
decide-again pol retries false none (some x) wait h e = ground (arith, e)

module _ {ℓ} {T : Type ℓ} where
  -- What the attempts yield, one after the other.
  abbrev pub all_yielded : List (Attempt T) → List T
  all_yielded [] = []
  all_yielded (a ∷ rs) = a.yielded ++ all_yielded rs

  -- What Retry does of a list of attempts when some number of retries is spent.
  abbrev Kept : RetryStrategy → ℕ → List (Attempt T) → Retried T → Type ℓ
  Kept pol retries rs t =
      (k : ℕ) × (k + retries ≤ pol.max_attempts)
      × (t.out ≡ all_yielded (take k rs))
      × (pol.max_attempts ≤ retries + length rs → (e : Option Error) × (t.ending ≡ some e))

  resume-Kept :
      (pol : RetryStrategy) (retries : ℕ) (a : Attempt T) (rs : List (Attempt T))
      (before : Option Error) (verdict : Option (Option Error)) (rest : Retried T)
      → retries < pol.max_attempts
      → (verdict ≡ none → Kept pol (retries + 1) rs rest)
      → Kept pol retries (a ∷ rs) (resume before verdict a.yielded rest)
  resume-Kept pol retries a rs (some c) verdict rest l h =
      (0, omega arith, refl, λ d. (some c, refl))
  resume-Kept pol retries a rs none (some e) rest l h =
      (1, omega arith, ap (λ xs. xs) (sym (append-nil a.yielded)), λ d. (e, refl))
  resume-Kept pol retries a rs none none rest l h =
      let (k, le, out, ends) = h refl in
      (suc k, omega arith, ap (λ xs. a.yielded ++ xs) out, λ d. ends (omega arith))

  retry_from-Kept :
      (pol : RetryStrategy) (retries : ℕ) (rs : List (Attempt T))
      → retries < pol.max_attempts
      → Kept pol retries rs (retry_from pol retries rs)
  unfolding retry_from
  retry_from-Kept pol retries [] l = (0, omega arith, refl, λ d. absurd (omega arith))
  retry_from-Kept pol retries (a ∷ rs) l =
      resume-Kept pol retries a rs a.before (decide pol retries a.stopped a.after a.run_err a.wait)
        (retry_from pol (retries + 1) rs) l
        (λ again.
          retry_from-Kept pol (retries + 1) rs
            (decide-again pol retries a.stopped a.after a.run_err a.wait (omega arith) again))

  -- Retry with MaxAttempts > 0 has returned once that many attempts are over, however each of them
  -- ends. What it sends is what the first k attempts yielded, one after the other, for some k up to
  -- MaxAttempts.
  pub retry-budget :
      (pol : RetryStrategy) (rs : List (Attempt T))
      → 0 < pol.max_attempts
      → (k : ℕ) × (k ≤ pol.max_attempts)
        × ((retry pol rs).out ≡ all_yielded (take k rs))
        × (pol.max_attempts ≤ length rs → (e : Option Error) × ((retry pol rs).ending ≡ some e))
  unfolding retry
  retry-budget pol rs h =
      let (k, le, out, ends) = retry_from-Kept pol 0 rs h in
      (k, omega arith, out, λ d. ends (omega arith))
