-- ===== src/Process/Attempts.antt =====
-- How many attempts ProcessItem makes, and which of them it returns.
use go_kitsune.Prelude.{
  ℕ, zero, suc, ◌+◌, ◌≤◌, ◌<◌, ◌≡◌, refl, true, false, Option, none, some, arith,
}
use go_kitsune.Errors.{Error, skipped, Result, ok, err}
use go_kitsune.Handlers.{
  Handler, default_handler, skip_handler, return_handler, typed_return_handler, handle,
  retry_handler, retry_if_handler, Backoff, backoff, return_value, retry_then,
}
use go_kitsune.Process.{Outcome, replaced, conclude, attempts_from, process_item}

-- No wait of a backoff is cut short by the context.
abbrev pub undisturbed : ℕ → Option Error
undisturbed n = none

module _ {ℓ} {O : Type ℓ} where
  -- A handler that never asks for a retry.
  abbrev pub Settles : Handler O → Type 0
  Settles default_handler = Unit
  Settles skip_handler = Unit
  Settles (return_handler v) = Unit
  Settles (typed_return_handler v) = Unit
  Settles h = true ≡ false

  -- What such a handler makes of an error.
  abbrev pub fallen_back : Handler O → Error → Result O
  fallen_back default_handler e = err e
  fallen_back skip_handler e = err skipped
  fallen_back h e = replaced (return_value h) e

  -- The first success within k retries from the attempt n on, or what the fallback makes of the error
  -- of the last one.
  abbrev pub final_or : Handler O → Result O → ℕ → Outcome O
  final_or fb (ok v) n = record { result = ok v; attempt = n }
  final_or fb (err e) n = record { result = fallen_back fb e; attempt = n }

  abbrev pub next_or : Result O → ℕ → Outcome O → Outcome O
  next_or (ok v) n later = record { result = ok v; attempt = n }
  next_or (err e) n later = later

  unfoldable pub first_of : Handler O → (ℕ → Result O) → ℕ → ℕ → Outcome O
  first_of fb fn zero n = final_or fb (fn n) n
  first_of fb fn (suc k) n = next_or (fn n) n (first_of fb fn k (n + 1))

  conclude-settle :
      (fb : Handler O) (r : Result O) (max n : ℕ) (bo : Option Backoff) (again : Option (Outcome O))
      → Settles fb
      → max ≤ n
      → conclude (retry_handler max bo fb) r none n again ≡ some (final_or fb r n)
  unfolding handle return_value
  conclude-settle default_handler (ok v) max n bo again h g = refl
  conclude-settle skip_handler (ok v) max n bo again h g = refl
  conclude-settle (return_handler x) (ok v) max n bo again h g = refl
  conclude-settle (typed_return_handler x) (ok v) max n bo again h g = refl
  conclude-settle default_handler (err e) max n bo again h g = ground arith
  conclude-settle skip_handler (err e) max n bo again h g = ground arith
  conclude-settle (return_handler x) (err e) max n bo again h g = ground arith
  conclude-settle (typed_return_handler x) (err e) max n bo again h g = ground arith
  conclude-settle (retry_handler m b f) r max n bo again h g = absurd (cc h)
  conclude-settle (retry_if_handler p b f) r max n bo again h g = absurd (cc h)

  conclude-again :
      (fb : Handler O) (r : Result O) (max n : ℕ) (bo : Backoff) (later : Outcome O)
      → n < max
      → conclude (retry_handler max (some bo) fb) r none n (some later) ≡ some (next_or r n later)
  unfolding handle backoff
  conclude-again fb (ok v) max n bo later g = refl
  conclude-again fb (err e) max n bo later g = ground arith

  attempts-first :
      (fb : Handler O) (max n k fuel : ℕ) (bo : Backoff) (fn : ℕ → Result O)
      → Settles fb
      → k + n ≡ max
      → k < fuel
      → attempts_from (retry_handler max (some bo) fb) fn undisturbed fuel n
        ≡ some (first_of fb fn k n)
  unfolding attempts_from first_of
  attempts-first fb max n k zero bo fn h g l = absurd (omega arith)
  attempts-first fb max n zero (suc fuel) bo fn h g l =
      conclude-settle fb (fn n) max n (some bo) _ h (omega arith)
  attempts-first fb max n (suc k) (suc fuel) bo fn h g l =
      rw (attempts-first fb max (n + 1) k fuel bo fn h (omega arith) (omega arith))
        (conclude-again fb (fn n) max n bo _ (omega arith))

  -- RetryThen with a fallback that does not retry, and a backoff that is not nil, whose waits the
  -- context does not cut short: fuel for max + 1 attempts is enough, the first success among the
  -- attempts 0 to max is the result, with its index, and if there is none, what the fallback makes
  -- of the error of the attempt max.
  pub process_item-retry_then :
      (fb : Handler O) (max extra : ℕ) (bo : Backoff) (fn : ℕ → Result O)
      → Settles fb
      → process_item (some (retry_then max (some bo) fb)) fn undisturbed (suc (max + extra))
        ≡ some (first_of fb fn max 0)
  unfolding process_item
  process_item-retry_then fb max extra bo fn h =
      attempts-first fb max 0 max (suc (max + extra)) bo fn h (omega arith) (omega arith)

  -- A fallback that itself retries is asked with attempt 0 each time.
  conclude-nested :
      (fb : Handler O) (e : Error) (max inner n : ℕ) (bo : Backoff) (bo' : Option Backoff)
      → conclude (retry_then max (some bo) (retry_then (suc inner) bo' fb)) (err e) none n none
        ≡ none
  unfolding handle backoff
  conclude-nested fb e max inner n bo bo' = ground arith

  attempts-nested :
      (fb : Handler O) (e : ℕ → Error) (max inner fuel n : ℕ) (bo : Backoff) (bo' : Option Backoff)
      → attempts_from
          (retry_then max (some bo) (retry_then (suc inner) bo' fb))
          (λ k. err (e k))
          undisturbed
          fuel
          n
        ≡ none
  unfolding attempts_from
  attempts-nested fb e max inner zero n bo bo' = refl
  attempts-nested fb e max inner (suc fuel) n bo bo' =
      rw (attempts-nested fb e max inner fuel (n + 1) bo bo')
        (conclude-nested fb (e n) max inner n bo bo')

  -- A RetryThen with a backoff, whose fallback is a RetryThen that retries at least once, never gives up
  -- on an item that always fails, as long as no wait of the backoff is cut short by the context: no
  -- amount of fuel gives a result, whatever the two budgets, the errors and the backoffs, and whatever
  -- stands behind the second. (With no backoff at all, or when the context ends, ProcessItem returns.)
  pub process_item-nested :
      (fb : Handler O) (e : ℕ → Error) (max inner fuel : ℕ) (bo : Backoff) (bo' : Option Backoff)
      → process_item
          (some (retry_then max (some bo) (retry_then (suc inner) bo' fb)))
          (λ k. err (e k))
          undisturbed
          fuel
        ≡ none
  unfolding process_item
  process_item-nested fb e max inner fuel bo bo' = attempts-nested fb e max inner fuel 0 bo bo'
