-- ===== src/Resubscribe.antt =====
-- operator_retry.go: Retry, which runs its upstream pipeline again after an error.
--
-- One element of the list of attempts says what the source's calls give in one pass of the loop: the
-- context's error at its top, the items of the inner run that downstream took, whether downstream
-- refused one, the context's error after the run, the run's own error, and what ends the wait.
pub mod Budget
use go_kitsune.Prelude.{
  ℕ, ◌+◌, Bool, true, false, not, ◌&&◌, List, [], ◌∷◌, ◌++◌, Option, none, some, ltb, leb,
  if◌then◌else◌,
}
use go_kitsune.Errors.{Error}
use go_kitsune.Handlers.{Backoff}

-- `max_attempts` is 0 for every value that is not positive: no limit.
pub record RetryStrategy : Type 0 where
  pub max_attempts : ℕ
  pub backoff : Option Backoff
  pub retryable : Option (Error → Bool)

pub record Attempt {ℓ} (T : Type ℓ) : Type ℓ where
  pub before : Option Error
  pub yielded : List T
  pub stopped : Bool
  pub after : Option Error
  pub run_err : Option Error
  pub wait : Option Error

-- What Retry sends, and the error that it returns; `none` says that its loop goes on.
pub record Retried {ℓ} (T : Type ℓ) : Type ℓ where
  pub out : List T
  pub ending : Option (Option Error)

abbrev pub is_retryable : Option (Error → Bool) → Error → Bool
is_retryable none e = true
is_retryable (some f) e = f e

abbrev pub wait_for : Option Backoff → ℕ → ℕ
wait_for none retries = 0
wait_for (some bo) retries = bo retries

abbrev pub interrupted : Option Error → Option (Option Error)
interrupted none = none
interrupted (some c) = some (some c)

-- An error of the run: `none` is another attempt.
abbrev pub after_error : RetryStrategy → ℕ → Error → Option Error → Option (Option Error)
after_error pol retries e wait =
    if not (is_retryable pol.retryable e)
    then some (some e)
    else if ltb 0 pol.max_attempts && leb pol.max_attempts (retries + 1)
    then some (some e)
    else if ltb 0 (wait_for pol.backoff retries)
    then interrupted wait
    else none

-- The tests after the run, in order.
unfoldable pub decide :
    RetryStrategy → ℕ → Bool → Option Error → Option Error → Option Error → Option (Option Error)
decide pol retries true ctx run_err wait = some none
decide pol retries false (some c) run_err wait = some (some c)
decide pol retries false none none wait = some none
decide pol retries false none (some e) wait = after_error pol retries e wait

abbrev pub resume {ℓ} :
    {T : Type ℓ} → Option Error → Option (Option Error) → List T → Retried T → Retried T
resume (some c) verdict xs rest = record { out = []; ending = some (some c) }
resume none (some e) xs rest = record { out = xs; ending = some e }
resume none none xs rest = record { out = xs ++ rest.out; ending = rest.ending }

unfoldable pub retry_from {ℓ} : {T : Type ℓ} → RetryStrategy → ℕ → List (Attempt T) → Retried T
unfolding decide
retry_from pol retries [] = record { out = []; ending = none }
retry_from pol retries (a ∷ rs) =
    resume a.before (decide pol retries a.stopped a.after a.run_err a.wait) a.yielded
      (retry_from pol (retries + 1) rs)

unfoldable pub retry {ℓ} : {T : Type ℓ} → RetryStrategy → List (Attempt T) → Retried T
unfolding retry_from
retry pol rs = retry_from pol 0 rs
