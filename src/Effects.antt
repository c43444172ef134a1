-- ===== src/Effects.antt =====
-- effect.go: runEffectAttempts and the stage of Effect, and idempotency.go: memoryIdempotencyStore.
--
-- What fn returns at an attempt is given, and so is ctx.Err() before it, and what ends the wait after it
-- (`none` the timer). `zero_value` is Go's zero value of the result. The attempts run on fuel. An
-- outcome comes with the number of calls of fn, which only the model counts. The counters of the run and the
-- hook are left out.
pub mod Attempted
pub mod Deduped
use go_kitsune.Prelude.{
  ℕ, zero, suc, ◌+◌, Bool, true, false, ◌&&◌, not, List, [], ◌∷◌, Option, none, some, ltb, leb,
  ◌==◌, if◌then◌else◌,
}
use go_kitsune.Keys.{Eq, member}
use go_kitsune.Errors.{Error, Result, ok, err}
use go_kitsune.Stage.{Action, continue, finish, returned, Loop, select_send, never, endless}
use go_kitsune.Transform.{return_nil}

pub record EffectOutcome (I R : Type 0) : Type 0 where
  pub input : I
  pub result : R
  pub error : Option Error
  pub applied : Bool
  pub deduped : Bool

-- RetryStrategy, as far as the attempts depend on it; `none` is a negative MaxAttempts.
pub record EffectRetry : Type 0 where
  pub max_attempts : Option ℕ
  pub is_retryable : Error → Bool

-- `if maxAttempts == 0 { maxAttempts = 1 }`
abbrev pub at_least_one : ℕ → ℕ
at_least_one n = if n == 0 then 1 else n

-- `maxAttempts > 0 && attempt+1 >= maxAttempts`
abbrev pub exhausted : Option ℕ → ℕ → Bool
exhausted none attempt = false
exhausted (some n) attempt = leb (at_least_one n) (attempt + 1)

pub record Environment (R : Type 0) : Type 0 where
  pub ctx_err : ℕ → Option Error
  pub call : ℕ → Result R
  pub wait : ℕ → Option Error

module _ {I R : Type 0} (zero_value : R) (x : I) where
  abbrev pub failed_outcome : Error → EffectOutcome I R
  failed_outcome e = record {
    input = x;
    result = zero_value;
    error = some e;
    applied = false;
    deduped = false;
  }

  abbrev pub applied_outcome : R → EffectOutcome I R
  applied_outcome v = record {
    input = x;
    result = v;
    error = none;
    applied = true;
    deduped = false;
  }

  -- `EffectOutcome{Input: item}`, of a dry run or of an item that is left out
  abbrev pub blank_outcome : Bool → EffectOutcome I R
  blank_outcome deduped = record {
    input = x;
    result = zero_value;
    error = none;
    applied = false;
    deduped = deduped;
  }

  -- After a call of fn.
  abbrev pub waited :
      Option Error → ℕ → Option (EffectOutcome I R × ℕ) → Option (EffectOutcome I R × ℕ)
  waited none attempt again = again
  waited (some c) attempt again = some (failed_outcome c, attempt + 1)

  abbrev pub after_call :
      EffectRetry
      → Result R
      → Option Error
      → ℕ
      → Option (EffectOutcome I R × ℕ)
      → Option (EffectOutcome I R × ℕ)
  after_call r (ok v) wait attempt again = some (applied_outcome v, attempt + 1)
  after_call r (err e) wait attempt again =
      if not (r.is_retryable e)
      then some (failed_outcome e, attempt + 1)
      else if exhausted r.max_attempts attempt
      then some (failed_outcome e, attempt + 1)
      else waited wait attempt again

  abbrev pub attempt_unless :
      Option Error → ℕ → Option (EffectOutcome I R × ℕ) → Option (EffectOutcome I R × ℕ)
  attempt_unless (some c) attempt go = some (failed_outcome c, attempt)
  attempt_unless none attempt go = go

  -- The loop from an attempt on; `none` says that the fuel is spent.
  unfoldable pub attempts_from :
      EffectRetry → Environment R → ℕ → ℕ → Option (EffectOutcome I R × ℕ)
  attempts_from r env zero attempt = none
  attempts_from r env (suc fuel) attempt =
      let again = attempts_from r env fuel (attempt + 1) in
      attempt_unless (env.ctx_err attempt) attempt
        (after_call r (env.call attempt) (env.wait attempt) attempt again)

  unfoldable pub run_effect_attempts :
      EffectRetry → Environment R → ℕ → Option (EffectOutcome I R × ℕ)
  unfolding attempts_from
  run_effect_attempts r env fuel = attempts_from r env fuel 0

-- memoryIdempotencyStore.Add, and any other IdempotencyStore: the new state, and whether the key is new.
abbrev pub IdempotencyStore : Type 0 → Type 0 → Type 0
IdempotencyStore K St = K → St → St × Result Bool

unfoldable pub memory_add : {K : Type 0} ⦃e : Eq K⦄ → IdempotencyStore K (List K)
memory_add key seen = if member key seen then (seen, ok false) else (key ∷ seen, ok true)

-- The stage of Effect: `key_fn` gives `none` for the empty key, `attempted` is what runEffectAttempts
-- returns for an item, and `dedup` is the store, when Idempotent and a key function are set.
module _ {I R K St : Type 0} (zero_value : R) (dry_run : Bool)
    (dedup : Option (IdempotencyStore K St)) (key_fn : I → Option K)
    (attempted : I → EffectOutcome I R) where
  -- After the store's answer.
  abbrev pub answered : I → St × Result Bool → EffectOutcome I R × St
  answered x (s, ok true) = (attempted x, s)
  answered x (s, ok false) = (blank_outcome zero_value x true, s)
  answered x (s, err e) = (failed_outcome zero_value x e, s)

  abbrev pub with_key : Option (IdempotencyStore K St) → Option K → I → St → EffectOutcome I R × St
  with_key none key x s = (attempted x, s)
  with_key (some add) none x s = (attempted x, s)
  with_key (some add) (some key) x s = answered x (add key s)

  abbrev pub effect_item : I → St → EffectOutcome I R × St
  effect_item x s =
      if dry_run then (blank_outcome zero_value x false, s) else with_key dedup (key_fn x) x s

  abbrev pub send_outcome : EffectOutcome I R × St → Action St (EffectOutcome I R)
  send_outcome (o, s) = continue (o ∷ []) s

  unfoldable pub effect_loop : Loop St I (EffectOutcome I R)
  effect_loop = record {
    finished = endless;
    on_item = λ s x. send_outcome (effect_item x s);
    on_closed = return_nil;
    on_signal = never;
    on_signal_closed = never;
    interrupted = select_send;
  }
