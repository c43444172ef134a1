-- ===== src/Handlers.antt =====
-- The error handlers of config.go (Halt, ActionDrop, Return, TypedReturn, RetryMax, RetryThen, RetryIf,
-- RetryIfThen), with DefaultHandler of internal/hooks.go.
--
-- A duration is a number of nanoseconds. The retry budget `max` is not negative: a negative one
-- behaves as 0, since it is only compared with the attempt.
use go_kitsune.Prelude.{ℕ, Bool, Option, none, some, ltb, if◌then◌else◌}
use go_kitsune.Errors.{Error}

-- internal.ErrorAction
pub data ErrorAction : Type 0 where
  action_halt action_skip action_retry action_return : ErrorAction

abbrev pub Backoff : Type 0
Backoff = ℕ → ℕ

-- A value of type `any`, as the assertion `val.(O)` sees it: of type O, or of another type or nil.
pub data AnyValue {ℓ} (O : Type ℓ) : Type ℓ where
  of_type : O → AnyValue O
  other_type : AnyValue O

pub data Handler {ℓ} (O : Type ℓ) : Type ℓ where
  default_handler : Handler O
  skip_handler : Handler O
  return_handler : AnyValue O → Handler O
  typed_return_handler : O → Handler O
  retry_handler : ℕ → Option Backoff → Handler O → Handler O
  retry_if_handler : (Error → Bool) → Option Backoff → Handler O → Handler O

module _ {ℓ} {O : Type ℓ} where
  -- Handle: the fallback of a retry handler is asked with attempt 0, whatever the attempt.
  unfoldable pub handle : Handler O → Error → ℕ → ErrorAction
  handle default_handler e attempt = action_halt
  handle skip_handler e attempt = action_skip
  handle (return_handler v) e attempt = action_return
  handle (typed_return_handler v) e attempt = action_return
  handle (retry_handler max bo fallback) e attempt =
      let rest = handle fallback e 0 in if ltb attempt max then action_retry else rest
  handle (retry_if_handler predicate bo fallback) e attempt =
      let rest = handle fallback e 0 in if predicate e then action_retry else rest

  -- Backoff: `none` is a nil function.
  unfoldable pub backoff : Handler O → Option Backoff
  backoff (retry_handler max bo fallback) = bo
  backoff (retry_if_handler predicate bo fallback) = bo
  backoff h = none

  -- `r, ok := h.(Returner)` and ReturnValue: a retry handler is a Returner, whose value is nil when
  -- its fallback is none.
  abbrev or_nil : Option (AnyValue O) → AnyValue O
  or_nil none = other_type
  or_nil (some v) = v

  unfoldable pub return_value : Handler O → Option (AnyValue O)
  return_value default_handler = none
  return_value skip_handler = none
  return_value (return_handler v) = some v
  return_value (typed_return_handler v) = some (of_type v)
  return_value (retry_handler max bo fallback) = some (or_nil (return_value fallback))
  return_value (retry_if_handler predicate bo fallback) = some (or_nil (return_value fallback))

  abbrev pub retry_max : ℕ → Option Backoff → Handler O
  retry_max n bo = retry_handler n bo default_handler

  abbrev pub retry_then : ℕ → Option Backoff → Handler O → Handler O
  retry_then n bo fallback = retry_handler n bo fallback
