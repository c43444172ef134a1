-- ===== src/Errors.antt =====
-- Go's `error` values as the engine tells them apart (internal/process.go, internal/hooks.go), and
-- WrapStageErr. `user` is an error that a callback returns, `panicked` the error that Supervise makes
-- of a panic, `wrapped` one that wraps another (`%w`), and `stage_error` is StageError, with the
-- stage's name as a number. A nil error is `none` in an `Option`.
use go_kitsune.Prelude.{ℕ, Bool, true, false, if◌then◌else◌}

pub data Error : Type 0 where
  canceled : Error
  deadline_exceeded : Error
  skipped : Error
  circuit_open : Error
  user : ℕ → Error
  panicked : ℕ → Error
  wrapped : Error → Error
  stage_error : ℕ → ℕ → Error → Error

-- A Go result `(v, err)`: a value where err is nil.
pub data Result {ℓ} (A : Type ℓ) : Type ℓ where
  ok : A → Result A
  err : Error → Result A

-- `errors.As(err, &se)` for a *StageError.
unfoldable pub is_stage_error : Error → Bool
is_stage_error (stage_error name attempt cause) = true
is_stage_error (wrapped e) = is_stage_error e
is_stage_error e = false

-- WrapStageErr for an error that is not nil.
unfoldable pub wrap_stage_err : ℕ → Error → ℕ → Error
unfolding is_stage_error
wrap_stage_err name skipped attempt = skipped
wrap_stage_err name canceled attempt = canceled
wrap_stage_err name deadline_exceeded attempt = deadline_exceeded
wrap_stage_err name e attempt = if is_stage_error e then e else stage_error name attempt e
