-- ===== src/Breaker.antt =====
-- middleware.go: the circuit breaker and its options. A time is a number of clock units, with 0 for
-- the zero time.Time; a method that mutates `*circuitBreaker` under its mutex returns the new record.
pub mod Safety
pub mod Trips
use go_kitsune.Prelude.{
  ℕ, ◌+◌, ◌-◌, Bool, true, false, not, ◌&&◌, ◌||◌, List, [], ◌∷◌, ltb, leb, if◌then◌else◌,
}
use go_kitsune.Errors.{circuit_open, Result, ok, err}

pub data CbState : Type 0 where
  cb_closed cb_open cb_half_open : CbState

pub record BreakerConfig : Type 0 where
  pub failure_threshold : ℕ
  pub cooldown : ℕ
  pub half_open_probes : ℕ
  pub half_open_timeout : ℕ

-- The options: each ignores a value that is not positive.
unfoldable pub failure_threshold_opt : ℕ → BreakerConfig → BreakerConfig
failure_threshold_opt n c = if ltb 0 n then record c { failure_threshold = n } else c

unfoldable pub cooldown_duration_opt : ℕ → BreakerConfig → BreakerConfig
cooldown_duration_opt d c = if ltb 0 d then record c { cooldown = d } else c

unfoldable pub half_open_probes_opt : ℕ → BreakerConfig → BreakerConfig
half_open_probes_opt n c = if ltb 0 n then record c { half_open_probes = n } else c

unfoldable pub half_open_timeout_opt : ℕ → BreakerConfig → BreakerConfig
half_open_timeout_opt d c = if ltb 0 d then record c { half_open_timeout = d } else c

-- One option of the list given to CircuitBreaker.
pub data BreakerOpt : Type 0 where
  threshold cooldown_for probes timeout : ℕ → BreakerOpt

unfoldable pub apply_opt : BreakerConfig → BreakerOpt → BreakerConfig
unfolding failure_threshold_opt cooldown_duration_opt half_open_probes_opt half_open_timeout_opt
apply_opt c (threshold n) = failure_threshold_opt n c
apply_opt c (cooldown_for d) = cooldown_duration_opt d c
apply_opt c (probes n) = half_open_probes_opt n c
apply_opt c (timeout d) = half_open_timeout_opt d c

-- The loop over cbOpts, from the defaults; `ten_seconds` is 10 * time.Second.
abbrev pub ten_seconds : ℕ
ten_seconds = 10_000_000_000

unfoldable pub apply_opts : BreakerConfig → List BreakerOpt → BreakerConfig
apply_opts c [] = c
apply_opts c (o ∷ os) = apply_opts (apply_opt c o) os

unfoldable pub default_config : BreakerConfig
default_config = record {
  failure_threshold = 5;
  cooldown = ten_seconds;
  half_open_probes = 1;
  half_open_timeout = 0;
}

pub record Breaker : Type 0 where
  pub state : CbState
  pub failures : ℕ
  pub successes_needed : ℕ
  pub open_until : ℕ
  pub half_open_deadline : ℕ

-- `&circuitBreaker{cfg: cfg}`
unfoldable pub new_breaker : Breaker
new_breaker = record {
  state = cb_closed;
  failures = 0;
  successes_needed = 0;
  open_until = 0;
  half_open_deadline = 0;
}

-- The results of `allow`.
pub record Verdict : Type 0 where
  pub allowed : Bool
  pub is_open : Bool

abbrev pub pass : Verdict
pass = record { allowed = true; is_open = false }

abbrev pub reject : Verdict
reject = record { allowed = false; is_open = true }

module _ (c : BreakerConfig) where
  allow_open : Breaker → ℕ → Breaker × Verdict
  allow_open cb now = if ltb now cb.open_until then (cb, reject) else (
    record cb {
      state = cb_half_open;
      successes_needed = c.half_open_probes;
      half_open_deadline =
          if ltb 0 c.half_open_timeout then now + c.half_open_timeout else cb.half_open_deadline;
    },
    pass,
  )

  allow_half_open : Breaker → ℕ → Breaker × Verdict
  allow_half_open cb now =
      if ltb 0 c.half_open_timeout && ltb cb.half_open_deadline now
      then (
        record cb {
          state = cb_open;
          failures = 0;
          open_until = now + c.cooldown;
          half_open_deadline = 0;
        },
        reject,
      )
      else (cb, pass)

  allow_in : CbState → Breaker → ℕ → Breaker × Verdict
  allow_in cb_closed cb now = (cb, pass)
  allow_in cb_open cb now = allow_open cb now
  allow_in cb_half_open cb now = allow_half_open cb now

  unfoldable pub allow : Breaker → ℕ → Breaker × Verdict
  unfolding allow_in allow_open allow_half_open
  allow cb now = allow_in cb.state cb now

  abbrev pub is_half_open : CbState → Bool
  is_half_open cb_half_open = true
  is_half_open _ = false

  -- `successesNeeded--` runs only in the half-open state, where it is positive.
  unfoldable pub record_success : Breaker → Breaker
  record_success cb =
      if is_half_open cb.state
      then if leb cb.successes_needed 1
        then record cb {
          state = cb_closed;
          successes_needed = cb.successes_needed - 1;
          failures = 0;
          half_open_deadline = 0;
        }
        else record cb { successes_needed = cb.successes_needed - 1 }
      else record cb { failures = 0 }

  unfoldable pub record_failure : Breaker → ℕ → Breaker
  record_failure cb now =
      if is_half_open cb.state || leb c.failure_threshold (cb.failures + 1)
      then record cb { state = cb_open; open_until = now + c.cooldown; failures = 0 }
      else record cb { failures = cb.failures + 1 }

  -- What happens once `allow` has answered: `result` is what fn returns if it is called, and
  -- `later` the time at which it returns.
  attempt {ℓ} : {O : Type ℓ} → Breaker × Verdict → Result O → ℕ → Breaker × Result O
  attempt (cb, v) result later =
      if v.is_open || not v.allowed then (cb, err circuit_open) else elim result [
        | err e ↦ (record_failure cb later, err e)
        | ok x ↦ (record_success cb, ok x)
      ]

  -- The function that CircuitBreaker hands to Map, for one item.
  unfoldable pub wrapped {ℓ} : {O : Type ℓ} → Breaker → ℕ → Result O → ℕ → Breaker × Result O
  unfolding attempt
  wrapped cb now result later = attempt (allow cb now) result later

-- With several workers the calls of one breaker interleave: one locked method at a time.
pub data Op : Type 0 where
  allows : ℕ → Op
  succeeds : Op
  fails : ℕ → Op

unfoldable pub step : BreakerConfig → Breaker → Op → Breaker
step c cb (allows now) = (allow c cb now).0
step c cb succeeds = record_success c cb
step c cb (fails now) = record_failure c cb now

unfoldable pub steps : BreakerConfig → Breaker → List Op → Breaker
steps c cb [] = cb
steps c cb (o ∷ os) = steps c (step c cb o) os
