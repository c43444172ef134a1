-- ===== src/Breaker/Safety.antt =====
-- What holds of a breaker after any interleaving of its methods.
use go_kitsune.Prelude.{ℕ, ◌≤◌, ◌<◌, ◌≡◌, List, [], ◌∷◌, arith}
use go_kitsune.Errors.{Result, err, circuit_open}
use go_kitsune.Breaker.{
  BreakerConfig, BreakerOpt, Breaker, cb_open, cb_half_open, threshold, cooldown_for, probes,
  timeout, apply_opt, apply_opts, default_config, new_breaker, allow, record_success,
  record_failure, wrapped, Op, allows, succeeds, fails, step, steps,
}

-- What the options leave of a configuration.
pub record IsConfig (c : BreakerConfig) : Type 0 where
  pub threshold_pos : 0 < c.failure_threshold
  pub cooldown_pos : 0 < c.cooldown
  pub probes_pos : 0 < c.half_open_probes

pub record Inv (c : BreakerConfig) (cb : Breaker) : Type 0 where
  pub failures_below : cb.failures < c.failure_threshold
  pub probing : cb.state ≡ cb_half_open → 0 < cb.successes_needed
  pub probes_bounded : cb.successes_needed ≤ c.half_open_probes

apply_opt-IsConfig : (c : BreakerConfig) (o : BreakerOpt) → IsConfig c → IsConfig (apply_opt c o)
unfolding apply_opt
apply_opt-IsConfig c (threshold n) h = ground arith
apply_opt-IsConfig c (cooldown_for n) h = ground arith
apply_opt-IsConfig c (probes n) h = ground arith
apply_opt-IsConfig c (timeout n) h = ground arith

pub apply_opts-IsConfig :
    (c : BreakerConfig) (os : List BreakerOpt) → IsConfig c → IsConfig (apply_opts c os)
unfolding apply_opts
apply_opts-IsConfig c [] h = h
apply_opts-IsConfig c (o ∷ os) h = apply_opts-IsConfig (apply_opt c o) os (apply_opt-IsConfig c o h)

pub default-IsConfig : IsConfig default_config
unfolding default_config
default-IsConfig = omega arith

pub step-Inv :
    (c : BreakerConfig) (cb : Breaker) (o : Op) → IsConfig c → Inv c cb → Inv c (step c cb o)
unfolding step allow record_success record_failure
step-Inv c cb (allows now) h v = ground arith
step-Inv c cb succeeds h v = ground arith
step-Inv c cb (fails now) h v = ground arith

pub steps-Inv :
    (c : BreakerConfig) (cb : Breaker) (os : List Op)
    → IsConfig c
    → Inv c cb
    → Inv c (steps c cb os)
unfolding steps
steps-Inv c cb [] h v = v
steps-Inv c cb (o ∷ os) h v = steps-Inv c (step c cb o) os h (step-Inv c cb o h v)

new_breaker-Inv : (c : BreakerConfig) → IsConfig c → Inv c new_breaker
unfolding new_breaker
new_breaker-Inv c h = ground arith

-- With any list of options, and after any interleaving of its methods by any number of workers, a
-- breaker counts fewer failures than the threshold, and while it is half-open it still needs at
-- least one success and at most the configured number of probes.
pub steps-new_breaker-Inv :
    (opts : List BreakerOpt) (os : List Op)
    → Inv (apply_opts default_config opts) (steps (apply_opts default_config opts) new_breaker os)
steps-new_breaker-Inv opts os =
    let h = apply_opts-IsConfig default_config opts default-IsConfig in
    steps-Inv _ new_breaker os h (new_breaker-Inv _ h)

-- While the cooldown of an open breaker runs, an item gets ErrCircuitOpen whatever fn would have
-- returned, and the breaker is as it was.
pub wrapped_open {ℓ} :
    {O : Type ℓ} (c : BreakerConfig) (cb : Breaker) (now later : ℕ) (result : Result O)
    → cb.state ≡ cb_open
    → now < cb.open_until
    → wrapped c cb now result later ≡ (cb, err circuit_open)
unfolding wrapped allow
wrapped_open c cb now later result e h = ground arith
