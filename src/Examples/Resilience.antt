-- ===== src/Examples/Resilience.antt =====
-- Runs of the circuit breaker, the error handlers, the supervision and the outboxes.
use go_kitsune.Prelude.{
  ℕ, if◌then◌else◌, ◌+◌, ◌≤◌, ◌≡◌, ◌≢◌, refl, ltb, List, [], ◌∷◌, none, some, false, length, arith,
}
use go_kitsune.Errors.{user, Result, ok, err}
use go_kitsune.Handlers.{Backoff, retry_then, skip_handler}
use go_kitsune.Process.{process_item, FlatCall, FlatOutcome, flat_attempts_from}
use go_kitsune.Supervisor.{
  SupervisionPolicy, panic_propagate, panic_restart, Try, run_panic, Supervised, repanicked,
  supervise,
}
use go_kitsune.Process.Attempts.{
  undisturbed, first_of, process_item-retry_then, process_item-nested,
}
use go_kitsune.Process.Atomic.{Atomic, flat_attempts_from-Atomic}
use go_kitsune.Supervisor.Restarting.{supervise-ends, supervise-recovers}
use go_kitsune.Breaker.{
  BreakerConfig, Breaker, cb_closed, cb_open, cb_half_open, default_config, apply_opts, threshold,
  new_breaker, allows, steps, wrapped,
}
use go_kitsune.Breaker.Safety.{Inv, steps-new_breaker-Inv}
use go_kitsune.Breaker.Trips.{Call, calls, calls_trip}
use go_kitsune.Outbox.{Pick, call, advance, receive, new_system, schedule, pick, step_of}
use go_kitsune.Outbox.Conserved.{count, in_flight, schedule-conserves}

abbrev tripping : BreakerConfig
tripping = record {
  failure_threshold = 2;
  cooldown = 10;
  half_open_probes = 1;
  half_open_timeout = 0;
}

abbrev failure : Result ℕ
failure = err (user 1)

abbrev success : Result ℕ
success = ok 3

abbrev broken : Call ℕ
broken = record { now = 5; result = failure; later = 6 }

abbrev working : Call ℕ
working = record { now = 5; result = success; later = 6 }

abbrev closed_breaker : Breaker
closed_breaker = record {
  state = cb_closed;
  failures = 0;
  successes_needed = 0;
  open_until = 0;
  half_open_deadline = 0;
}

abbrev probing_breaker : Breaker
probing_breaker = record {
  state = cb_half_open;
  failures = 0;
  successes_needed = 1;
  open_until = 0;
  half_open_deadline = 0;
}

abbrev two_to_go : Breaker
two_to_go = record probing_breaker { successes_needed = 2 }

abbrev open_breaker : Breaker
open_breaker = record {
  state = cb_open;
  failures = 0;
  successes_needed = 0;
  open_until = 16;
  half_open_deadline = 0;
}

steps-new_breaker-Inv_example :
    Inv
      (apply_opts default_config (threshold 2 ∷ []))
      (steps (apply_opts default_config (threshold 2 ∷ [])) new_breaker (allows 3 ∷ []))
steps-new_breaker-Inv_example = steps-new_breaker-Inv (threshold 2 ∷ []) (allows 3 ∷ [])

calls_trip_example :
    (calls tripping closed_breaker (broken ∷ []) ≡ record closed_breaker { failures = 1 })
    × ((wrapped tripping (calls tripping closed_breaker (broken ∷ [])) 5 failure 6).0
        ≡ open_breaker)
calls_trip_example =
    calls_trip tripping closed_breaker (broken ∷ []) broken refl ((user 1, refl), tt) (user 1, refl)
      refl

abbrev wait_one : Backoff
wait_one attempt = 1

-- It fails twice.
abbrev flaky : ℕ → Result ℕ
flaky attempt = if ltb attempt 2 then err (user attempt) else ok 5

process_item-retry_then_example :
    process_item (some (retry_then 3 (some wait_one) skip_handler)) flaky undisturbed 4
    ≡ some (record { result = ok 5; attempt = 2 })
unfolding first_of
process_item-retry_then_example = process_item-retry_then skip_handler 3 0 wait_one flaky tt

process_item-nested_example :
    process_item {O = ℕ}
      (some (retry_then 1 (some wait_one) (retry_then 1 (some wait_one) skip_handler)))
      (λ k. err (user k))
      undisturbed
      50
    ≡ none
process_item-nested_example = process_item-nested skip_handler user 1 0 50 wait_one (some wait_one)

abbrev flaky_flat : ℕ → FlatCall ℕ
flaky_flat attempt = record {
  yielded = attempt ∷ 9 ∷ [];
  error = if ltb attempt 1 then some (user 0) else none;
}

flat_attempts_from-Atomic_example :
    (o : FlatOutcome ℕ) × (flat_attempts_from
        (retry_then 2 (some wait_one) skip_handler)
        flaky_flat
        5
        (user 7)
        undisturbed
        3
        0
      ≡ some o)
    × Atomic flaky_flat 5 o
    × (o.attempt ≤ 2)
flat_attempts_from-Atomic_example =
    flat_attempts_from-Atomic skip_handler flaky_flat 5 (user 7) undisturbed 2 0 (some wait_one) tt

abbrev restart_once : SupervisionPolicy
restart_once = record {
  max_restarts = 1;
  window = 0;
  backoff_of = none;
  on_panic = panic_restart;
  panic_only = false;
}

abbrev crash : Try
crash = record { run_end = run_panic 3; ctx_err = none; since = 0; now = 0; stop = none }

supervise-ends_example : (r : Supervised) × (supervise restart_once (crash ∷ crash ∷ []) ≡ some r)
supervise-ends_example = supervise-ends restart_once (crash ∷ crash ∷ []) refl (omega arith)

restarts_differ : panic_restart ≢ panic_propagate
restarts_differ eq = cc eq

supervise-recovers_example : supervise restart_once (crash ∷ crash ∷ []) ≢ some (repanicked 3)
supervise-recovers_example = supervise-recovers restart_once (crash ∷ crash ∷ []) 3 restarts_differ

-- Two workers that share a mutex.
abbrev one_mutex : ℕ → ℕ
one_mutex worker = 0

abbrev racing : List (Pick ℕ)
racing =
    call 0 7
    ∷ advance 0
    ∷ call 0 8
    ∷ call 1 9
    ∷ advance 0
    ∷ advance 0
    ∷ advance 0
    ∷ advance 0
    ∷ advance 1
    ∷ advance 0
    ∷ receive
    ∷ []

-- Worker 1 fills, by the lock-free fast path, the slot that worker 0 has just made under the mutex, and
-- worker 0 drops its own item, the newest: its last default case does happen.
racing_drops_newest : (schedule one_mutex (new_system 1 2) racing).wire.dropped ≡ 7 ∷ 8 ∷ []
unfolding schedule pick step_of
racing_drops_newest = refl

schedule-conserves_example :
    let s = schedule one_mutex (new_system 1 2) racing in
    (length s.wire.buf ≤ 1)
    × (count (λ x. ltb x 9) s.wire.taken
          + count (λ x. ltb x 9) s.wire.buf
          + count (λ x. ltb x 9) s.wire.dropped
          + in_flight (λ x. ltb x 9) s.phases
        ≡ count (λ x. ltb x 9) s.started)
schedule-conserves_example = schedule-conserves (λ x. ltb x 9) 1 2 one_mutex racing
