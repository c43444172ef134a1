-- ===== src/Examples/Effects.antt =====
-- Runs of FlatMap, of the pool and of Effect.
use go_kitsune.Prelude.{
  ℕ, ◌+◌, ◌≡◌, ◌≢◌, ◌≤◌, refl, true, false, List, [], ◌∷◌, ◌++◌, none, some, ltb, if◌then◌else◌,
  arith,
}
use go_kitsune.Errors.{user, canceled, skipped, ok, err}
use go_kitsune.Keys.{nat_key}
use go_kitsune.Handlers.{default_handler}
use go_kitsune.Process.{FlatCall, flat_attempts_from}
use go_kitsune.Stage.{items, closed, ideal, Room, at_ctx_done}
use go_kitsune.FlatMap.{flat_map_loop, flat_map_fast_from}
use go_kitsune.FlatMap.Fast.{
  plain_outcome, yielded_before, yielded_failing, first_failure, ended_by, flat_map_fast_from-loop,
}
use go_kitsune.Pool.{Pool, Pooled, get, release, warmup}
use go_kitsune.Pool.Programs.{
  count, Holding, Op, get_one, release_held, warm_up, map_one, perform_all, new_pool,
}
use go_kitsune.Pool.Exclusive.{Readable, perform_all-exclusive}
use go_kitsune.Pool.Rewarmed.{warmup-released}
use go_kitsune.Effects.{EffectOutcome, Environment, applied_outcome, run_effect_attempts}
use go_kitsune.Effects.Attempted.{Within, run_effect_attempts-bounded}

abbrev small : List ℕ
small = 1 ∷ 2 ∷ 3 ∷ 1 ∷ []

abbrev roomy : Room
roomy = record { sends = 9; stop = at_ctx_done }

-- It yields twice, and then fails at three.
abbrev twice : ℕ → FlatCall ℕ
twice x = record { yielded = x ∷ x ∷ []; error = if ltb 2 x then some (user 5) else none }

twice-unskipped : (x : ℕ) → (twice x).error ≢ some skipped
twice-unskipped x eq = ground (arith, eq)

partial_send :
    flat_map_fast_from 1 16 twice 5 (3 ∷ []) small
    ≡ record { out = 1 ∷ 1 ∷ 2 ∷ 2 ∷ 3 ∷ 3 ∷ []; ending = ended_by 1 (some (user 5)) }
unfolding flat_map_fast_from
partial_send = refl

flat_map_fast_from-loop_example :
    (flat_attempts_from default_handler (λ k. twice 2) 4 canceled (λ k. none) 1 0
      ≡ some (plain_outcome (twice 2)))
    × (ideal (flat_map_loop 1 (λ x. plain_outcome (twice x))) tt (items small ++ closed ∷ [])
        ≡ record {
          out = yielded_before twice small;
          ending = ended_by 1 (first_failure twice small);
        })
    × (flat_map_fast_from 1 16 twice 5 (3 ∷ []) small ≡ record {
      out = yielded_before twice small ++ yielded_failing twice small;
      ending = ended_by 1 (first_failure twice small);
    })
flat_map_fast_from-loop_example =
    flat_map_fast_from-loop twice 1 16 (3 ∷ []) small [] 2 4 canceled (λ k. none) twice-unskipped
      (omega arith)

abbrev no_objects : ℕ → Pooled ℕ
no_objects i = record { value = 0; released = false }

abbrev program : List (Op ℕ)
program =
    warm_up 2 ∷ get_one ∷ map_one (err (user 1)) ∷ map_one (ok 8) ∷ release_held 1 ∷ get_one ∷ []

perform_all-exclusive_example :
    (s : Holding ℕ) × (perform_all (λ n. n) program (new_pool (λ n. n) no_objects) ≡ some s)
    × ((i : ℕ) → count i s.held + count i s.pool.stack ≤ 1)
    × Readable (λ n. n) s
perform_all-exclusive_example = perform_all-exclusive (λ n. n) no_objects program

warmup-released_example :
    (q : Pool ℕ) × (release 4
        (warmup (λ n. n) 1 (record { stack = 4 ∷ 2 ∷ []; objects = no_objects; made = 5 }))
      ≡ some q)
    × ((get (λ n. n) q).1 ≡ 4)
    × ((get (λ n. n) (get (λ n. n) q).0).1 ≡ 4)
warmup-released_example = warmup-released (λ n. n) 4 5 (2 ∷ []) no_objects

-- The third attempt succeeds.
abbrev flaky : Environment ℕ
flaky = record {
  ctx_err = λ n. none;
  call = λ n. if ltb n 2 then err (user n) else ok n;
  wait = λ n. none;
}

run_effect_attempts-bounded_example :
    Within {I = ℕ} 0 7
      (record { max_attempts = some 3; is_retryable = λ e. true })
      flaky
      3
      (run_effect_attempts 0 7 (record { max_attempts = some 3; is_retryable = λ e. true }) flaky 3)
run_effect_attempts-bounded_example = run_effect_attempts-bounded 0 7 3 0 (λ e. true) flaky

abbrev published : ℕ → EffectOutcome ℕ ℕ
published x = applied_outcome 0 x (x + 10)
