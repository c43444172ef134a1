-- ===== src/Examples/Parallel.antt =====
-- Runs of the concurrent map and of the branches.
use go_kitsune.Prelude.{ℕ, ◌*◌, ◌≤◌, ◌≡◌, refl, Bool, List, [], ◌∷◌, none, some, ltb, ◌==◌, arith}
use go_kitsune.Errors.{canceled, ok}
use go_kitsune.Process.{Outcome}
use go_kitsune.Ordered.{live, from_outside}
use go_kitsune.Outbox.Conserved.{count}
use go_kitsune.Concurrent.{
  working, leaving, pool, reading, returning, first, first_out, read_item, read_closed, acquire,
  return_error, drain_signal, send_done, process_item, send_value, release, done, Runs, start,
  later,
}
use go_kitsune.Concurrent.Delivery.{total_gain, concurrent_all}
use go_kitsune.Concurrent.Running.{tokens, Next, concurrent_progress}

abbrev tenfold : ℕ → Outcome ℕ
tenfold x = record { result = ok (10 * x); attempt = 0 }

Runs-working : Runs tenfold 7 2 (5 ∷ []) (pool reading [] (working 5 ∷ []) 1 none live [])
Runs-working = later (later start read_item) (acquire (omega arith))

Runs-sent : Runs tenfold 7 2 (5 ∷ []) (pool reading [] (leaving ∷ []) 1 none live (50 ∷ []))
Runs-sent = later (later Runs-working (process_item first)) (send_value first)

Runs-over : Runs tenfold 7 2 (5 ∷ []) (pool (returning none) [] [] 0 none live (50 ∷ []))
Runs-over =
    later (later (later (later Runs-sent (release first)) (done first_out)) read_closed)
      return_error

-- A drain signal while a value is being sent: the stage does not return nil.
Runs-drained :
    Runs tenfold 7 2
      (5 ∷ [])
      (pool (returning (some canceled)) [] [] 0 (some canceled) (from_outside canceled) [])
Runs-drained =
    later
      (later
        (later
          (later (later (later Runs-working (process_item first)) drain_signal)
            (send_done refl first))
          (release first))
        (done first_out))
      return_error

abbrev is_fifty : ℕ → Bool
is_fifty x = x == 50

concurrent_all_example : count is_fifty (50 ∷ []) ≡ total_gain tenfold is_fifty (5 ∷ [])
concurrent_all_example =
    concurrent_all tenfold is_fifty 7 2 (5 ∷ []) [] [] 0 none live (50 ∷ []) refl Runs-over

concurrent_progress_example :
    (tokens {I = ℕ} {O = ℕ} (working 5 ∷ []) ≤ 2)
    × Next tenfold 7 2 (pool reading [] (working 5 ∷ []) 1 none live [])
concurrent_progress_example =
    concurrent_progress tenfold 7 2 (5 ∷ []) [] reading (working 5 ∷ []) 1 none live []
      (omega arith) refl Runs-working

abbrev five : List ℕ
five = 4 ∷ 5 ∷ 6 ∷ 7 ∷ 8 ∷ []

abbrev is_small : ℕ → Bool
is_small x = ltb x 6

abbrev one_byte : ℕ → List ℕ
one_byte x = x ∷ []
