-- ===== src/Examples/Operators.antt =====
-- Runs of the operators of operator_take.go, operator_transform.go, operator_map.go and aggregate.go.
use go_kitsune.Prelude.{◌≢◌, ℕ, ◌+◌, ◌*◌, ◌≡◌, ltb, List, [], ◌∷◌, ◌++◌, some, if◌then◌else◌}
use go_kitsune.Errors.{skipped, user, Result, ok, err}
use go_kitsune.Handlers.{Backoff, retry_then, skip_handler}
use go_kitsune.Process.{Outcome, process_item}
use go_kitsune.Process.Attempts.{undisturbed}
use go_kitsune.Stage.{Event, closed, items, Room, at_ctx_done, returned, run, cut}
use go_kitsune.Transform.{map_loop}
use go_kitsune.Transform.Mapped.{run-map_loop_drop, successes}

abbrev numbers : List ℕ
numbers = 7 ∷ 8 ∷ 9 ∷ 4 ∷ []

-- Room for every send, and room for one before the context ends.
abbrev roomy : Room
roomy = record { sends = 9; stop = at_ctx_done }

abbrev narrow : Room
narrow = record { sends = 1; stop = at_ctx_done }

-- An item that fails as many times as it is above 7, and then succeeds.
abbrev flaky : ℕ → ℕ → Result ℕ
flaky x attempt = if ltb x (8 + attempt) then ok x else err (user x)

abbrev wait_one : Backoff
wait_one attempt = 1

run-map_loop_drop_example :
    (process : ℕ → Outcome ℕ) × ((x : ℕ)
      → process_item (some (retry_then 1 (some wait_one) skip_handler)) (flaky x) undisturbed 2
        ≡ some (process x))
    × ((r : Room) (xs : List ℕ) (es : List (Event ℕ))
        → run (map_loop 1 process) r tt (items xs ++ closed ∷ es)
          ≡ cut (map_loop 1 process) r (record { out = successes flaky 1 xs; ending = returned }))
run-map_loop_drop_example = run-map_loop_drop 1 1 wait_one flaky

abbrev ten_times : ℕ → Result ℕ
ten_times x = ok (x * 10)

ten_times-unskipped : (x : ℕ) → ten_times x ≢ err skipped
ten_times-unskipped x eq = cc eq
