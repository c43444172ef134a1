-- ===== src/Examples/Grouping.antt =====
-- Runs of the operators of batch.go.
use go_kitsune.Prelude.{
  ℕ, ◌≡◌, refl, List, [], ◌∷◌, ◌++◌, Option, none, some, true, false, flatten, All,
}
use go_kitsune.Keys.{nat_key}
use go_kitsune.Stage.{closed, items, feed, Room, at_ctx_done, returned, Trace, run, cut}
use go_kitsune.Batch.{BatchConfig, batch_loop, no_items}
use go_kitsune.Batch.Whole.{run-batch_loop_whole}
use go_kitsune.Batch.Bounds.{IsTimely, run-batch_loop-IsTimely}

abbrev roomy : Room
roomy = record { sends = 9; stop = at_ctx_done }

abbrev numbers : List ℕ
numbers = 1 ∷ 2 ∷ 7 ∷ 8 ∷ []

-- Batches of three items, or of what a tick finds.
abbrev by_three : BatchConfig ℕ
by_three = record {
  batch_count = 3;
  batch_measure_fn = none;
  batch_measure_max = 0;
  timed = true;
  drop_partial = false;
}

abbrev with_ticks : List (Option ℕ)
with_ticks = some 1 ∷ none ∷ some 2 ∷ some 7 ∷ some 8 ∷ none ∷ some 9 ∷ []

run-batch_loop_whole_example :
    (t : Trace (List ℕ)) × (flatten t.out ≡ 1 ∷ 2 ∷ 7 ∷ 8 ∷ 9 ∷ [])
    × (t.ending ≡ returned)
    × (run (batch_loop by_three) roomy no_items (feed with_ticks ++ closed ∷ [])
        ≡ cut (batch_loop by_three) roomy t)
run-batch_loop_whole_example = run-batch_loop_whole by_three roomy with_ticks [] refl

run-batch_loop-IsTimely_example :
    All
      (IsTimely by_three)
      (run (batch_loop by_three) roomy no_items (items numbers ++ closed ∷ [])).out
run-batch_loop-IsTimely_example =
    run-batch_loop-IsTimely by_three roomy (items numbers ++ closed ∷ [])
