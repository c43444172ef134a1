-- ===== src/Examples/Merges.antt =====
-- Runs of Merge and of the operators of time.
use go_kitsune.Prelude.{ℕ, ◌≡◌, refl, ◌<◌, List, [], ◌∷◌, ◌++◌, All, none, arith, zero, suc}
use go_kitsune.Stage.{items, closed, returned, run, ideal, Room, at_ctx_done}
use go_kitsune.Sharded.Shares.{outs_of}
use go_kitsune.Merging.{
  Merger, Reach, here, next, merge_of, receive, send, closed_input, all_done, ended,
}
use go_kitsune.Merging.Interleaved.{merge_prefix, merge_whole}
use go_kitsune.Timed.{throttle_loop}
use go_kitsune.Timed.Thinned.{Spaced, Covered, run-throttle_loop}

-- The second input is empty.
abbrev two_inputs : ℕ → List ℕ
two_inputs zero = 7 ∷ []
two_inputs (suc i) = []

below_two : (P : ℕ → Type 0) → P 0 → P 1 → (i : ℕ) → i < 2 → P i
below_two P a b zero h = a
below_two P a b (suc zero) h = b
below_two P a b (suc (suc i)) h = absurd (omega arith)

merged : (s : Merger ℕ) × Reach 2 (merge_of two_inputs) s × (s.phase ≡ ended returned)
merged = (
  _,
  next
      (next
        (next (next (next here (receive _ 0 7 [] refl refl refl)) (send _ 0 7 refl refl))
          (closed_input _ 0 refl refl))
        (closed_input _ 1 refl refl))
      (all_done _ refl (below_two _ refl refl)),
  refl,
)

merge_prefix_example : (rest : List ℕ) × (outs_of 0 (merged.0).out ++ rest ≡ two_inputs 0)
merge_prefix_example = merge_prefix 2 two_inputs 0 (merged.1)

merge_whole_example : outs_of 0 (merged.0).out ≡ two_inputs 0
merge_whole_example = merge_whole 2 two_inputs 0 (merged.1) (merged.2) (omega arith)

abbrev room_for_two : Room
room_for_two = record { sends = 2; stop = at_ctx_done }

abbrev times : List ℕ
times = 1 ∷ 4 ∷ 11 ∷ 13 ∷ 25 ∷ []

run-throttle_loop_example :
    Spaced 10
      (λ x. x)
      (run (throttle_loop 10 (λ x. x)) room_for_two none (items times ++ closed ∷ [])).out
    × ((ideal (throttle_loop 10 (λ x. x)) none (items times ++ closed ∷ [])).ending ≡ returned)
    × All
        (Covered 10
          (λ x. x)
          (ideal (throttle_loop 10 (λ x. x)) none (items times ++ closed ∷ [])).out)
        times
run-throttle_loop_example = run-throttle_loop 10 (λ x. x) room_for_two times []
