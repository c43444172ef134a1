-- ===== src/Groups.antt =====
-- aggregate.go: the stages of GroupBy, FrequenciesBy, RunningFrequenciesBy, RunningCountBy and
-- RunningSumBy. The counts do not wrap around: `int` and int64 have 64 bits.
pub mod Snapshots
use go_kitsune.Prelude.{ℕ, ◌+◌, List, [], ◌∷◌, ◌++◌, Option, none, some}
use go_kitsune.Keys.{Eq, lookup, insert}
use go_kitsune.Stage.{Action, continue, finish, returned, Loop}
use go_kitsune.Transform.{per_item, return_nil}

-- `m[k]` with the zero value for a missing key
abbrev pub or_zero {ℓ} : {V : Type ℓ} → V → Option V → V
or_zero zero_value none = zero_value
or_zero zero_value (some v) = v

module _ {ℓ κ} {T : Type ℓ} {K : Type κ} ⦃e : Eq K⦄ (key_fn : T → K) where
  -- `groups[k] = append(groups[k], item)`
  unfoldable pub add_to_group : List (K × List T) → T → List (K × List T)
  unfolding insert
  add_to_group groups x = insert (key_fn x) (or_zero [] (lookup (key_fn x) groups) ++ x ∷ []) groups

  -- `return outbox.Send(ctx, groups)` at the close of the input
  unfoldable pub group_by_loop : Loop (List (K × List T)) T (List (K × List T))
  unfolding add_to_group
  group_by_loop =
      per_item (λ groups x. continue [] (add_to_group groups x))
        (λ groups. finish (groups ∷ []) returned)

  -- `counts[keyFn(item)]++`
  unfoldable pub add_count : List (K × ℕ) → T → List (K × ℕ)
  unfolding insert
  add_count counts x = insert (key_fn x) (or_zero 0 (lookup (key_fn x) counts) + 1) counts

  unfoldable pub frequencies_by_loop : Loop (List (K × ℕ)) T (List (K × ℕ))
  unfolding add_count
  frequencies_by_loop =
      per_item (λ counts x. continue [] (add_count counts x))
        (λ counts. finish (counts ∷ []) returned)

  -- RunningFrequenciesBy and RunningCountBy: a copy of the counts after every item
  unfoldable pub running_count_by_loop : Loop (List (K × ℕ)) T (List (K × ℕ))
  unfolding add_count
  running_count_by_loop =
      per_item (λ counts x. continue (add_count counts x ∷ []) (add_count counts x)) return_nil

  module _ {μ} {V : Type μ} (zero_value : V) (plus : V → V → V) (value_fn : T → V) where
    -- `sums[keyFn(item)] += valueFn(item)`
    unfoldable pub add_value : List (K × V) → T → List (K × V)
    unfolding insert
    add_value sums x =
        insert (key_fn x) (plus (or_zero zero_value (lookup (key_fn x) sums)) (value_fn x)) sums

    unfoldable pub running_sum_by_loop : Loop (List (K × V)) T (List (K × V))
    unfolding add_value
    running_sum_by_loop =
        per_item (λ sums x. continue (add_value sums x ∷ []) (add_value sums x)) return_nil
