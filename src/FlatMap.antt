-- ===== src/FlatMap.antt =====
-- operator_flatmap.go: flatMapSerial with the blocking overflow mode, on one run of the supervised loop
-- and on what ProcessFlatMapItem returns, and flatMapSerialFastPath.
pub mod Fast
use go_kitsune.Prelude.{ℕ, List, [], ◌∷◌, Option, none, some}
use go_kitsune.Errors.{skipped, Error, wrap_stage_err}
use go_kitsune.Process.{FlatCall, FlatOutcome}
use go_kitsune.Stage.{Action, continue, finish, failed, Loop, Trace, after}
use go_kitsune.Stage.Bursts.{pass_from}
use go_kitsune.Transform.{per_item, return_nil}

module _ {ℓ} {O : Type ℓ} where
  -- A skipped item and one without an error go on, after what ProcessFlatMapItem has sent.
  abbrev pub flat_map_result : ℕ → ℕ → List O → Option Error → Action (Unit {0}) O
  flat_map_result name attempt sent none = continue sent tt
  flat_map_result name attempt sent (some skipped) = continue sent tt
  flat_map_result name attempt sent (some e) = finish sent (failed (wrap_stage_err name e attempt))

  abbrev pub flat_map_outcome : ℕ → FlatOutcome O → Action (Unit {0}) O
  flat_map_outcome name o = flat_map_result name o.attempt o.sent o.error

  -- One item of the buffer in flatMapSerialFastPath, whose yield sends at once.
  abbrev pub flat_map_fast_item : ℕ → List O → Option Error → Trace O → Trace O
  flat_map_fast_item name yielded none rest = after yielded rest
  flat_map_fast_item name yielded (some e) rest = record {
    out = yielded;
    ending = failed (wrap_stage_err name e 0);
  }

module _ {ℓ κ} {T : Type ℓ} {O : Type κ} where
  unfoldable pub flat_map_loop : ℕ → (T → FlatOutcome O) → Loop (Unit {0}) T O
  unfolding wrap_stage_err
  flat_map_loop name process = per_item (λ s x. flat_map_outcome name (process x)) return_nil

  abbrev pub flat_map_fast_one : ℕ → (T → FlatCall O) → T → Trace O → Trace O
  flat_map_fast_one name fn x = flat_map_fast_item name (fn x).yielded (fn x).error

  unfoldable pub flat_map_fast_from : ℕ → ℕ → (T → FlatCall O) → ℕ → List ℕ → List T → Trace O
  unfolding pass_from wrap_stage_err
  flat_map_fast_from name size fn = pass_from size (flat_map_fast_one name fn)
