-- ===== src/Transform.antt =====
-- operator_transform.go (WithIndex, Pairwise, TakeEvery, DropEvery, MapEvery, Intersperse), Scan and
-- Reduce of aggregate.go, and mapSerial of operator_map.go, each as the loop of its stage function.
-- An index does not wrap: `int` has 64 bits. TakeEvery, DropEvery and MapEvery panic for n ≤ 0.
pub mod Positions
pub mod Folds
pub mod Mapped
pub mod Fast
use go_kitsune.Prelude.{ℕ, ◌+◌, ◌%◌, Bool, false, [], ◌∷◌, Option, none, some, ◌==◌, if◌then◌else◌}
use go_kitsune.Errors.{skipped, Result, ok, err, wrap_stage_err}
use go_kitsune.Process.{Outcome}
use go_kitsune.Stage.{Action, continue, finish, returned, failed, Loop, never, endless, outbox_send}

pub record Indexed {ℓ} (T : Type ℓ) : Type ℓ where
  pub index : ℕ
  pub value : T

pub record Consecutive {ℓ} (T : Type ℓ) : Type ℓ where
  pub prev : T
  pub curr : T

-- A stage that takes one item at a time, returns nil at the close of its input and sends by its
-- blocking outbox.
abbrev pub per_item {ℓ κ μ} :
    {S : Type ℓ} {T : Type κ} {O : Type μ} → (S → T → Action S O) → (S → Action S O) → Loop S T O
per_item on_item on_closed = record {
  finished = endless;
  on_item = on_item;
  on_closed = on_closed;
  on_signal = never;
  on_signal_closed = never;
  interrupted = outbox_send;
}

abbrev pub return_nil {ℓ κ} : {S : Type ℓ} {O : Type κ} → S → Action S O
return_nil s = finish [] returned

module _ {ℓ} {T : Type ℓ} where
  -- WithIndex: the state is `idx`.
  unfoldable pub with_index_loop : Loop ℕ T (Indexed T)
  with_index_loop =
      per_item (λ idx x. continue (record { index = idx; value = x } ∷ []) (idx + 1)) return_nil

  -- Pairwise: `first` and `prev` are an option, `none` as long as `first` is true.
  abbrev pub pair_up : Option T → T → Action (Option T) (Consecutive T)
  pair_up none x = continue [] (some x)
  pair_up (some p) x = continue (record { prev = p; curr = x } ∷ []) (some x)

  unfoldable pub pairwise_loop : Loop (Option T) T (Consecutive T)
  pairwise_loop = per_item pair_up return_nil

  -- TakeEvery and DropEvery: the state is `i`.
  unfoldable pub take_every_loop : ℕ → Loop ℕ T T
  take_every_loop n =
      per_item (λ i x. if i % n == 0 then continue (x ∷ []) (i + 1) else continue [] (i + 1))
        return_nil

  unfoldable pub drop_every_loop : ℕ → Loop ℕ T T
  drop_every_loop n =
      per_item (λ i x. if i % n == 0 then continue [] (i + 1) else continue (x ∷ []) (i + 1))
        return_nil

  -- MapEvery: an error of fn ends the stage, wrapped with the stage's name and attempt 0.
  abbrev pub mapped_item : ℕ → Result T → ℕ → Action ℕ T
  mapped_item name (ok v) i = continue (v ∷ []) (i + 1)
  mapped_item name (err e) i = finish [] (failed (wrap_stage_err name e 0))

  unfoldable pub map_every_loop : ℕ → ℕ → (T → Result T) → Loop ℕ T T
  unfolding wrap_stage_err
  map_every_loop name n fn =
      per_item (λ i x. if i % n == 0 then mapped_item name (fn x) i else continue (x ∷ []) (i + 1))
        return_nil

  -- Intersperse: the state is `first`. The two sends of an item are made in order.
  unfoldable pub intersperse_loop : T → Loop Bool T T
  intersperse_loop sep =
      per_item (λ first x. if first then continue (x ∷ []) false else continue (sep ∷ x ∷ []) false)
        return_nil

module _ {ℓ κ} {T : Type ℓ} {S : Type κ} (initial : S) (fn : S → T → S) where
  unfoldable pub scan_loop : Loop S T S
  scan_loop = per_item (λ state x. continue (fn state x ∷ []) (fn state x)) return_nil

  -- Reduce: `return outbox.Send(ctx, state)` at the close of the input.
  unfoldable pub reduce_loop : Loop S T S
  reduce_loop =
      per_item (λ state x. continue [] (fn state x)) (λ state. finish (state ∷ []) returned)

-- mapSerial, where `process` is what ProcessItem returns for an item: a skipped item is left out, and
-- any other error ends the stage with the stage's name and the attempt.
abbrev pub map_result {ℓ} : {O : Type ℓ} → ℕ → ℕ → Result O → Action (Unit {0}) O
map_result name attempt (ok v) = continue (v ∷ []) tt
map_result name attempt (err skipped) = continue [] tt
map_result name attempt (err e) = finish [] (failed (wrap_stage_err name e attempt))

unfoldable pub map_loop {ℓ κ} :
    {T : Type ℓ} {O : Type κ} → ℕ → (T → Outcome O) → Loop (Unit {0}) T O
unfolding wrap_stage_err
map_loop name process =
    per_item (λ s x. map_result name (process x).attempt (process x).result) return_nil
