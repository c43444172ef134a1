-- ===== src/Filter.antt =====
-- operator_filter.go: the stages of Filter and Tap with the blocking outbox, on one run of the
-- supervised loop, and filterFastPath. The hook's calls and the counters it is given are left out.
pub mod Fast
use go_kitsune.Prelude.{ℕ, Bool, true, false, List, [], ◌∷◌, Option, none, some}
use go_kitsune.Errors.{Error, Result, ok, err, wrap_stage_err}
use go_kitsune.Stage.{Action, continue, finish, returned, failed, Loop, Trace, after}
use go_kitsune.Stage.Bursts.{pass_from}
use go_kitsune.Transform.{per_item, return_nil}

module _ {ℓ} {T : Type ℓ} where
  -- What the predicate returns for an item decides what happens to it.
  abbrev pub filter_item : ℕ → Result Bool → T → Action (Unit {0}) T
  filter_item name (ok true) x = continue (x ∷ []) tt
  filter_item name (ok false) x = continue [] tt
  filter_item name (err e) x = finish [] (failed (wrap_stage_err name e 0))

  unfoldable pub filter_loop : ℕ → (T → Result Bool) → Loop (Unit {0}) T T
  unfolding wrap_stage_err
  filter_loop name pred = per_item (λ s x. filter_item name (pred x) x) return_nil

  -- Tap: `fn` returns an error or nil.
  abbrev pub tap_item : ℕ → Option Error → T → Action (Unit {0}) T
  tap_item name none x = continue (x ∷ []) tt
  tap_item name (some e) x = finish [] (failed (wrap_stage_err name e 0))

  unfoldable pub tap_loop : ℕ → (T → Option Error) → Loop (Unit {0}) T T
  unfolding wrap_stage_err
  tap_loop name fn = per_item (λ s x. tap_item name (fn x) x) return_nil

  -- One item of the buffer in filterFastPath, which returns an error as it is.
  abbrev pub filter_fast_item : Result Bool → T → Trace T → Trace T
  filter_fast_item (ok true) x rest = after (x ∷ []) rest
  filter_fast_item (ok false) x rest = rest
  filter_fast_item (err e) x rest = record { out = []; ending = failed e }

  unfoldable pub filter_fast_from : ℕ → (T → Result Bool) → ℕ → List ℕ → List T → Trace T
  unfolding pass_from
  filter_fast_from size pred = pass_from size (λ x. filter_fast_item (pred x) x)
