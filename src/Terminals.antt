-- ===== src/Terminals.antt =====
-- collect.go: Collect, First, Last, Single, Count, Any, All, Find, Sum, Min, Max, MinMax and
-- SequenceEqual, and Contains of misc.go, with the loop of ForEach (terminal.go) that they run.
--
-- A run of the upstream pipeline is given by what it delivers to ForEach and by the error that it ends
-- with, if any. The callback's captured variables are a state. These callers give ForEach no options,
-- so it has one worker and the default error handler, which halts; `wrap` is what its path does to an
-- error of the callback: WrapStageErr on the serial path, nothing on the fast one. The counts do not
-- wrap around.
pub mod Answers
pub mod Extremes
use go_kitsune.Prelude.{
  ℕ, ◌+◌, Bool, true, false, not, ◌||◌, ◌&&◌, List, [], ◌∷◌, ◌++◌, Option, none, some, leb,
  if◌then◌else◌,
}
use go_kitsune.Errors.{Error, canceled, wrapped, stage_error, Result, ok, err}
use go_kitsune.Keys.{Eq, ◌==◌}

pub record Upstream {ℓ} (T : Type ℓ) : Type ℓ where
  pub delivered : List T
  pub failure : Option Error

-- `return err` ends the loop at once.
abbrev pub after_callback {ℓ} :
    {S : Type ℓ} → (Error → Error) → S × Option Error → (S → S × Option Error) → S × Option Error
after_callback wrap (s, none) again = again s
after_callback wrap (s, some e) again = (s, some (wrap e))

abbrev pub for_each {ℓ κ} :
    {S : Type ℓ} {T : Type κ}
    → (Error → Error)
    → (S → T → S × Option Error)
    → S
    → List T
    → Option Error
    → S × Option Error
for_each wrap fn s [] failure = (s, failure)
for_each wrap fn s (x ∷ xs) failure =
    after_callback wrap (fn s x) (λ t. for_each wrap fn t xs failure)

-- A callback of First, Any, All or Find stops the run by context.Canceled.
abbrev pub stop_if {ℓ} : {S : Type ℓ} → Bool → S → S → S × Option Error
stop_if true found s = (found, some canceled)
stop_if false found s = (s, none)

-- A value and an error.
abbrev pub or_error {ℓ κ} : {S : Type ℓ} {A : Type κ} → (S → A) → S × Option Error → Result A
or_error answer (s, none) = ok (answer s)
or_error answer (s, some e) = err e

module _ {ℓ} {T : Type ℓ} where
  -- Single: the state is `count` and `result`. `default` is that of OrDefault, whose type fits.
  abbrev pub single_item : Error → ℕ × Option T → T → (ℕ × Option T) × Option Error
  single_item too_many (n, result) x =
      if leb 1 n then ((n + 1, result), some too_many) else ((n + 1, some x), none)

  abbrev pub single_answer : Error → Option T → (ℕ × Option T) × Option Error → Result T
  single_answer no_items default (s, some e) = err e
  single_answer no_items default ((n, some x), none) = ok x
  single_answer no_items (some d) ((n, none), none) = ok d
  single_answer no_items none ((n, none), none) = err no_items

module _ {ℓ} {T : Type ℓ} (less : T → T → Bool) where
  -- `if !found || less(v, result)`
  abbrev pub smaller : Option T → T → Option T
  smaller none v = some v
  smaller (some result) v = if less v result then some v else some result

  abbrev pub widen : Option (T × T) → T → Option (T × T)
  widen none v = some (v, v)
  widen (some (least, most)) v =
      some (if less v least then v else least, if less most v then v else most)

module _ {ℓ} {T : Type ℓ} (wrap : Error → Error) (up : Upstream T) where
  -- A callback that never fails.
  abbrev pub fold_each {κ} : {S : Type κ} → (S → T → S) → S → S × Option Error
  fold_each step s = for_each wrap (λ t x. (step t x, none)) s up.delivered up.failure

  -- The error of the run comes with the items that were collected.
  unfoldable pub collect : List T × Option Error
  collect = fold_each (λ out x. out ++ x ∷ []) []

  unfoldable pub count : ℕ × Option Error
  count = fold_each (λ n x. n + 1) 0

  unfoldable pub sum : (T → T → T) → T → T × Option Error
  sum plus zero_value = fold_each plus zero_value

  unfoldable pub last : Result (Option T)
  last = or_error (λ result. result) (fold_each (λ result x. some x) none)

  -- First, Any, All and Find discard the error of the run.
  unfoldable pub first : Option T
  first = (for_each wrap (λ result x. (some x, some canceled)) none up.delivered up.failure).0

  unfoldable pub find : (T → Bool) → Option T
  find pred =
      (for_each wrap (λ result x. stop_if (pred x) (some x) result) none up.delivered up.failure).0

  unfoldable pub any : (T → Bool) → Bool
  any pred =
      (for_each wrap (λ found x. stop_if (pred x) true found) false up.delivered up.failure).0

  unfoldable pub all : (T → Bool) → Bool
  all pred =
      (for_each wrap (λ matched x. stop_if (not (pred x)) false matched) true up.delivered
        up.failure).0

  unfoldable pub contains_value : ⦃e : Eq T⦄ → T → Bool
  unfolding any
  contains_value value = any (λ v. v == value)

  unfoldable pub single : Error → Error → Option T → Result T
  single no_items too_many default =
      single_answer no_items default
        (for_each wrap (single_item too_many) (0, none) up.delivered up.failure)

  module _ (less : T → T → Bool) where
    unfoldable pub min_item : Result (Option T)
    min_item = or_error (λ result. result) (fold_each (smaller less) none)

    unfoldable pub min_max : Result (Option (T × T))
    min_max = or_error (λ result. result) (fold_each (widen less) none)

-- Max is Min with the arguments of less exchanged.
unfoldable pub max_item {ℓ} :
    {T : Type ℓ} → (Error → Error) → Upstream T → (T → T → Bool) → Result (Option T)
unfolding min_item
max_item wrap up less = min_item wrap up (λ a b. less b a)

-- SequenceEqual reads one item of each pipeline at a time, `none` from a closed channel; the reads end
-- where stageCtx.Done is picked, and then `equal` is still true.
abbrev pub lockstep {ℓ} : {T : Type ℓ} ⦃e : Eq T⦄ → List (Option T × Option T) → Bool
lockstep [] = true
lockstep ((none, none) ∷ reads) = true
lockstep ((none, some y) ∷ reads) = false
lockstep ((some x, none) ∷ reads) = false
lockstep ((some x, some y) ∷ reads) = let rest = lockstep reads in if x == y then rest else false

-- `errors.Is(err, context.Canceled)`
abbrev pub is_canceled : Error → Bool
is_canceled canceled = true
is_canceled (wrapped e) = is_canceled e
is_canceled (stage_error name attempt e) = is_canceled e
is_canceled e = false

unfoldable pub sequence_equal {ℓ} :
    {T : Type ℓ} ⦃e : Eq T⦄ → List (Option T × Option T) → Option Error → Result Bool
sequence_equal reads none = ok (lockstep reads)
sequence_equal reads (some e) = if is_canceled e then ok (lockstep reads) else err e
