-- ===== src/Collect.antt =====
-- collect.go: ReduceWhile, TakeRandom and ToMap; misc.go: DefaultIfEmpty, Timestamp, TimeInterval and
-- Sort; advanced.go: MapResult and MapRecover. Each is the loop of its stage function.
--
-- The clock is read once for an item, so an item comes with that time, which `at` gives; `sub` is
-- time.Time.Sub. `draw i` is what rand.Intn(i) returns; it is called at most once for each i.
-- sort.Slice with the caller's order is a parameter of Sort. The two outputs of MapResult are the two
-- sides of a sum.
pub mod Sampled
pub mod Gathered
use go_kitsune.Prelude.{
  ℕ, ◌+◌, Bool, true, false, List, [], ◌∷◌, ◌++◌, Option, none, some, ◌==◌, leb, ltb, length, set,
  if◌then◌else◌, ◌⊎◌, inl, inr,
}
use go_kitsune.Errors.{Error, Result, ok, err}
use go_kitsune.Keys.{Eq, insert}
use go_kitsune.Stage.{
  Event, Room, Trace, Action, continue, finish, returned, Loop, run, outbox_send,
}
use go_kitsune.Transform.{per_item, return_nil}

-- ReduceWhile: fn returns the next state and whether to go on.
abbrev pub reduced {ℓ} : {S : Type ℓ} → S × Bool → Action S S
reduced (next, true) = continue [] next
reduced (next, false) = finish (next ∷ []) returned

unfoldable pub reduce_while_loop {ℓ κ} : {T : Type ℓ} {S : Type κ} → (S → T → S × Bool) → Loop S T S
reduce_while_loop fn =
    per_item (λ state x. reduced (fn state x)) (λ state. finish (state ∷ []) returned)

-- ToMap: `result[keyFn(item)] = valueFn(item)`
unfoldable pub to_map_loop {ℓ κ μ} :
    {T : Type ℓ} {K : Type κ} {V : Type μ} ⦃e : Eq K⦄
    → (T → K)
    → (T → V)
    → Loop (List (K × V)) T (List (K × V))
unfolding insert
to_map_loop key_fn value_fn =
    per_item (λ result x. continue [] (insert (key_fn x) (value_fn x) result))
      (λ result. finish (result ∷ []) returned)

pub record Reservoir {ℓ} (T : Type ℓ) : Type ℓ where
  pub i : ℕ
  pub reservoir : List T

module _ {ℓ} {T : Type ℓ} where
  -- The case of an item in TakeRandom.
  unfoldable pub draw_item : ℕ → (ℕ → ℕ) → Reservoir T → T → Reservoir T
  draw_item n draw s x =
      let i = s.i + 1 in
      if ltb (length s.reservoir) n
      then record { i = i; reservoir = s.reservoir ++ x ∷ [] }
      else (if ltb (draw i) n
          then record { i = i; reservoir = set s.reservoir (draw i) x }
          else record { i = i; reservoir = s.reservoir })

  unfoldable pub take_random_loop : ℕ → (ℕ → ℕ) → Loop (Reservoir T) T (List T)
  unfolding draw_item
  take_random_loop n draw =
      per_item (λ s x. continue [] (draw_item n draw s x)) (λ s. finish (s.reservoir ∷ []) returned)

  -- `if n <= 0 { return outbox.Send(ctx, []T{}) }`, and the loop.
  unfoldable pub take_random : ℕ → (ℕ → ℕ) → Room → List (Event T) → Trace (List T)
  unfolding run take_random_loop
  take_random n draw r es =
      let looped = run (take_random_loop n draw) r (record { i = 0; reservoir = [] }) es in
      if n == 0
      then (if leb 1 r.sends
          then record { out = [] ∷ []; ending = returned }
          else record { out = []; ending = outbox_send r.stop })
      else looped

  -- DefaultIfEmpty: the state is `emitted`.
  unfoldable pub default_if_empty_loop : T → Loop Bool T T
  default_if_empty_loop default_val =
      per_item (λ emitted x. continue (x ∷ []) true)
        (λ emitted. if emitted then finish [] returned else finish (default_val ∷ []) returned)

  -- Sort: the items in `out`, and their sorted sequence at the close of the input.
  unfoldable pub sort_loop : (List T → List T) → Loop (List T) T T
  sort_loop sort_slice =
      per_item (λ out x. continue [] (out ++ x ∷ [])) (λ out. finish (sort_slice out) returned)

pub record Timestamped {ℓ κ} (T : Type ℓ) (C : Type κ) : Type (ℓ ⊔ κ) where
  pub value : T
  pub time : C

pub record TimedInterval {ℓ κ} (T : Type ℓ) (D : Type κ) : Type (ℓ ⊔ κ) where
  pub value : T
  pub elapsed : D

module _ {ℓ κ} {T : Type ℓ} {C : Type κ} (at : T → C) where
  unfoldable pub timestamp_loop : Loop (Unit {0}) T (Timestamped T C)
  timestamp_loop = per_item (λ s x. continue (record { value = x; time = at x } ∷ []) tt) return_nil

  module _ {μ} {D : Type μ} (zero_duration : D) (sub : C → C → D) where
    -- `if !first { elapsed = now.Sub(last) }`
    abbrev pub elapsed_since : Option C → C → D
    elapsed_since none now = zero_duration
    elapsed_since (some last) now = sub now last

    -- The state is `last`, none as long as `first`.
    unfoldable pub time_interval_loop : Loop (Option C) T (TimedInterval T D)
    time_interval_loop =
        per_item
          (λ last x.
            continue (record { value = x; elapsed = elapsed_since last (at x) } ∷ []) (some (at x)))
          return_nil

pub record ErrItem {ℓ} (I : Type ℓ) : Type ℓ where
  pub item : I
  pub error : Error

-- How a call of fn ends: it returns, or panics with an error or with another value, which
-- panicError wraps.
pub data CallEnd {κ μ} (O : Type κ) (P : Type μ) : Type (κ ⊔ μ) where
  call_returned : Result O → CallEnd O P
  panicked_error : Error → CallEnd O P
  panicked_value : P → CallEnd O P

abbrev pub call_recover {κ μ} : {O : Type κ} {P : Type μ} → (P → Error) → CallEnd O P → Result O
call_recover panic_error (call_returned res) = res
call_recover panic_error (panicked_error e) = err e
call_recover panic_error (panicked_value p) = err (panic_error p)

module _ {ℓ κ} {I : Type ℓ} {O : Type κ} where
  -- MapResult: a value to the first output, an item that failed to the second.
  abbrev pub split_result : I → Result O → O ⊎ ErrItem I
  split_result x (ok v) = inl v
  split_result x (err e) = inr (record { item = x; error = e })

  unfoldable pub map_result_loop : (I → Result O) → Loop (Unit {0}) I (O ⊎ ErrItem I)
  map_result_loop fn = per_item (λ s x. continue (split_result x (fn x) ∷ []) tt) return_nil

  abbrev pub recovered : (I → Error → O) → I → Result O → O
  recovered recover x (ok v) = v
  recovered recover x (err e) = recover x e

  unfoldable pub map_recover_loop {μ} :
      {P : Type μ} → (P → Error) → (I → CallEnd O P) → (I → Error → O) → Loop (Unit {0}) I O
  map_recover_loop panic_error fn recover =
      per_item (λ s x. continue (recovered recover x (call_recover panic_error (fn x)) ∷ []) tt)
        return_nil
