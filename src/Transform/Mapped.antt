-- ===== src/Transform/Mapped.antt =====
-- mapSerial on top of ProcessItem.
use go_kitsune.Prelude.{
  subst, ℕ, zero, suc, ◌+◌, ◌≡◌, refl, ap, List, [], ◌∷◌, ◌++◌, Option, none, some, arith,
}
use go_kitsune.Errors.{skipped, Result, ok, err}
use go_kitsune.Handlers.{skip_handler, retry_then, Backoff}
use go_kitsune.Process.{Outcome, process_item}
use go_kitsune.Process.Attempts.{first_of, final_or, next_or, undisturbed, process_item-retry_then}
use go_kitsune.Stage.{
  Event, closed, items, Room, Trace, returned, run, ideal, cut, after, perform_all,
}
use go_kitsune.Stage.Cut.{run_of_ideal}
use go_kitsune.Transform.{map_loop, map_result}

module _ {κ} {O : Type κ} where
  -- The first success within k retries from the attempt n on.
  abbrev success : Result O → Option O → Option O
  success (ok v) later = some v
  success (err e) later = later

  abbrev pub first_success : (ℕ → Result O) → ℕ → ℕ → Option O
  first_success fn zero n = success (fn n) none
  first_success fn (suc k) n = success (fn n) (first_success fn k (n + 1))

  abbrev or_skipped : Option O → Result O
  or_skipped none = err skipped
  or_skipped (some v) = ok v

  final_or-success :
      (r : Result O) (n : ℕ) → (final_or skip_handler r n).result ≡ or_skipped (success r none)
  final_or-success (ok v) n = refl
  final_or-success (err e) n = refl

  next_or-success :
      (r : Result O) (n : ℕ) (later : Outcome O) (o : Option O)
      → later.result ≡ or_skipped o
      → (next_or r n later).result ≡ or_skipped (success r o)
  next_or-success (ok v) n later o h = refl
  next_or-success (err e) n later o h = h

  result-first_of :
      (fn : ℕ → Result O) (k n : ℕ)
      → (first_of skip_handler fn k n).result ≡ or_skipped (first_success fn k n)
  unfolding first_of
  result-first_of fn zero n = final_or-success (fn n) n
  result-first_of fn (suc k) n =
      next_or-success (fn n) n (first_of skip_handler fn k (n + 1)) _ (result-first_of fn k (n + 1))

  abbrev keep_some : Option O → List O → List O
  keep_some none ys = ys
  keep_some (some v) ys = v ∷ ys

  perform-map_result :
      (name attempt : ℕ) (o : Option O) (again : Unit {0} → Trace O) (ys : List O)
      → again tt ≡ record { out = ys; ending = returned }
      → perform_all (map_result name attempt (or_skipped o)) again
        ≡ record { out = keep_some o ys; ending = returned }
  perform-map_result name attempt none again ys h = ap (after []) h
  perform-map_result name attempt (some v) again ys h = ap (after (v ∷ [])) h

module _ {ℓ κ} {T : Type ℓ} {O : Type κ} where
  abbrev pub successes : (T → ℕ → Result O) → ℕ → List T → List O
  successes fn max [] = []
  successes fn max (x ∷ xs) = keep_some (first_success (fn x) max 0) (successes fn max xs)

  module _ (name max : ℕ) (fn : T → ℕ → Result O) (process : T → Outcome O)
      (dropped : (x : T) → (process x).result ≡ or_skipped (first_success (fn x) max 0)) where
    ideal-map :
        (xs : List T) (es : List (Event T))
        → ideal (map_loop name process) tt (items xs ++ closed ∷ es)
          ≡ record { out = successes fn max xs; ending = returned }
    unfolding ideal map_loop
    ideal-map [] es = refl
    ideal-map (x ∷ xs) es = rw (dropped x) (
        perform-map_result name (process x).attempt (first_success (fn x) max 0) _ _
          (ideal-map xs es))

  -- A serial Map with the handler RetryThen(max, bo, ActionDrop()) and a backoff that is not nil,
  -- when no wait is cut short: ProcessItem returns for every item, the stage never fails, and it
  -- delivers, in order, the first success of each item within max retries, leaving out the items that
  -- have none. All that up to where its sends are interrupted.
  pub run-map_loop_drop :
      (name max : ℕ) (bo : Backoff) (fn : T → ℕ → Result O)
      → (process : T → Outcome O) × ((x : T)
          → process_item (some (retry_then max (some bo) skip_handler)) (fn x) undisturbed (suc max)
            ≡ some (process x))
        × ((r : Room) (xs : List T) (es : List (Event T))
            → run (map_loop name process) r tt (items xs ++ closed ∷ es)
              ≡ cut
                  (map_loop name process)
                  r
                  (record { out = successes fn max xs; ending = returned }))
  run-map_loop_drop name max bo fn =
      let process = λ (x : T). first_of skip_handler (fn x) max 0 in
      (
        process,
        λ x.
            subst
              (λ k.
                process_item (some (retry_then max (some bo) skip_handler)) (fn x) undisturbed
                  (suc k)
                ≡ some (process x))
              (omega arith) (process_item-retry_then skip_handler max 0 bo (fn x) tt),
        λ r xs es.
            run_of_ideal (map_loop name process) r tt _
              (ideal-map name max fn process (λ x. result-first_of (fn x) max 0) xs es),
      )
