-- ===== src/Transform/Fast.antt =====
-- mapSerialFastPath of operator_map.go, which receives items in bursts and calls the function
-- directly, against mapSerial.
use go_kitsune.Prelude.{
  ℕ, suc, ◌≡◌, ◌≢◌, refl, sym, ap, ◌∙◌, List, [], ◌∷◌, ◌++◌, length, none, some, Option, arith,
}
use go_kitsune.Errors.{
  canceled, deadline_exceeded, circuit_open, user, panicked, wrapped, stage_error, Error, skipped,
  Result, ok, err, wrap_stage_err,
}
use go_kitsune.Process.{Outcome, process_item, conclude, attempts_from}
use go_kitsune.Handlers.{default_handler, handle}
use go_kitsune.Stage.{Event, closed, items, Trace, returned, failed, ideal, after, perform_all}
use go_kitsune.Stage.Bursts.{burst, pass_from, pass_from-burst}
use go_kitsune.Transform.{map_loop, map_result}

module _ {ℓ κ} {T : Type ℓ} {O : Type κ} (name size : ℕ) (fn : T → Result O) where
  -- One item of a burst.
  abbrev pub emit : Result O → Trace O → Trace O
  emit (ok v) rest = after (v ∷ []) rest
  emit (err e) rest = record { out = []; ending = failed (wrap_stage_err name e 0) }

  unfoldable pub fast_from : ℕ → List ℕ → List T → Trace O
  unfolding pass_from
  fast_from = pass_from size (λ x. emit (fn x))

  -- What ProcessItem returns without a handler.
  abbrev pub plain : T → Outcome O
  plain x = record { result = fn x; attempt = 0 }

  perform-emit :
      (r : Result O) (again : Unit {0} → Trace O) (t : Trace O)
      → r ≢ err skipped
      → again tt ≡ t
      → perform_all (map_result name 0 r) again ≡ emit r t
  perform-emit (ok v) again t h eq = ap (after (v ∷ [])) eq
  perform-emit (err skipped) again t h eq = absurd (h refl)
  perform-emit (err canceled) again t h eq = refl
  perform-emit (err deadline_exceeded) again t h eq = refl
  perform-emit (err circuit_open) again t h eq = refl
  perform-emit (err (user n)) again t h eq = refl
  perform-emit (err (panicked n)) again t h eq = refl
  perform-emit (err (wrapped c)) again t h eq = refl
  perform-emit (err (stage_error n k c)) again t h eq = refl

  ideal-map_plain :
      (xs : List T) (es : List (Event T))
      → ((x : T) → fn x ≢ err skipped)
      → ideal (map_loop name plain) tt (items xs ++ closed ∷ es)
        ≡ burst size (λ x. emit (fn x)) xs (record { out = []; ending = returned })
  unfolding ideal map_loop
  ideal-map_plain [] es h = refl
  ideal-map_plain (x ∷ xs) es h = perform-emit (fn x) _ _ (h x) (ideal-map_plain xs es h)

  conclude-plain :
      (r : Result O) (stop : Option Error)
      → conclude default_handler r stop 0 none ≡ some (record { result = r; attempt = 0 })
  unfolding handle
  conclude-plain (ok v) stop = refl
  conclude-plain (err e) stop = refl

  process_item-plain :
      (x : T) (stop : ℕ → Option Error) → process_item none (λ k. fn x) stop 1 ≡ some (plain x)
  unfolding process_item attempts_from
  process_item-plain x stop = conclude-plain (fn x) (stop 0)

  -- The fast path of a serial Map sends what mapSerial sends with the default handler, and ends
  -- alike, when every send finds a reader: whatever the size of its buffer and however many items
  -- each pass finds ready. The function must not return ErrSkipped, which is internal to the engine.
  -- Fuel for one pass more than there are items is enough.
  pub fast_from-ideal :
      (ready : List ℕ) (xs : List T) (es : List (Event T))
      → ((x : T) → fn x ≢ err skipped)
      → ((x : T) (stop : ℕ → Option Error) → process_item none (λ k. fn x) stop 1 ≡ some (plain x))
        × (fast_from (suc (length xs)) ready xs
            ≡ ideal (map_loop name plain) tt (items xs ++ closed ∷ es))
  unfolding fast_from
  fast_from-ideal ready xs es h = (
    process_item-plain,
    pass_from-burst size (λ x. emit (fn x)) (suc (length xs)) ready xs (omega arith)
        ∙ sym (ideal-map_plain xs es h),
  )
