-- ===== src/Filter/Fast.antt =====
-- filterFastPath against the loop of Filter, and Tap as a Filter that lets every item pass.
use go_kitsune.Prelude.{
  ℕ, suc, ◌≡◌, refl, ap, ◌∙◌, Bool, true, false, List, [], ◌∷◌, ◌++◌, length, Option, none, some,
  arith,
}
use go_kitsune.Errors.{Error, Result, ok, err, wrap_stage_err}
use go_kitsune.Stage.{
  Event, item, closed, signal, signal_closed, ctx_done, drain, items, End, returned, failed, Room,
  Trace, run, ideal, cut, after, perform_all,
}
use go_kitsune.Stage.Bursts.{burst, pass_from-burst}
use go_kitsune.Stage.Cut.{run_of_ideal}
use go_kitsune.Filter.{
  filter_item, filter_loop, tap_item, tap_loop, filter_fast_item, filter_fast_from,
}

-- How a stage ends at an error that it reports, or else at the close of its input.
abbrev pub ended : (Error → Error) → Option Error → End
ended report none = returned
ended report (some e) = failed (report e)

-- A tapped function as a predicate that lets every item pass.
abbrev pub passes : Option Error → Result Bool
passes none = ok true
passes (some e) = err e

abbrev pub error_or : Result Bool → Option Error → Option Error
error_or (ok b) later = later
error_or (err e) later = some e

module _ {ℓ} {T : Type ℓ} where
  abbrev pub keep : Result Bool → T → List T → List T
  keep (ok true) x ys = x ∷ ys
  keep (ok false) x ys = ys
  keep (err e) x ys = []

  -- The items that pass before the first error, and that error.
  abbrev pub kept : (T → Result Bool) → List T → List T
  kept pred [] = []
  kept pred (x ∷ xs) = keep (pred x) x (kept pred xs)

  abbrev pub first_error : (T → Result Bool) → List T → Option Error
  first_error pred [] = none
  first_error pred (x ∷ xs) = error_or (pred x) (first_error pred xs)

  filter_fast_item-keep :
      (v : Result Bool) (x : T) (ys : List T) (o : Option Error)
      → filter_fast_item v x (record { out = ys; ending = ended (λ e. e) o })
        ≡ record { out = keep v x ys; ending = ended (λ e. e) (error_or v o) }
  filter_fast_item-keep (ok true) x ys o = refl
  filter_fast_item-keep (ok false) x ys o = refl
  filter_fast_item-keep (err e) x ys o = refl

  burst-filter_fast_item :
      (size : ℕ) (pred : T → Result Bool) (xs : List T)
      → burst size (λ x. filter_fast_item (pred x) x) xs (record { out = []; ending = returned })
        ≡ record { out = kept pred xs; ending = ended (λ e. e) (first_error pred xs) }
  burst-filter_fast_item size pred [] = refl
  burst-filter_fast_item size pred (x ∷ xs) =
      ap (filter_fast_item (pred x) x) (burst-filter_fast_item size pred xs)
      ∙ filter_fast_item-keep (pred x) x (kept pred xs) (first_error pred xs)

  perform-filter_item :
      (name : ℕ) (v : Result Bool) (x : T) (again : Unit {0} → Trace T) (ys : List T)
      (o : Option Error)
      → again tt ≡ record { out = ys; ending = ended (λ e. wrap_stage_err name e 0) o }
      → perform_all (filter_item name v x) again
        ≡ record { out = keep v x ys; ending = ended (λ e. wrap_stage_err name e 0) (error_or v o) }
  perform-filter_item name (ok true) x again ys o h = ap (after (x ∷ [])) h
  perform-filter_item name (ok false) x again ys o h = ap (after []) h
  perform-filter_item name (err e) x again ys o h = refl

  ideal-filter_loop :
      (name : ℕ) (pred : T → Result Bool) (xs : List T) (es : List (Event T))
      → ideal (filter_loop name pred) tt (items xs ++ closed ∷ es) ≡ record {
        out = kept pred xs;
        ending = ended (λ e. wrap_stage_err name e 0) (first_error pred xs);
      }
  unfolding ideal filter_loop
  ideal-filter_loop name pred [] es = refl
  ideal-filter_loop name pred (x ∷ xs) es =
      perform-filter_item name (pred x) x _ (kept pred xs) (first_error pred xs)
        (ideal-filter_loop name pred xs es)

  -- Filter sends the items for which the predicate returned true, up to its first error, and then
  -- ends with that error or, without one, at the close of its input. Its fast path, with any size of
  -- the buffer and any bursts, sends the same items when every send finds a reader, and ends with
  -- the error as the predicate returned it; the loop of Filter wraps it with the stage's name, and
  -- with fewer sends that find a reader it sends the first of the same items. Fuel for one pass more
  -- than there are items is enough.
  pub filter_fast_from-kept :
      (name size : ℕ) (pred : T → Result Bool) (r : Room) (ready : List ℕ) (xs : List T)
      (es : List (Event T))
      → (filter_fast_from size pred (suc (length xs)) ready xs
          ≡ record { out = kept pred xs; ending = ended (λ e. e) (first_error pred xs) })
        × (run (filter_loop name pred) r tt (items xs ++ closed ∷ es)
            ≡ cut (filter_loop name pred) r (record {
              out = kept pred xs;
              ending = ended (λ e. wrap_stage_err name e 0) (first_error pred xs);
            }))
  unfolding filter_fast_from
  filter_fast_from-kept name size pred r ready xs es = (
    pass_from-burst size (λ x. filter_fast_item (pred x) x) (suc (length xs)) ready xs (omega arith)
        ∙ burst-filter_fast_item size pred xs,
    run_of_ideal (filter_loop name pred) r tt (items xs ++ closed ∷ es)
        (ideal-filter_loop name pred xs es),
  )

  perform-tap_item :
      (name : ℕ) (o : Option Error) (x : T) (again again' : Unit {0} → Trace T)
      → again tt ≡ again' tt
      → perform_all (tap_item name o x) again ≡ perform_all (filter_item name (passes o) x) again'
  perform-tap_item name none x again again' h = ap (after (x ∷ [])) h
  perform-tap_item name (some e) x again again' h = refl

  -- Tap and Filter do the same at every item and at every other event when the predicate lets an
  -- item pass just when fn returns no error.
  pub ideal-tap_loop :
      (name : ℕ) (fn : T → Option Error) (es : List (Event T))
      → ideal (tap_loop name fn) tt es ≡ ideal (filter_loop name (λ x. passes (fn x))) tt es
  unfolding ideal tap_loop filter_loop
  ideal-tap_loop name fn [] = refl
  ideal-tap_loop name fn (item x ∷ es) =
      perform-tap_item name (fn x) x _ _ (ideal-tap_loop name fn es)
  ideal-tap_loop name fn (closed ∷ es) = refl
  ideal-tap_loop name fn (signal ∷ es) = ap (after []) (ideal-tap_loop name fn es)
  ideal-tap_loop name fn (signal_closed ∷ es) = ap (after []) (ideal-tap_loop name fn es)
  ideal-tap_loop name fn (ctx_done ∷ es) = refl
  ideal-tap_loop name fn (drain ∷ es) = refl
