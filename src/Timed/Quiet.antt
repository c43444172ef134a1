-- ===== src/Timed/Quiet.antt =====
-- Sample and Debounce send the items that a signal follows.
use go_kitsune.Prelude.{◌≡◌, refl, ap, List, [], ◌∷◌, ◌++◌, Option, none, some}
use go_kitsune.Stage.{Event, closed, Room, returned, run, ideal, cut, feed, after}
use go_kitsune.Stage.Cut.{run_of_ideal}
use go_kitsune.Timed.{sample_loop, debounce_loop}

module _ {ℓ} {T : Type ℓ} where
  abbrev pub before : Option T → List T → List T
  before none ys = ys
  before (some x) ys = x ∷ ys

  -- The items that are last before a signal, with what comes of the one that no signal follows.
  abbrev pub last_before : (Option T → List T) → Option T → List (Option T) → List T
  last_before close held [] = close held
  last_before close held (some x ∷ fs) = last_before close (some x) fs
  last_before close held (none ∷ fs) = before held (last_before close none fs)

  abbrev pub dropped : Option T → List T
  dropped held = []

  abbrev pub kept : Option T → List T
  kept held = before held []

  ideal-sample_loop :
      (held : Option T) (fs : List (Option T)) (es : List (Event T))
      → ideal sample_loop held (feed fs ++ closed ∷ es)
        ≡ record { out = last_before dropped held fs; ending = returned }
  unfolding ideal sample_loop
  ideal-sample_loop held [] es = refl
  ideal-sample_loop held (some x ∷ fs) es = ap (after []) (ideal-sample_loop (some x) fs es)
  ideal-sample_loop none (none ∷ fs) es = ap (after []) (ideal-sample_loop none fs es)
  ideal-sample_loop (some x) (none ∷ fs) es = ap (after (x ∷ [])) (ideal-sample_loop none fs es)

  ideal-debounce_loop :
      (held : Option T) (fs : List (Option T)) (es : List (Event T))
      → ideal debounce_loop held (feed fs ++ closed ∷ es)
        ≡ record { out = last_before kept held fs; ending = returned }
  unfolding ideal debounce_loop
  ideal-debounce_loop none [] es = refl
  ideal-debounce_loop (some x) [] es = refl
  ideal-debounce_loop held (some x ∷ fs) es = ap (after []) (ideal-debounce_loop (some x) fs es)
  ideal-debounce_loop none (none ∷ fs) es = ap (after []) (ideal-debounce_loop none fs es)
  ideal-debounce_loop (some x) (none ∷ fs) es = ap (after (x ∷ [])) (ideal-debounce_loop none fs es)

  -- For any sequence of items and signals, then the close of the input, both stages return nil. Sample
  -- sends the items that are the last ones before a tick, and nothing of those after the last
  -- tick. Debounce sends the items that are the last ones before a fired timer, and the last item of
  -- all, when no timer has fired since. Both up to where the sends are interrupted.
  pub run_quiet_loops :
      (r : Room) (fs : List (Option T)) (es : List (Event T))
      → (run sample_loop r none (feed fs ++ closed ∷ es)
          ≡ cut sample_loop r (record { out = last_before dropped none fs; ending = returned }))
        × (run debounce_loop r none (feed fs ++ closed ∷ es)
            ≡ cut debounce_loop r (record { out = last_before kept none fs; ending = returned }))
  run_quiet_loops r fs es = (
    run_of_ideal sample_loop r none _ (ideal-sample_loop none fs es),
    run_of_ideal debounce_loop r none _ (ideal-debounce_loop none fs es),
  )
