-- ===== src/Transform/Folds.antt =====
-- Scan and Reduce are the folds of their function.
use go_kitsune.Prelude.{◌≡◌, refl, ap, List, [], ◌∷◌, ◌++◌, get_last?, some}
use go_kitsune.Stage.{Event, closed, items, Room, returned, run, ideal, cut, after}
use go_kitsune.Stage.Cut.{run_of_ideal}
use go_kitsune.Transform.{scan_loop, reduce_loop}

module _ {ℓ κ} {T : Type ℓ} {S : Type κ} (fn : S → T → S) where
  abbrev pub fold_left : S → List T → S
  fold_left s [] = s
  fold_left s (x ∷ xs) = fold_left (fn s x) xs

  -- The states after each item.
  abbrev pub fold_steps : S → List T → List S
  fold_steps s [] = []
  fold_steps s (x ∷ xs) = fn s x ∷ fold_steps (fn s x) xs

  get_last?-fold_steps :
      (s : S) (xs : List T) → get_last? (s ∷ fold_steps s xs) ≡ some (fold_left s xs)
  get_last?-fold_steps s [] = refl
  get_last?-fold_steps s (x ∷ xs) = get_last?-fold_steps (fn s x) xs

  ideal-scan :
      (initial s : S) (xs : List T) (es : List (Event T))
      → ideal (scan_loop initial fn) s (items xs ++ closed ∷ es)
        ≡ record { out = fold_steps s xs; ending = returned }
  unfolding ideal scan_loop
  ideal-scan initial s [] es = refl
  ideal-scan initial s (x ∷ xs) es = ap (after (fn s x ∷ [])) (ideal-scan initial (fn s x) xs es)

  ideal-reduce :
      (initial s : S) (xs : List T) (es : List (Event T))
      → ideal (reduce_loop initial fn) s (items xs ++ closed ∷ es)
        ≡ record { out = fold_left s xs ∷ []; ending = returned }
  unfolding ideal reduce_loop
  ideal-reduce initial s [] es = refl
  ideal-reduce initial s (x ∷ xs) es = ap (after []) (ideal-reduce initial (fn s x) xs es)

  -- Scan delivers the state after every item and Reduce only the last state, which is the initial
  -- one for an empty input, each up to where its sends are interrupted. The last that Scan sends,
  -- its initial state when there is no item, is what Reduce sends.
  pub run_fold_loops :
      (initial : S) (r : Room) (xs : List T) (es : List (Event T))
      → (run (scan_loop initial fn) r initial (items xs ++ closed ∷ es)
          ≡ cut
              (scan_loop initial fn)
              r
              (record { out = fold_steps initial xs; ending = returned }))
        × (run (reduce_loop initial fn) r initial (items xs ++ closed ∷ es)
            ≡ cut
                (reduce_loop initial fn)
                r
                (record { out = fold_left initial xs ∷ []; ending = returned }))
        × (get_last? (initial ∷ fold_steps initial xs) ≡ some (fold_left initial xs))
  run_fold_loops initial r xs es = (
    run_of_ideal (scan_loop initial fn) r initial _ (ideal-scan initial initial xs es),
    run_of_ideal (reduce_loop initial fn) r initial _ (ideal-reduce initial initial xs es),
    get_last?-fold_steps initial xs,
  )
