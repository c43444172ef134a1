-- ===== src/Take/Boundary.antt =====
-- TakeUntil and DropUntil split the input at the moment when the boundary fires.
use go_kitsune.Prelude.{◌≡◌, refl, true, false, List, [], ◌∷◌, ◌++◌}
use go_kitsune.Stage.{Event, closed, signal, items, Room, returned, run, ideal, cut}
use go_kitsune.Stage.Cut.{run_of_ideal}
use go_kitsune.Take.{take_until_loop, drop_until_loop}

module _ {ℓ} {T : Type ℓ} where
  ideal-take_until :
      (xs : List T) (es : List (Event T))
      → ideal take_until_loop tt (items xs ++ signal ∷ es) ≡ record { out = xs; ending = returned }
  unfolding ideal take_until_loop
  ideal-take_until [] es = refl
  ideal-take_until (x ∷ xs) es = rw (ideal-take_until xs es)

  ideal-open :
      (ys : List T) (es : List (Event T))
      → ideal drop_until_loop true (items ys ++ closed ∷ es)
        ≡ record { out = ys; ending = returned }
  unfolding ideal drop_until_loop
  ideal-open [] es = refl
  ideal-open (y ∷ ys) es = rw (ideal-open ys es)

  ideal-drop_until :
      (xs ys : List T) (es : List (Event T))
      → ideal drop_until_loop false (items xs ++ signal ∷ (items ys ++ closed ∷ es))
        ≡ record { out = ys; ending = returned }
  unfolding ideal drop_until_loop
  ideal-drop_until [] ys es = ideal-open ys es
  ideal-drop_until (x ∷ xs) ys es = ideal-drop_until xs ys es

  -- When the boundary fires after the items xs and before the items ys, TakeUntil delivers xs and
  -- returns nil without waiting for its input to close, and DropUntil delivers ys and returns nil
  -- when its input closes; each up to where its sends are interrupted.
  pub run_until_loops :
      (r : Room) (xs ys : List T) (es : List (Event T))
      → (run take_until_loop r tt (items xs ++ signal ∷ (items ys ++ closed ∷ es))
          ≡ cut take_until_loop r (record { out = xs; ending = returned }))
        × (run drop_until_loop r false (items xs ++ signal ∷ (items ys ++ closed ∷ es))
            ≡ cut drop_until_loop r (record { out = ys; ending = returned }))
  run_until_loops r xs ys es = (
    run_of_ideal take_until_loop r tt _ (ideal-take_until xs _),
    run_of_ideal drop_until_loop r false _ (ideal-drop_until xs ys es),
  )
