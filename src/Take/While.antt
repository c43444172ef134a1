-- ===== src/Take/While.antt =====
-- TakeWhile and DropWhile split the input at the first item that the predicate refuses.
use go_kitsune.Prelude.{◌≡◌, refl, Bool, true, false, List, [], ◌∷◌, ◌++◌, arith, if◌then◌else◌}
use go_kitsune.Stage.{Event, closed, items, Room, returned, run, ideal, cut}
use go_kitsune.Stage.Cut.{run_of_ideal}
use go_kitsune.Take.{take_while_loop, drop_while_loop}

module _ {ℓ} {T : Type ℓ} (pred : T → Bool) where
  -- The longest prefix on which the predicate holds, and what follows it.
  abbrev pub prefix_of : List T → List T
  prefix_of [] = []
  prefix_of (x ∷ xs) = if pred x then x ∷ prefix_of xs else []

  abbrev pub rest_of : List T → List T
  rest_of [] = []
  rest_of (x ∷ xs) = if pred x then rest_of xs else x ∷ xs

  pub prefix_of-append-rest_of : (xs : List T) → prefix_of xs ++ rest_of xs ≡ xs
  prefix_of-append-rest_of [] = refl
  prefix_of-append-rest_of (x ∷ xs) = ground (arith, prefix_of-append-rest_of xs)

  ideal-take_while :
      (xs : List T) (es : List (Event T))
      → ideal (take_while_loop pred) tt (items xs ++ closed ∷ es)
        ≡ record { out = prefix_of xs; ending = returned }
  unfolding ideal take_while_loop
  ideal-take_while [] es = refl
  ideal-take_while (x ∷ xs) es = ground (arith, ideal-take_while xs es)

  ideal-pass :
      (xs : List T) (es : List (Event T))
      → ideal (drop_while_loop pred) false (items xs ++ closed ∷ es)
        ≡ record { out = xs; ending = returned }
  unfolding ideal drop_while_loop
  ideal-pass [] es = refl
  ideal-pass (x ∷ xs) es = ground (arith, ideal-pass xs es)

  ideal-drop_while :
      (xs : List T) (es : List (Event T))
      → ideal (drop_while_loop pred) true (items xs ++ closed ∷ es)
        ≡ record { out = rest_of xs; ending = returned }
  unfolding ideal drop_while_loop
  ideal-drop_while [] es = refl
  ideal-drop_while (x ∷ xs) es = ground (arith, ideal-drop_while xs es, ideal-pass xs es)

  -- TakeWhile delivers the longest prefix of items that satisfy the predicate, and DropWhile what
  -- follows that prefix, later items that satisfy it included; each up to where its sends are
  -- interrupted, and both return nil.
  pub run_while_loops :
      (r : Room) (xs : List T) (es : List (Event T))
      → (run (take_while_loop pred) r tt (items xs ++ closed ∷ es)
          ≡ cut (take_while_loop pred) r (record { out = prefix_of xs; ending = returned }))
        × (run (drop_while_loop pred) r true (items xs ++ closed ∷ es)
            ≡ cut (drop_while_loop pred) r (record { out = rest_of xs; ending = returned }))
        × (prefix_of xs ++ rest_of xs ≡ xs)
  run_while_loops r xs es = (
    run_of_ideal (take_while_loop pred) r tt _ (ideal-take_while xs es),
    run_of_ideal (drop_while_loop pred) r true _ (ideal-drop_while xs es),
    prefix_of-append-rest_of xs,
  )
