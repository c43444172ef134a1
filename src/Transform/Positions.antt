-- ===== src/Transform/Positions.antt =====
-- The operators that look at an item's position.
use go_kitsune.Prelude.{
  get_elem?, ◌∙◌, drop, ◌++◌, ℕ, zero, suc, ◌+◌, ◌%◌, ◌≡◌, refl, ap, Bool, true, false, not, List,
  [], ◌∷◌, length, Option, none, some, ◌==◌, if◌then◌else◌, arith,
}
use go_kitsune.Errors.{Result, ok, err, wrap_stage_err}
use go_kitsune.Stage.{
  Event, closed, items, Room, Trace, returned, failed, run, ideal, cut, after, perform_all,
  continue,
}
use go_kitsune.Stage.Cut.{run_of_ideal}
use go_kitsune.Transform.{
  Indexed, Consecutive, with_index_loop, pairwise_loop, take_every_loop, drop_every_loop,
  map_every_loop, intersperse_loop, mapped_item,
}

module _ {ℓ} {T : Type ℓ} where
  -- The items whose position, counted from i, satisfies a test.
  abbrev pub select_at : (ℕ → Bool) → ℕ → List T → List T
  select_at p i [] = []
  select_at p i (x ∷ xs) = if p i then x ∷ select_at p (i + 1) xs else select_at p (i + 1) xs

  select_at-partition :
      (p : ℕ → Bool) (i : ℕ) (xs : List T)
      → length (select_at p i xs) + length (select_at (λ k. not (p k)) i xs) ≡ length xs
  select_at-partition p i [] = refl
  select_at-partition p i (x ∷ xs) = ground (arith, select_at-partition p (i + 1) xs)

  ideal-take_every :
      (n i : ℕ) (xs : List T) (es : List (Event T))
      → ideal (take_every_loop n) i (items xs ++ closed ∷ es)
        ≡ record { out = select_at (λ k. k % n == 0) i xs; ending = returned }
  unfolding ideal take_every_loop
  ideal-take_every n i [] es = refl
  ideal-take_every n i (x ∷ xs) es = ground (arith, ideal-take_every n (i + 1) xs es)

  ideal-drop_every :
      (n i : ℕ) (xs : List T) (es : List (Event T))
      → ideal (drop_every_loop n) i (items xs ++ closed ∷ es)
        ≡ record { out = select_at (λ k. not (k % n == 0)) i xs; ending = returned }
  unfolding ideal drop_every_loop
  ideal-drop_every n i [] es = refl
  ideal-drop_every n i (x ∷ xs) es = ground (arith, ideal-drop_every n (i + 1) xs es)

  -- TakeEvery delivers the items at the positions that n divides and DropEvery those at the others,
  -- positions counted from 0, in order, each up to where its sends are interrupted. Between them
  -- every item is delivered once.
  pub run_every_loops :
      (n : ℕ) (r : Room) (xs : List T) (es : List (Event T))
      → (run (take_every_loop n) r 0 (items xs ++ closed ∷ es)
          ≡ cut
              (take_every_loop n)
              r
              (record { out = select_at (λ k. k % n == 0) 0 xs; ending = returned }))
        × (run (drop_every_loop n) r 0 (items xs ++ closed ∷ es)
            ≡ cut
                (drop_every_loop n)
                r
                (record { out = select_at (λ k. not (k % n == 0)) 0 xs; ending = returned }))
        × (length (select_at (λ k. k % n == 0) 0 xs)
              + length (select_at (λ k. not (k % n == 0)) 0 xs)
            ≡ length xs)
  run_every_loops n r xs es = (
    run_of_ideal (take_every_loop n) r 0 _ (ideal-take_every n 0 xs es),
    run_of_ideal (drop_every_loop n) r 0 _ (ideal-drop_every n 0 xs es),
    select_at-partition (λ k. k % n == 0) 0 xs,
  )

  -- MapEvery of the items from position i on, as a function of lists: it stops at the first error.
  abbrev map_step : ℕ → Result T → T → Bool → Trace T → Trace T
  map_step name (ok v) x true t = after (v ∷ []) t
  map_step name (err e) x true t = record { out = []; ending = failed (wrap_stage_err name e 0) }
  map_step name q x false t = after (x ∷ []) t

  abbrev pub map_at : ℕ → ℕ → (T → Result T) → ℕ → List T → Trace T
  map_at name n fn i [] = record { out = []; ending = returned }
  map_at name n fn i (x ∷ xs) = map_step name (fn x) x (i % n == 0) (map_at name n fn (i + 1) xs)

  perform-mapped_item :
      (name : ℕ) (res : Result T) (x : T) (i : ℕ) (b : Bool) (again : ℕ → Trace T) (t : Trace T)
      → again (i + 1) ≡ t
      → perform_all (if b then mapped_item name res i else continue (x ∷ []) (i + 1)) again
        ≡ map_step name res x b t
  perform-mapped_item name (ok v) x i true again t h = ap (after (v ∷ [])) h
  perform-mapped_item name (err e) x i true again t h = refl
  perform-mapped_item name (ok v) x i false again t h = ap (after (x ∷ [])) h
  perform-mapped_item name (err e) x i false again t h = ap (after (x ∷ [])) h

  ideal-map_every :
      (name n : ℕ) (fn : T → Result T) (i : ℕ) (xs : List T) (es : List (Event T))
      → ideal (map_every_loop name n fn) i (items xs ++ closed ∷ es) ≡ map_at name n fn i xs
  unfolding ideal map_every_loop
  ideal-map_every name n fn i [] es = refl
  ideal-map_every name n fn i (x ∷ xs) es =
      perform-mapped_item name (fn x) x i (i % n == 0) _ _ (ideal-map_every name n fn (i + 1) xs es)

  -- MapEvery applies its function at the positions that n divides, counted from 0, and passes the
  -- other items on; at the first error it stops, and returns that error wrapped with its stage's name
  -- and attempt 0. All that up to where its sends are interrupted.
  pub run-map_every_loop :
      (name n : ℕ) (fn : T → Result T) (r : Room) (xs : List T) (es : List (Event T))
      → run (map_every_loop name n fn) r 0 (items xs ++ closed ∷ es)
        ≡ cut (map_every_loop name n fn) r (map_at name n fn 0 xs)
  run-map_every_loop name n fn r xs es =
      run_of_ideal (map_every_loop name n fn) r 0 _ (ideal-map_every name n fn 0 xs es)

  -- Every item with its position.
  abbrev pub number_from : ℕ → List T → List (Indexed T)
  number_from i [] = []
  number_from i (x ∷ xs) = record { index = i; value = x } ∷ number_from (i + 1) xs

  ideal-with_index :
      (i : ℕ) (xs : List T) (es : List (Event T))
      → ideal with_index_loop i (items xs ++ closed ∷ es)
        ≡ record { out = number_from i xs; ending = returned }
  unfolding ideal with_index_loop
  ideal-with_index i [] es = refl
  ideal-with_index i (x ∷ xs) es = ground (arith, ideal-with_index (i + 1) xs es)

  abbrev pub at_position : ℕ → Option T → Option (Indexed T)
  at_position i none = none
  at_position i (some x) = some (record { index = i; value = x })

  get_elem?-number_from :
      (i k : ℕ) (xs : List T)
      → get_elem? (number_from i xs) k ≡ at_position (i + k) (get_elem? xs k)
  get_elem?-number_from i k [] = refl
  get_elem?-number_from i zero (x ∷ xs) = ground arith
  get_elem?-number_from i (suc k) (x ∷ xs) = ground (arith, get_elem?-number_from (i + 1) k xs)

  -- WithIndex delivers every item, at its place, with its position from 0.
  pub run-with_index_loop :
      (r : Room) (xs : List T) (es : List (Event T))
      → (ys : List (Indexed T)) × (run with_index_loop r 0 (items xs ++ closed ∷ es)
          ≡ cut with_index_loop r (record { out = ys; ending = returned }))
        × ((k : ℕ) → get_elem? ys k ≡ at_position k (get_elem? xs k))
  run-with_index_loop r xs es = (
    number_from 0 xs,
    run_of_ideal with_index_loop r 0 _ (ideal-with_index 0 xs es),
    λ k. get_elem?-number_from 0 k xs ∙ ap (λ i. at_position i (get_elem? xs k)) (omega arith),
  )

  -- Two lists side by side, as long as the shorter.
  abbrev pub beside : List T → List T → List (Consecutive T)
  beside [] ys = []
  beside (x ∷ xs) [] = []
  beside (x ∷ xs) (y ∷ ys) = record { prev = x; curr = y } ∷ beside xs ys

  ideal-pairwise :
      (p : T) (xs : List T) (es : List (Event T))
      → ideal pairwise_loop (some p) (items xs ++ closed ∷ es)
        ≡ record { out = beside (p ∷ xs) xs; ending = returned }
  unfolding ideal pairwise_loop
  ideal-pairwise p [] es = refl
  ideal-pairwise p (x ∷ xs) es =
      ap (after (record { prev = p; curr = x } ∷ [])) (ideal-pairwise x xs es)

  ideal-pairwise_start :
      (xs : List T) (es : List (Event T))
      → ideal pairwise_loop none (items xs ++ closed ∷ es)
        ≡ record { out = beside xs (drop 1 xs); ending = returned }
  unfolding ideal pairwise_loop
  ideal-pairwise_start [] es = refl
  ideal-pairwise_start (x ∷ xs) es = ground (arith, ideal-pairwise x xs es)

  -- Pairwise pairs every item with the one after it: the input beside its own tail.
  pub run-pairwise_loop :
      (r : Room) (xs : List T) (es : List (Event T))
      → run pairwise_loop r none (items xs ++ closed ∷ es)
        ≡ cut pairwise_loop r (record { out = beside xs (drop 1 xs); ending = returned })
  run-pairwise_loop r xs es = run_of_ideal pairwise_loop r none _ (ideal-pairwise_start xs es)

  -- The list with `sep` before each item.
  abbrev pub preceded : T → List T → List T
  preceded sep [] = []
  preceded sep (x ∷ xs) = sep ∷ x ∷ preceded sep xs

  ideal-intersperse :
      (sep : T) (xs : List T) (es : List (Event T))
      → ideal (intersperse_loop sep) false (items xs ++ closed ∷ es)
        ≡ record { out = preceded sep xs; ending = returned }
  unfolding ideal intersperse_loop
  ideal-intersperse sep [] es = refl
  ideal-intersperse sep (x ∷ xs) es = ap (after (sep ∷ x ∷ [])) (ideal-intersperse sep xs es)

  ideal-intersperse_start :
      (sep : T) (xs : List T) (es : List (Event T))
      → ideal (intersperse_loop sep) true (items xs ++ closed ∷ es)
        ≡ record { out = drop 1 (preceded sep xs); ending = returned }
  unfolding ideal intersperse_loop
  ideal-intersperse_start sep [] es = refl
  ideal-intersperse_start sep (x ∷ xs) es = ap (after (x ∷ [])) (ideal-intersperse sep xs es)

  -- Intersperse puts the separator before every item but the first, and nowhere else.
  pub run-intersperse_loop :
      (sep : T) (r : Room) (xs : List T) (es : List (Event T))
      → run (intersperse_loop sep) r true (items xs ++ closed ∷ es)
        ≡ cut
            (intersperse_loop sep)
            r
            (record { out = drop 1 (preceded sep xs); ending = returned })
  run-intersperse_loop sep r xs es =
      run_of_ideal (intersperse_loop sep) r true _ (ideal-intersperse_start sep xs es)
