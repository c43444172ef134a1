-- ===== src/Take/Counted.antt =====
-- Take and Drop split the input at n.
use go_kitsune.Prelude.{
  ℕ, zero, suc, ◌+◌, ◌≤◌, ◌≡◌, refl, List, [], ◌∷◌, ◌++◌, length, take, drop, arith,
}
use go_kitsune.Stage.{Event, closed, items, Room, returned, run, ideal, cut}
use go_kitsune.Stage.Cut.{run_of_ideal}
use go_kitsune.Take.{take_loop, drop_loop}

module _ {ℓ} {T : Type ℓ} (n : ℕ) where
  ideal-take :
      (k count : ℕ) (xs : List T) (es : List (Event T))
      → k + count ≡ n
      → ideal (take_loop n) count (items xs ++ closed ∷ es)
        ≡ record { out = take k xs; ending = returned }
  unfolding ideal take_loop
  ideal-take zero count [] es h = ground arith
  ideal-take (suc k) count [] es h = ground arith
  ideal-take zero count (x ∷ xs) es h = ground arith
  ideal-take (suc k) count (x ∷ xs) es h = ground (arith, ideal-take k (count + 1) xs es)

  ideal-drop :
      (k count : ℕ) (xs : List T) (es : List (Event T))
      → k + count ≡ n
      → ideal (drop_loop n) count (items xs ++ closed ∷ es)
        ≡ record { out = drop k xs; ending = returned }
  unfolding ideal drop_loop
  ideal-drop zero count [] es h = refl
  ideal-drop (suc k) count [] es h = refl
  ideal-drop zero count (x ∷ xs) es h = ground (arith, ideal-drop zero count xs es)
  ideal-drop (suc k) count (x ∷ xs) es h = ground (arith, ideal-drop k (count + 1) xs es)

  -- Take delivers the first n items and returns nil. If its sends are interrupted after some
  -- number of them, it delivers that many of the first n items.
  pub run-take_loop :
      (r : Room) (xs : List T) (es : List (Event T))
      → run (take_loop n) r 0 (items xs ++ closed ∷ es)
        ≡ cut (take_loop n) r (record { out = take n xs; ending = returned })
  run-take_loop r xs es = run_of_ideal (take_loop n) r 0 _ (ideal-take n 0 xs es (omega arith))

  -- Drop delivers all but the first n items, up to where its sends are interrupted.
  pub run-drop_loop :
      (r : Room) (xs : List T) (es : List (Event T))
      → run (drop_loop n) r 0 (items xs ++ closed ∷ es)
        ≡ cut (drop_loop n) r (record { out = drop n xs; ending = returned })
  run-drop_loop r xs es = run_of_ideal (drop_loop n) r 0 _ (ideal-drop n 0 xs es (omega arith))

  ideal-take_enough :
      (k count : ℕ) (xs : List T) (es : List (Event T))
      → k + count ≡ n
      → k ≤ length xs
      → ideal (take_loop n) count (items xs ++ es) ≡ record { out = take k xs; ending = returned }
  unfolding ideal take_loop
  ideal-take_enough zero count [] [] h g = ground arith
  ideal-take_enough zero count [] (e ∷ es) h g = ground arith
  ideal-take_enough (suc k) count [] es h g = absurd (omega arith)
  ideal-take_enough zero count (x ∷ xs) es h g = ground arith
  ideal-take_enough (suc k) count (x ∷ xs) es h g =
      ground (arith, ideal-take_enough k (count + 1) xs es)

  -- Take needs no close of its input: once n items have come it returns nil, whatever the source
  -- does afterwards, and no later event is looked at.
  pub run-take_enough :
      (r : Room) (xs : List T) (es : List (Event T))
      → n ≤ length xs
      → run (take_loop n) r 0 (items xs ++ es)
        ≡ cut (take_loop n) r (record { out = take n xs; ending = returned })
  run-take_enough r xs es h =
      run_of_ideal (take_loop n) r 0 _ (ideal-take_enough n 0 xs es (omega arith) h)
