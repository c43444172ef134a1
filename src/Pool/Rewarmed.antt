-- ===== src/Pool/Rewarmed.antt =====
-- What Warmup does to the guard of Release.
use go_kitsune.Prelude.{ℕ, ◌≡◌, refl, ap, true, false, List, ◌∷◌, some, ==_iff}
use go_kitsune.Pool.{Pool, Pooled, store_released, put, release, release_if, get, get_all, warmup}

module _ {T : Type 0} (new_fn : ℕ → T) where
  -- Warmup undoes the guard of Release: after the Warmup of one object, the last object released can be
  -- released once more without a panic, although no one has got it since, and the next two
  -- calls of Get return it twice.
  pub warmup-released :
      (i made : ℕ) (rest : List ℕ) (objects : ℕ → Pooled T)
      → (q : Pool T) × (release i
            (warmup new_fn 1 (record { stack = i ∷ rest; objects = objects; made = made }))
          ≡ some q)
        × ((get new_fn q).1 ≡ i)
        × ((get new_fn (get new_fn q).0).1 ≡ i)
  unfolding release warmup get get_all
  warmup-released i made rest objects =
      let warm : Pool T = record {
        stack = i ∷ rest;
        objects = store_released i false objects;
        made = made;
      } in
      let unflagged : (warm.objects i).released ≡ false = rw ((==_iff i i).1 refl) refl in
      (
        put i (record warm { objects = store_released i true warm.objects }),
        ap (λ b. release_if b i warm) unflagged,
        refl,
        refl,
      )
