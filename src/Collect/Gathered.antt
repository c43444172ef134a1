-- ===== src/Collect/Gathered.antt =====
-- What ToMap, ReduceWhile, DefaultIfEmpty, MapResult and MapRecover deliver.
use go_kitsune.Prelude.{
  ◌≡◌, refl, ap, ◌∙◌, Bool, true, false, inl, inr, Bool-cases, List, [], ◌∷◌, ◌++◌, map, Option,
  none, some, get_last?, if◌then◌else◌,
}
use go_kitsune.Errors.{Error, Result}
use go_kitsune.Keys.{Eq, ◌==◌, lookup, insert, lookup-insert}
use go_kitsune.Stage.{Event, closed, items, Room, returned, run, ideal, cut, after}
use go_kitsune.Stage.Cut.{run_of_ideal}
use go_kitsune.Transform.{reduce_loop}
use go_kitsune.Groups.Snapshots.{with_key}
use go_kitsune.Collect.{
  to_map_loop, reduce_while_loop, default_if_empty_loop, split_result, map_result_loop, CallEnd,
  call_recover, recovered, map_recover_loop,
}

module _ {ℓ} {V : Type ℓ} where
  abbrev last_or : Option V → List V → Option V
  last_or o [] = o
  last_or o (v ∷ vs) = last_or (some v) vs

  last_or-get_last : (v : V) (vs : List V) → last_or (some v) vs ≡ get_last? (v ∷ vs)
  last_or-get_last v [] = refl
  last_or-get_last v (w ∷ vs) = last_or-get_last w vs

  last_or-none : (vs : List V) → last_or none vs ≡ get_last? vs
  last_or-none [] = refl
  last_or-none (v ∷ vs) = last_or-get_last v vs

module _ {ℓ κ μ} {T : Type ℓ} {K : Type κ} {V : Type μ} ⦃e : Eq K⦄ (key_fn : T → K)
    (value_fn : T → V) where
  abbrev pub assigned : List (K × V) → List T → List (K × V)
  assigned m [] = m
  assigned m (x ∷ xs) = assigned (insert (key_fn x) (value_fn x) m) xs

  lookup-assigned :
      (k : K) (m : List (K × V)) (xs : List T)
      → lookup k (assigned m xs) ≡ last_or (lookup k m) (map value_fn (with_key key_fn k xs))
  lookup-assigned k m [] = refl
  lookup-assigned k m (x ∷ xs) =
      lookup-assigned k (insert (key_fn x) (value_fn x) m) xs ∙ (elim (Bool-cases (key_fn x == k)) [
        | inl own ↦ rw (lookup-insert (key_fn x) k (value_fn x) m, own) refl
        | inr other ↦ rw (lookup-insert (key_fn x) k (value_fn x) m, other) refl
      ])

  ideal-to_map_loop :
      (m : List (K × V)) (xs : List T) (es : List (Event T))
      → ideal (to_map_loop key_fn value_fn) m (items xs ++ closed ∷ es)
        ≡ record { out = assigned m xs ∷ []; ending = returned }
  unfolding ideal to_map_loop
  ideal-to_map_loop m [] es = refl
  ideal-to_map_loop m (x ∷ xs) es =
      ap (after []) (ideal-to_map_loop (insert (key_fn x) (value_fn x) m) xs es)

  -- ToMap offers one map and returns nil at the close of its input. In that map a key has the value of the
  -- last item with that key, and a key of no item is missing.
  pub run-to_map_loop :
      (r : Room) (xs : List T) (es : List (Event T))
      → (result : List (K × V)) × (run (to_map_loop key_fn value_fn) r [] (items xs ++ closed ∷ es)
          ≡ cut (to_map_loop key_fn value_fn) r (record { out = result ∷ []; ending = returned }))
        × ((k : K) → lookup k result ≡ get_last? (map value_fn (with_key key_fn k xs)))
  run-to_map_loop r xs es = (
    assigned [] xs,
    run_of_ideal (to_map_loop key_fn value_fn) r [] _ (ideal-to_map_loop [] xs es),
    λ k. lookup-assigned k [] xs ∙ last_or-none (map value_fn (with_key key_fn k xs)),
  )

module _ {ℓ κ} {T : Type ℓ} {S : Type κ} (fn : S → T → S × Bool) where
  -- The items up to the first one at which fn does not go on.
  abbrev pub decisive : S → List T → List T
  decisive s [] = []
  decisive s (x ∷ xs) = if (fn s x).1 then x ∷ decisive (fn s x).0 xs else x ∷ []

  -- When every send finds a reader, ReduceWhile does what Reduce does on the items up to the first one at
  -- which fn does not go on.
  pub ideal-reduce_while_loop :
      (s : S) (xs : List T) (es : List (Event T))
      → ideal (reduce_while_loop fn) s (items xs ++ closed ∷ es)
        ≡ ideal (reduce_loop s (λ t x. (fn t x).0)) s (items (decisive s xs) ++ closed ∷ es)
  unfolding ideal reduce_while_loop reduce_loop
  ideal-reduce_while_loop s [] es = refl
  ideal-reduce_while_loop s (x ∷ xs) es = elim (Bool-cases (fn s x).1) [
    | inl on ↦ rw on (ap (after []) (ideal-reduce_while_loop (fn s x).0 xs es))
    | inr off ↦ rw off refl
  ]

module _ {ℓ} {T : Type ℓ} where
  abbrev pub items_or_default : T → List T → List T
  items_or_default d [] = d ∷ []
  items_or_default d (x ∷ xs) = x ∷ xs

  ideal-emitted :
      (d : T) (xs : List T) (es : List (Event T))
      → ideal (default_if_empty_loop d) true (items xs ++ closed ∷ es)
        ≡ record { out = xs; ending = returned }
  unfolding ideal default_if_empty_loop
  ideal-emitted d [] es = refl
  ideal-emitted d (x ∷ xs) es = ap (after (x ∷ [])) (ideal-emitted d xs es)

  -- DefaultIfEmpty offers the items of its input, or the default when there are none, and returns nil.
  pub run-default_if_empty_loop :
      (r : Room) (d : T) (xs : List T) (es : List (Event T))
      → run (default_if_empty_loop d) r false (items xs ++ closed ∷ es)
        ≡ cut
            (default_if_empty_loop d)
            r
            (record { out = items_or_default d xs; ending = returned })
  unfolding ideal default_if_empty_loop
  run-default_if_empty_loop r d [] es = run_of_ideal (default_if_empty_loop d) r false _ refl
  run-default_if_empty_loop r d (x ∷ xs) es =
      run_of_ideal (default_if_empty_loop d) r false _ (ap (after (x ∷ [])) (ideal-emitted d xs es))

module _ {ℓ κ} {I : Type ℓ} {O : Type κ} where
  ideal-map_result_loop :
      (fn : I → Result O) (xs : List I) (es : List (Event I))
      → ideal (map_result_loop fn) tt (items xs ++ closed ∷ es)
        ≡ record { out = map (λ x. split_result x (fn x)) xs; ending = returned }
  unfolding ideal map_result_loop
  ideal-map_result_loop fn [] es = refl
  ideal-map_result_loop fn (x ∷ xs) es =
      ap (after (split_result x (fn x) ∷ [])) (ideal-map_result_loop fn xs es)

  -- MapResult offers each item's value to the first output or the item with its error to the second, in
  -- the order of its input, and returns nil: no error of fn ends it.
  pub run-map_result_loop :
      (fn : I → Result O) (r : Room) (xs : List I) (es : List (Event I))
      → run (map_result_loop fn) r tt (items xs ++ closed ∷ es)
        ≡ cut
            (map_result_loop fn)
            r
            (record { out = map (λ x. split_result x (fn x)) xs; ending = returned })
  run-map_result_loop fn r xs es =
      run_of_ideal (map_result_loop fn) r tt _ (ideal-map_result_loop fn xs es)

  -- MapRecover gives one output for each item, in order, and returns nil: no error or panic of fn ends it.
  pub run-map_recover_loop :
      {P : Type 0} (panic_error : P → Error) (fn : I → CallEnd O P) (recover : I → Error → O)
      (r : Room) (xs : List I) (es : List (Event I))
      → run (map_recover_loop panic_error fn recover) r tt (items xs ++ closed ∷ es)
        ≡ cut (map_recover_loop panic_error fn recover) r (record {
          out = map (λ x. recovered recover x (call_recover panic_error (fn x))) xs;
          ending = returned;
        })
  unfolding ideal map_recover_loop
  run-map_recover_loop panic_error fn recover r xs es =
      run_of_ideal (map_recover_loop panic_error fn recover) r tt _ (undisturbed xs)
    where
      undisturbed :
          (ys : List I)
          → ideal (map_recover_loop panic_error fn recover) tt (items ys ++ closed ∷ es) ≡ record {
            out = map (λ x. recovered recover x (call_recover panic_error (fn x))) ys;
            ending = returned;
          }
      undisturbed [] = refl
      undisturbed (y ∷ ys) =
          ap (after (recovered recover y (call_recover panic_error (fn y)) ∷ [])) (undisturbed ys)
