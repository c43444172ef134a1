-- ===== src/Groups/Snapshots.antt =====
-- What the groups and the counts are.
use go_kitsune.Prelude.{
  ℕ, zero, suc, ◌+◌, ◌≡◌, refl, sym, ap, ◌∙◌, Bool, true, false, List, [], ◌∷◌, ◌++◌, append-nil,
  append_assoc, Option, none, some, length, length-append, take, get_elem?, ltb, lt→ltb, ◌<◌,
  if◌then◌else◌, arith, Bool-cases, inl, inr,
}
use go_kitsune.Keys.{Eq, ◌==◌, lookup, lookup-insert}
use go_kitsune.Stage.{Event, closed, items, Room, returned, after, run, ideal, cut}
use go_kitsune.Stage.Cut.{run_of_ideal}
use go_kitsune.Groups.{
  or_zero, add_to_group, group_by_loop, add_count, frequencies_by_loop, running_count_by_loop,
}

module _ {ℓ} {T : Type ℓ} where
  -- A group with more items; an absent one stays absent without any.
  abbrev pub extended : Option (List T) → List T → Option (List T)
  extended none [] = none
  extended none (y ∷ ys) = some (y ∷ ys)
  extended (some zs) ys = some (zs ++ ys)

  abbrev pub size : Option (List T) → Option ℕ
  size none = none
  size (some ys) = some (length ys)

  extended_nil : (o : Option (List T)) → extended o [] ≡ o
  extended_nil none = refl
  extended_nil (some zs) = ap some (append-nil zs)

  extended-cons :
      (o : Option (List T)) (x : T) (ys : List T)
      → extended (some (or_zero [] o ++ x ∷ [])) ys ≡ extended o (x ∷ ys)
  extended-cons none x ys = refl
  extended-cons (some zs) x ys = ap some (append_assoc zs (x ∷ []) ys)

module _ {ℓ κ} {T : Type ℓ} {K : Type κ} ⦃e : Eq K⦄ (key_fn : T → K) where
  -- The items with a key.
  abbrev pub with_key : K → List T → List T
  with_key k [] = []
  with_key k (x ∷ xs) = if key_fn x == k then x ∷ with_key k xs else with_key k xs

  abbrev pub all_groups : List (K × List T) → List T → List (K × List T)
  all_groups m [] = m
  all_groups m (x ∷ xs) = all_groups (add_to_group key_fn m x) xs

  abbrev pub all_counts : List (K × ℕ) → List T → List (K × ℕ)
  all_counts m [] = m
  all_counts m (x ∷ xs) = all_counts (add_count key_fn m x) xs

  -- The counts after each item.
  abbrev pub snapshots : List (K × ℕ) → List T → List (List (K × ℕ))
  snapshots m [] = []
  snapshots m (x ∷ xs) = add_count key_fn m x ∷ snapshots (add_count key_fn m x) xs

  lookup-all_groups :
      (k : K) (m : List (K × List T)) (xs : List T)
      → lookup k (all_groups m xs) ≡ extended (lookup k m) (with_key k xs)
  unfolding add_to_group
  lookup-all_groups k m [] = sym (extended_nil (lookup k m))
  lookup-all_groups k m (x ∷ xs) =
      lookup-all_groups k (add_to_group key_fn m x) xs ∙ (elim (Bool-cases (key_fn x == k)) [
        | inl own ↦
            let same : lookup (key_fn x) m ≡ lookup k m =
              ap (λ j. lookup j m) ((e.beq_iff (key_fn x) k).0 own) in
            rw
              (lookup-insert (key_fn x) k (or_zero [] (lookup (key_fn x) m) ++ x ∷ []) m, own, same)
              (extended-cons (lookup k m) x (with_key k xs))
        | inr other ↦
            rw (lookup-insert (key_fn x) k (or_zero [] (lookup (key_fn x) m) ++ x ∷ []) m, other)
              refl
      ])

  -- The count of a key is the length of its group.
  lookup-all_counts :
      (k : K) (m : List (K × ℕ)) (g : List (K × List T)) (xs : List T)
      → ((j : K) → lookup j m ≡ size (lookup j g))
      → lookup k (all_counts m xs) ≡ size (lookup k (all_groups g xs))
  unfolding add_count add_to_group
  lookup-all_counts k m g [] h = h k
  lookup-all_counts k m g (x ∷ xs) h =
      lookup-all_counts k (add_count key_fn m x) (add_to_group key_fn g x) xs (λ j.
        lookup-insert (key_fn x) j (or_zero 0 (lookup (key_fn x) m) + 1) m
        ∙ grown j (key_fn x == j)
        ∙ ap size (sym (lookup-insert (key_fn x) j (or_zero [] (lookup (key_fn x) g) ++ x ∷ []) g)))
    where
      one_more : (o : Option (List T)) → or_zero 0 (size o) + 1 ≡ length (or_zero [] o ++ x ∷ [])
      one_more none = refl
      one_more (some zs) = sym (length-append zs (x ∷ []))

      grown :
          (j : K) (own : Bool)
          → (if own then some (or_zero 0 (lookup (key_fn x) m) + 1) else lookup j m)
            ≡ size (if own then some (or_zero [] (lookup (key_fn x) g) ++ x ∷ []) else lookup j g)
      grown j true = rw (h (key_fn x)) (ap some (one_more (lookup (key_fn x) g)))
      grown j false = h j

  ideal-group_by :
      (m : List (K × List T)) (xs : List T) (es : List (Event T))
      → ideal (group_by_loop key_fn) m (items xs ++ closed ∷ es)
        ≡ record { out = all_groups m xs ∷ []; ending = returned }
  unfolding ideal group_by_loop
  ideal-group_by m [] es = refl
  ideal-group_by m (x ∷ xs) es = ideal-group_by (add_to_group key_fn m x) xs es

  ideal-frequencies_by :
      (m : List (K × ℕ)) (xs : List T) (es : List (Event T))
      → ideal (frequencies_by_loop key_fn) m (items xs ++ closed ∷ es)
        ≡ record { out = all_counts m xs ∷ []; ending = returned }
  unfolding ideal frequencies_by_loop
  ideal-frequencies_by m [] es = refl
  ideal-frequencies_by m (x ∷ xs) es = ideal-frequencies_by (add_count key_fn m x) xs es

  -- GroupBy delivers one map, up to where its send is interrupted: the group of a key has the items with
  -- that key, in the order of their arrival, and a key without items has no group.
  pub run-group_by_loop :
      (r : Room) (k : K) (xs : List T) (es : List (Event T))
      → (groups : List (K × List T)) × (run (group_by_loop key_fn) r [] (items xs ++ closed ∷ es)
          ≡ cut (group_by_loop key_fn) r (record { out = groups ∷ []; ending = returned }))
        × (lookup k groups ≡ extended none (with_key k xs))
  run-group_by_loop r k xs es = (
    all_groups [] xs,
    run_of_ideal (group_by_loop key_fn) r [] _ (ideal-group_by [] xs es),
    lookup-all_groups k [] xs,
  )

  ideal-running_count_by :
      (m : List (K × ℕ)) (xs : List T) (es : List (Event T))
      → ideal (running_count_by_loop key_fn) m (items xs ++ closed ∷ es)
        ≡ record { out = snapshots m xs; ending = returned }
  unfolding ideal running_count_by_loop
  ideal-running_count_by m [] es = refl
  ideal-running_count_by m (x ∷ xs) es =
      ap (after (add_count key_fn m x ∷ [])) (ideal-running_count_by (add_count key_fn m x) xs es)

  get-snapshots :
      (m : List (K × ℕ)) (i : ℕ) (xs : List T)
      → get_elem? (snapshots m xs) i
        ≡ (if ltb i (length xs) then some (all_counts m (take (suc i) xs)) else none)
  get-snapshots m i [] = ground arith
  get-snapshots m zero (x ∷ xs) = ground arith
  get-snapshots m (suc i) (x ∷ xs) = ground (arith, get-snapshots (add_count key_fn m x) i xs)

  -- FrequenciesBy and RunningFrequenciesBy (and RunningCountBy, whose stage is the same) count the groups:
  -- FrequenciesBy delivers one map, in which every key has the length of its group in GroupBy of the same
  -- items; and when every send finds a reader, the snapshot after the item i is that map for the items up
  -- to it.
  pub run_counting_loops :
      (r : Room) (i : ℕ) (k : K) (xs : List T) (es : List (Event T))
      → i < length xs
      → let upto = take (suc i) xs in
        (run (frequencies_by_loop key_fn) r [] (items upto ++ closed ∷ es)
          ≡ cut
              (frequencies_by_loop key_fn)
              r
              (record { out = all_counts [] upto ∷ []; ending = returned }))
        × (lookup k (all_counts [] upto) ≡ size (lookup k (all_groups [] upto)))
        × (get_elem? (ideal (running_count_by_loop key_fn) [] (items xs ++ closed ∷ es)).out i
            ≡ some (all_counts [] upto))
  run_counting_loops r i k xs es h =
      let upto = take (suc i) xs in
      (
        run_of_ideal (frequencies_by_loop key_fn) r [] _ (ideal-frequencies_by [] upto es),
        lookup-all_counts k [] [] upto (λ j. refl),
        rw (ideal-running_count_by [] xs es, get-snapshots [] i xs, lt→ltb i (length xs) h) refl,
      )
