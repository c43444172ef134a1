-- ===== src/FanOut/Branches.antt =====
-- What each branch gets.
use go_kitsune.Prelude.{
  ℕ, zero, suc, ◌%◌, ◌≡◌, refl, ap, ◌∙◌, Bool, List, [], ◌∷◌, ◌++◌, take, ◌==◌, if◌then◌else◌,
  arith,
}
use go_kitsune.Stage.{Event, closed, items, Room, returned, after, run, ideal}
use go_kitsune.Stage.Cut.{out-run}
use go_kitsune.FanOut.{partition_loop, keyed_balance_loop, fnv32str}

module _ {ℓ} {T : Type ℓ} where
  -- The items that a branch gets.
  abbrev pub branch : ℕ → List (ℕ × T) → List T
  branch j [] = []
  branch j ((i, x) ∷ ys) = if i == j then x ∷ branch j ys else branch j ys

  -- Each item with its branch.
  abbrev pub routed : (T → ℕ) → List T → List (ℕ × T)
  routed f [] = []
  routed f (x ∷ xs) = (f x, x) ∷ routed f xs

  -- The items that a function sends to the branch j.
  abbrev pub sent_to : (T → ℕ) → ℕ → List T → List T
  sent_to f j [] = []
  sent_to f j (x ∷ xs) = if f x == j then x ∷ sent_to f j xs else sent_to f j xs

  branch-routed :
      (f : T → ℕ) (j k : ℕ) (xs : List T)
      → branch j (take k (routed f xs)) ≡ sent_to f j (take k xs)
  branch-routed f j zero xs = refl
  branch-routed f j (suc k) [] = refl
  branch-routed f j (suc k) (x ∷ xs) = ground (arith, branch-routed f j k xs)

  abbrev pub partition_of : (T → Bool) → T → ℕ
  partition_of pred x = if pred x then 0 else 1

  ideal-partition :
      (pred : T → Bool) (xs : List T) (es : List (Event T))
      → ideal (partition_loop pred) tt (items xs ++ closed ∷ es)
        ≡ record { out = routed (partition_of pred) xs; ending = returned }
  unfolding ideal partition_loop
  ideal-partition pred [] es = refl
  ideal-partition pred (x ∷ xs) es = ground (arith, ideal-partition pred xs es)

  ideal-keyed :
      (xor : ℕ → ℕ → ℕ) (n : ℕ) (key_fn : T → List ℕ) (xs : List T) (es : List (Event T))
      → ideal (keyed_balance_loop xor n key_fn) tt (items xs ++ closed ∷ es)
        ≡ record { out = routed (λ x. fnv32str xor (key_fn x) % n) xs; ending = returned }
  unfolding ideal keyed_balance_loop
  ideal-keyed xor n key_fn [] es = refl
  ideal-keyed xor n key_fn (x ∷ xs) es =
      ap (after ((fnv32str xor (key_fn x) % n, x) ∷ [])) (ideal-keyed xor n key_fn xs es)

  -- Partition and KeyedBalance send every item to one branch, which depends on the item, or its key,
  -- alone: a branch gets, in their order, the items that are its own among those sent before the sends
  -- are interrupted.
  pub run_routed_loops :
      (pred : T → Bool) (xor : ℕ → ℕ → ℕ) (n j : ℕ) (key_fn : T → List ℕ) (r : Room) (xs : List T)
      (es : List (Event T))
      → (branch j (run (partition_loop pred) r tt (items xs ++ closed ∷ es)).out
          ≡ sent_to (partition_of pred) j (take r.sends xs))
        × (branch j (run (keyed_balance_loop xor n key_fn) r tt (items xs ++ closed ∷ es)).out
            ≡ sent_to (λ x. fnv32str xor (key_fn x) % n) j (take r.sends xs))
  run_routed_loops pred xor n j key_fn r xs es = (
    ap (branch j) (
          out-run (partition_loop pred) r tt (items xs ++ closed ∷ es)
          ∙ ap (λ t. take r.sends t.out) (ideal-partition pred xs es))
        ∙ branch-routed (partition_of pred) j r.sends xs,
    ap (branch j) (
          out-run (keyed_balance_loop xor n key_fn) r tt (items xs ++ closed ∷ es)
          ∙ ap (λ t. take r.sends t.out) (ideal-keyed xor n key_fn xs es))
        ∙ branch-routed (λ x. fnv32str xor (key_fn x) % n) j r.sends xs,
  )
