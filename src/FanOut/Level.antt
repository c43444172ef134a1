-- ===== src/FanOut/Level.antt =====
-- Broadcast keeps its branches level.
use go_kitsune.Prelude.{
  subst, ℕ, zero, suc, ◌+◌, ◌-◌, ◌≤◌, ◌<◌, ◌≡◌, refl, sym, ap, ◌∙◌, List, [], ◌∷◌, ◌++◌, take,
  length, ltb, leb, if◌then◌else◌, arith, take-append_le, take-append_ge, dec_lt, min,
}
use go_kitsune.Stage.{Event, closed, items, Room, returned, after, run, ideal}
use go_kitsune.Stage.Cut.{out-run}
use go_kitsune.FanOut.{to_each, broadcast_loop}
use go_kitsune.FanOut.Branches.{branch}

module _ {ℓ} {T : Type ℓ} where
  -- Everything to n branches.
  abbrev pub to_all : ℕ → List T → List (ℕ × T)
  to_all n [] = []
  to_all n (x ∷ xs) = to_each 0 n x ++ to_all n xs

  ideal-broadcast :
      (n : ℕ) (xs : List T) (es : List (Event T))
      → ideal (broadcast_loop n) tt (items xs ++ closed ∷ es)
        ≡ record { out = to_all n xs; ending = returned }
  unfolding ideal broadcast_loop
  ideal-broadcast n [] es = refl
  ideal-broadcast n (x ∷ xs) es = ap (after (to_each 0 n x)) (ideal-broadcast n xs es)

  length-to_each : (i m : ℕ) (x : T) → length (to_each i m x) ≡ m
  length-to_each i zero x = refl
  length-to_each i (suc m) x = ap suc (length-to_each (i + 1) m x)

  branch-append : (j : ℕ) (xs ys : List (ℕ × T)) → branch j (xs ++ ys) ≡ branch j xs ++ branch j ys
  branch-append j [] ys = refl
  branch-append j ((i, x) ∷ xs) ys = ground (arith, branch-append j xs ys)

  -- An item that is sent to the first k of m branches, from the branch i on.
  branch-take-to_each :
      (i m k j : ℕ) (x : T)
      → branch j (take k (to_each i m x))
        ≡ (if leb i j then if ltb j (i + min k m) then x ∷ [] else [] else [])
  branch-take-to_each i m zero j x = ground arith
  branch-take-to_each i zero (suc k) j x = ground arith
  branch-take-to_each i (suc m) (suc k) j x = ground (arith, branch-take-to_each (i + 1) m k j x)

  branch-to_each :
      (i m j : ℕ) (x : T)
      → branch j (to_each i m x) ≡ (if leb i j then if ltb j (i + m) then x ∷ [] else [] else [])
  branch-to_each i zero j x = ground arith
  branch-to_each i (suc m) j x = ground (arith, branch-to_each (i + 1) m j x)

  -- What the branch j has after k sends of Broadcast.
  abbrev got : ℕ → ℕ → ℕ → List T → List T
  got n k j xs = branch j (take k (to_all n xs))

  got_within :
      (n k j : ℕ) (x : T) (xs : List T)
      → k < n
      → got n k j (x ∷ xs) ≡ (if ltb j k then x ∷ [] else [])
  got_within n k j x xs h =
      let fits : k ≤ length (to_each 0 n x) = omega (arith, h, length-to_each 0 n x) in
      let few : min k n ≡ k = omega (arith, h) in
      rw (take-append_le k (to_each 0 n x) (to_all n xs) fits)
        (ground (arith, branch-take-to_each 0 n k j x, few))

  got_past :
      (n k j : ℕ) (x : T) (xs : List T)
      → n ≤ k
      → j < n
      → got n k j (x ∷ xs) ≡ x ∷ got n (k - n) j xs
  got_past n k j x xs h hj =
      let fits : length (to_each 0 n x) ≤ k = omega (arith, h, length-to_each 0 n x) in
      rw
        (
          take-append_ge k (to_each 0 n x) (to_all n xs) fits,
          length-to_each 0 n x,
          branch-append j (to_each 0 n x) (take (k - n) (to_all n xs)),
          whole,
        )
        refl
    where
      whole : branch j (to_each 0 n x) ≡ x ∷ []
      whole = ground (arith, branch-to_each 0 n j x, hj)

  -- Prefixes of the items, and none is ahead of an earlier branch or more than one behind it.
  abbrev Level : List T → List T → List T → Type ℓ
  Level xs a b =
      (a ≡ take (length a) xs)
      × (b ≡ take (length b) xs)
      × (length b ≤ length a)
      × (length a ≤ length b + 1)

  got_nil : (n k j : ℕ) → got n k j [] ≡ []
  got_nil n zero j = refl
  got_nil n (suc k) j = refl

  Level-ends :
      (k i j : ℕ) (x : T) (xs : List T)
      → i ≤ j
      → Level (x ∷ xs) (if ltb i k then x ∷ [] else []) (if ltb j k then x ∷ [] else [])
  Level-ends k i j x xs h = (ground arith, ground arith, ground (arith, h), ground (arith, h))

  Level-got : (n k i j : ℕ) (xs : List T) → i ≤ j → j < n → Level xs (got n k i xs) (got n k j xs)
  Level-got n k i j [] hi hj =
      rw (got_nil n k i, got_nil n k j) (refl, refl, omega arith, omega arith)
  Level-got n k i j (x ∷ xs) hi hj = elim (dec_lt k n) [
    | yes lt ↦ rw (got_within n k i x xs lt, got_within n k j x xs lt) (Level-ends k i j x xs hi)
    | no ge ↦
        let (p, q, lo, hi2) = Level-got n (k - n) i j xs hi hj in
        rw
          (
            got_past n k i x xs (omega (arith, ge)) (omega (arith, hi, hj)),
            got_past n k j x xs (omega (arith, ge)) hj,
          )
          (ap (◌∷◌ x) p, ap (◌∷◌ x) q, omega (arith, lo), omega (arith, hi2))
  ]

  -- Broadcast to n branches, however its sends are interrupted: every branch has a prefix of the items, in
  -- their order, and of two branches the later one is never ahead, and at most one item behind.
  pub run-broadcast_loop :
      (n i j : ℕ) (r : Room) (xs : List T) (es : List (Event T))
      → i ≤ j
      → j < n
      → let out = (run (broadcast_loop n) r tt (items xs ++ closed ∷ es)).out in
        (branch i out ≡ take (length (branch i out)) xs)
        × (branch j out ≡ take (length (branch j out)) xs)
        × (length (branch j out) ≤ length (branch i out))
        × (length (branch i out) ≤ length (branch j out) + 1)
  run-broadcast_loop n i j r xs es hi hj =
      let e =
        out-run (broadcast_loop n) r tt (items xs ++ closed ∷ es)
        ∙ ap (λ t. take r.sends t.out) (ideal-broadcast n xs es) in
      subst (λ ys. Level xs (branch i ys) (branch j ys)) (sym e) (Level-got n r.sends i j xs hi hj)
