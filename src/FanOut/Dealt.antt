-- ===== src/FanOut/Dealt.antt =====
-- Balance deals the items out evenly.
use go_kitsune.Prelude.{
  subst, ℕ, zero, suc, ◌+◌, ◌%◌, ◌≤◌, ◌<◌, ◌≡◌, refl, sym, ap, ◌∙◌, List, [], ◌∷◌, ◌++◌, take,
  length, leb, ◌==◌, if◌then◌else◌, arith, Bool-cases, inl, inr, ==_iff,
}
use native.Mathlib.Nat.{suc-mod, mod-lt, mod-eq_of_lt, mod_self, zero-mod}
use go_kitsune.Stage.{Event, closed, items, Room, returned, after, run, ideal}
use go_kitsune.Stage.Cut.{out-run}
use go_kitsune.Transform.Positions.{select_at}
use go_kitsune.FanOut.{balance_loop}
use go_kitsune.FanOut.Branches.{branch}

-- The branch after p.
abbrev next_branch : ℕ → ℕ → ℕ
next_branch n p = if p + 1 == n then 0 else p + 1

shift-mod : (n idx : ℕ) → (idx + 1) % n ≡ (idx % n + 1) % n
shift-mod n idx =
    let one_more : idx + 1 ≡ suc idx = omega arith in
    let back : suc (idx % n) ≡ idx % n + 1 = omega arith in
    rw one_more (suc-mod idx n ∙ ap (λ k. k % n) back)

next-mod : (n idx : ℕ) → 0 < n → (idx + 1) % n ≡ next_branch n (idx % n)
next-mod n idx h = elim (Bool-cases (idx % n + 1 == n)) [
  | inl y ↦
      let last : idx % n + 1 ≡ n = (==_iff (idx % n + 1) n).0 y in
      rw y (shift-mod n idx ∙ (ap (λ k. k % n) last ∙ mod_self n))
  | inr f ↦ rw f (shift-mod n idx ∙ mod-eq_of_lt (ground (arith, f, mod-lt idx h)))
]

-- What the branches i and j have, when the next item goes to p and p < n: a branch before p is one ahead.
abbrev pending_turn : ℕ → ℕ → ℕ
pending_turn p i = if leb p i then 1 else 0

abbrev Apart : ℕ → ℕ → ℕ → ℕ → ℕ → Type 0
Apart p i j a b =
    (b + pending_turn p i ≤ a + pending_turn p j)
    × (a + pending_turn p j ≤ b + pending_turn p i + 1)

Apart-turn :
    (n p i j a b : ℕ)
    → p < n
    → i < j
    → j < n
    → Apart (next_branch n p) i j a b
    → Apart p i j (if p == i then suc a else a) (if p == j then suc b else b)
Apart-turn n p i j a b hp hi hj h = (ground (arith, hp, hi, hj, h), ground (arith, hp, hi, hj, h))

module _ {ℓ} {T : Type ℓ} where
  -- The items dealt out in turn, the first to the branch p.
  abbrev deal : ℕ → ℕ → List T → List (ℕ × T)
  deal n p [] = []
  deal n p (x ∷ xs) = (p, x) ∷ deal n (next_branch n p) xs

  ideal-balance :
      (n idx : ℕ) (xs : List T) (es : List (Event T))
      → 0 < n
      → ideal (balance_loop n) idx (items xs ++ closed ∷ es)
        ≡ record { out = deal n (idx % n) xs; ending = returned }
  unfolding ideal balance_loop
  ideal-balance n idx [] es h = refl
  ideal-balance n idx (x ∷ xs) es h = ap (after ((idx % n, x) ∷ [])) (
      ideal-balance n (idx + 1) xs es h
      ∙ ap (λ p. record { out = deal n p xs; ending = returned }) (next-mod n idx h))

  take-deal : (n p k : ℕ) (xs : List T) → take k (deal n p xs) ≡ deal n p (take k xs)
  take-deal n p zero xs = refl
  take-deal n p (suc k) [] = refl
  take-deal n p (suc k) (x ∷ xs) = ap (◌∷◌ (p, x)) (take-deal n (next_branch n p) k xs)

  length-branch-cons :
      (p j : ℕ) (x : T) (ys : List (ℕ × T))
      → length (branch j ((p, x) ∷ ys))
        ≡ (if p == j then suc (length (branch j ys)) else length (branch j ys))
  length-branch-cons p j x ys = ground arith

  Apart-deal :
      (n p i j : ℕ) (xs : List T)
      → p < n
      → i < j
      → j < n
      → Apart p i j (length (branch i (deal n p xs))) (length (branch j (deal n p xs)))
  Apart-deal n p i j [] hp hi hj = (ground (arith, hi), ground (arith, hi))
  Apart-deal n p i j (x ∷ xs) hp hi hj =
      let rest = deal n (next_branch n p) xs in
      rw (length-branch-cons p i x rest, length-branch-cons p j x rest)
        (Apart-turn n p i j (length (branch i rest)) (length (branch j rest)) hp hi hj
          (Apart-deal n (next_branch n p) i j xs (ground (arith, hp)) hi hj))

  -- A branch gets every n-th item.
  branch-deal :
      (n idx j : ℕ) (xs : List T)
      → 0 < n
      → branch j (deal n (idx % n) xs) ≡ select_at (λ k. k % n == j) idx xs
  branch-deal n idx j [] h = refl
  branch-deal n idx j (x ∷ xs) h =
      let rest =
        ap (λ p. branch j (deal n p xs)) (sym (next-mod n idx h))
        ∙ branch-deal n (idx + 1) j xs h in
      ground (arith, rest)

  -- Balance over n branches, however its sends are interrupted: the branch j gets, in their order, the
  -- items at the positions that are j modulo n among those sent, positions counted from 0; and of two
  -- branches the later one is never ahead, and at most one item behind.
  pub run-balance_loop :
      (n i j : ℕ) (r : Room) (xs : List T) (es : List (Event T))
      → i < j
      → j < n
      → let out = (run (balance_loop n) r 0 (items xs ++ closed ∷ es)).out in
        (branch j out ≡ select_at (λ k. k % n == j) 0 (take r.sends xs))
        × (length (branch j out) ≤ length (branch i out))
        × (length (branch i out) ≤ length (branch j out) + 1)
  run-balance_loop n i j r xs es hi hj =
      let pos : 0 < n = omega (arith, hj) in
      let e =
        out-run (balance_loop n) r 0 (items xs ++ closed ∷ es)
        ∙ ap (λ t. take r.sends t.out) (ideal-balance n 0 xs es pos)
        ∙ (take-deal n (0 % n) r.sends xs) in
      let (lo, hi2) = Apart-deal n (0 % n) i j (take r.sends xs) (mod-lt 0 pos) hi hj in
      let start : 0 % n ≡ 0 = zero-mod n in
      subst
        (λ ys.
          (branch j ys ≡ select_at (λ k. k % n == j) 0 (take r.sends xs))
          × (length (branch j ys) ≤ length (branch i ys))
          × (length (branch i ys) ≤ length (branch j ys) + 1))
        (sym e)
        (
          branch-deal n 0 j (take r.sends xs) pos,
          ground (arith, lo, start),
          ground (arith, hi2, start),
        )
