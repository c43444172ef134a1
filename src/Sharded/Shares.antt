-- ===== src/Sharded/Shares.antt =====
-- The share of a worker: the items of its shard, its outputs, and what the serial stage sends of them.
use go_kitsune.Prelude.{
  ℕ, ◌≡◌, refl, sym, ap, subst, false, List, [], ◌∷◌, ◌++◌, inl, inr, Bool-cases, ◌==◌, ==_iff,
  if◌then◌else◌,
}
use go_kitsune.Stage.{Event, closed, items, Action, continue, finish, Trace, ideal, perform_all}
use go_kitsune.Transform.{per_item, return_nil}
use go_kitsune.Sharded.{update}

pub update-cases {ℓ κ} :
    {A : Type ℓ} (P : ℕ → A → Type κ) (i j : ℕ) (a : A) (f : ℕ → A)
    → P i a
    → ((j == i) ≡ false → P j (f j))
    → P j (update i a f j)
update-cases P i j a f at other = elim (Bool-cases (j == i)) [
  | inl y ↦ rw y (subst (λ k. P k a) (sym ((==_iff j i).0 y)) at)
  | inr n ↦ rw n (other n)
]

-- The outputs of one worker.
abbrev pub outs_of {ℓ} : {O : Type ℓ} → ℕ → List (ℕ × O) → List O
outs_of i [] = []
outs_of i ((j, v) ∷ vs) = if i == j then v ∷ outs_of i vs else outs_of i vs

pub outs_of-append {ℓ} :
    {O : Type ℓ} (i : ℕ) (xs ys : List (ℕ × O))
    → outs_of i (xs ++ ys) ≡ outs_of i xs ++ outs_of i ys
outs_of-append i [] ys = refl
outs_of-append i ((j, v) ∷ xs) ys = elim (Bool-cases (i == j)) [
  | inl y ↦ rw y (ap (λ zs. v ∷ zs) (outs_of-append i xs ys))
  | inr n ↦ rw n (outs_of-append i xs ys)
]

-- What comes of an action when the loop goes on with `rest`.
abbrev pub and_then : {M O : Type 0} → Action M O → (M → List O) → List O
and_then (continue vs m) rest = vs ++ rest m
and_then (finish vs end) rest = vs

module _ {M I O : Type 0} (body : M → I → Action M O) where
  -- What the serial stage sends of a list of items.
  abbrev pub outputs : M → List I → List O
  outputs m [] = []
  outputs m (x ∷ xs) = and_then (body m x) (λ m. outputs m xs)

  out-perform :
      (a : Action M O) (again : M → Trace O) (rest : M → List O)
      → ((m : M) → (again m).out ≡ rest m)
      → (perform_all a again).out ≡ and_then a rest
  out-perform (continue vs m) again rest h = ap (λ ys. vs ++ ys) (h m)
  out-perform (finish vs end) again rest h = refl

  pub out-ideal :
      (m : M) (xs : List I) (es : List (Event I))
      → (ideal (per_item body return_nil) m (items xs ++ closed ∷ es)).out ≡ outputs m xs
  unfolding ideal
  out-ideal m [] es = refl
  out-ideal m (x ∷ xs) es = out-perform (body m x) _ (λ m. outputs m xs) (λ m. out-ideal m xs es)

-- The items that are dispatched to a worker.
abbrev pub route {ℓ} : {I : Type ℓ} → (I → ℕ) → ℕ → List I → List I
route shard i [] = []
route shard i (x ∷ xs) = if i == shard x then x ∷ route shard i xs else route shard i xs
