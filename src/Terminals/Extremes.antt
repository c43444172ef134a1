-- ===== src/Terminals/Extremes.antt =====
-- Min, Max and MinMax.
use mathlib.Core.List.{Mem, mem-cons_self, mem-cons_of_mem}
use mathlib.Core.List.Perm
use mathlib.Core.Path.{ap₂}
use go_kitsune.Prelude.{
  ◌⊎◌, ◌≡◌, refl, ap, ◌∙◌, Bool, true, false, inl, inr, Bool-cases, List, [], ◌∷◌, Option, none,
  some, All,
}
use go_kitsune.Errors.{Error, Result}
use go_kitsune.Terminals.{Upstream, for_each, smaller, widen, min_item, max_item, min_max, or_error}

module _ {ℓ} {T : Type ℓ} where
  abbrev folded {κ} : {S : Type κ} → (S → T → S) → S → List T → S
  folded step s [] = s
  folded step s (x ∷ xs) = folded step (step s x) xs

  for_each-folded {κ} :
      {S : Type κ} (wrap : Error → Error) (step : S → T → S) (s : S) (xs : List T)
      (failure : Option Error)
      → for_each wrap (λ t x. (step t x, none)) s xs failure ≡ (folded step s xs, failure)
  for_each-folded wrap step s [] failure = refl
  for_each-folded wrap step s (x ∷ xs) failure = for_each-folded wrap step (step s x) xs failure

  -- The one that was chosen is one of the items, and none is chosen only of none.
  abbrev pub IsOneOf : Option T → List T → Type ℓ
  IsOneOf none xs = xs ≡ []
  IsOneOf (some m) xs = Mem m xs

module _ {ℓ} {T : Type ℓ} (less : T → T → Bool) where
  -- No item is less than the least one.
  abbrev pub IsLeast : Option T → List T → Type 0
  IsLeast none xs = Unit
  IsLeast (some m) xs = All (λ y. less y m ≡ false) xs

-- The result of a run.
abbrev pub settled {ℓ} : {A : Type ℓ} → A → Option Error → Result A
settled a failure = or_error (λ x. x) (a, failure)

-- A strict weak order, which a comparison function must be.
pub record IsStrictWeakOrder {ℓ} {T : Type ℓ} (less : T → T → Bool) : Type ℓ where
  pub irrefl : (a : T) → less a a ≡ false
  pub trans : (a b c : T) → less a b ≡ true → less b c ≡ true → less a c ≡ true
  pub compare : (a b c : T) → less a c ≡ true → (less a b ≡ true) ⊎ (less b c ≡ true)

flip-IsStrictWeakOrder {ℓ} :
    {T : Type ℓ} {less : T → T → Bool}
    → IsStrictWeakOrder less
    → IsStrictWeakOrder (λ a b. less b a)
flip-IsStrictWeakOrder o = record {
  irrefl = o.irrefl;
  trans = λ a b c p q. o.trans c b a q p;
  compare = λ a b c p. elim (o.compare c b a p) [ inl q ↦ inr q | inr q ↦ inl q ];
}

module _ {ℓ} {T : Type ℓ} (less : T → T → Bool) (o : IsStrictWeakOrder less) where
  -- What the smallest of `r` and the items is.
  abbrev Smallest : T → List T → Type ℓ
  Smallest r xs =
      (m : T) × (folded (smaller less) (some r) xs ≡ some m)
      × (less r m ≡ false)
      × All (λ y. less y m ≡ false) xs
      × Mem m (r ∷ xs)

  smallest : (r : T) (xs : List T) → Smallest r xs
  smallest r [] = (r, refl, o.irrefl r, tt, mem-cons_self)
  smallest r (x ∷ xs) = elim (Bool-cases (less x r)) [
    | inl under ↦
        let s = smallest x xs in
        let over : less r s.0 ≡ false = elim (Bool-cases (less r s.0)) [
          | inl bad ↦ absurd (cc (o.trans x r s.0 under bad, s.2))
          | inr good ↦ good
        ] in
        (s.0, rw under s.1, over, (s.2, s.3), mem-cons_of_mem r s.4)
    | inr above ↦
        let s = smallest r xs in
        let over : less x s.0 ≡ false = elim (Bool-cases (less x s.0)) [
          | inl bad ↦ elim (o.compare x r s.0 bad) [
            | inl p ↦ absurd (cc (p, above))
            | inr p ↦ absurd (cc (p, s.2))
          ]
          | inr good ↦ good
        ] in
        (
          s.0,
          rw above s.1,
          s.2,
          (over, s.3),
          (Perm.mem_iff (Perm.swap r x xs)).0 (mem-cons_of_mem x s.4),
        )
  ]

  chosen :
      (xs : List T)
      → (m : Option T) × (folded (smaller less) none xs ≡ m) × IsLeast less m xs × IsOneOf m xs
  chosen [] = (none, refl, tt, refl)
  chosen (x ∷ xs) = let s = smallest x xs in (some s.0, s.1, (s.2, s.3), s.4)

module _ {ℓ} {T : Type ℓ} where
  abbrev pub both : Option T → Option T → Option (T × T)
  both (some l) (some m) = some (l, m)
  both (some l) none = none
  both none m = none

  folded-widen :
      (less : T → T → Bool) (l m : T) (xs : List T)
      → folded (widen less) (some (l, m)) xs
        ≡ both (folded (smaller less) (some l) xs) (folded (smaller (λ a b. less b a)) (some m) xs)
  folded-widen less l m [] = refl
  folded-widen less l m (x ∷ xs) = elim (Bool-cases (less x l)) [
    | inl a ↦ elim (Bool-cases (less m x)) [
      | inl b ↦ rw (a, b) (folded-widen less x x xs)
      | inr b ↦ rw (a, b) (folded-widen less x m xs)
    ]
    | inr a ↦ elim (Bool-cases (less m x)) [
      | inl b ↦ rw (a, b) (folded-widen less l x xs)
      | inr b ↦ rw (a, b) (folded-widen less l m xs)
    ]
  ]

  folded-both :
      (less : T → T → Bool) (xs : List T)
      → folded (widen less) none xs
        ≡ both (folded (smaller less) none xs) (folded (smaller (λ a b. less b a)) none xs)
  folded-both less [] = refl
  folded-both less (x ∷ xs) = folded-widen less x x xs

  -- When the comparison is a strict weak order, Min and Max choose one of the items that were delivered,
  -- or none of no items, such that no item is less, or greater; and MinMax, in one pass, chooses these two.
  -- If the run fails, all three return its error.
  pub extremes_chosen :
      (wrap : Error → Error) (up : Upstream T) (less : T → T → Bool)
      → IsStrictWeakOrder less
      → (l : Option T) × (m : Option T) × (min_item wrap up less ≡ settled l up.failure)
        × (max_item wrap up less ≡ settled m up.failure)
        × (min_max wrap up less ≡ settled (both l m) up.failure)
        × (IsLeast less l up.delivered × IsOneOf l up.delivered)
        × (IsLeast (λ a b. less b a) m up.delivered × IsOneOf m up.delivered)
  unfolding min_item max_item min_max
  extremes_chosen wrap up less o =
      let xs = up.delivered in
      let least = chosen less o xs in
      let most = chosen (λ a b. less b a) (flip-IsStrictWeakOrder o) xs in
      (
        least.0,
        most.0,
        ap (or_error (λ x. x)) (for_each-folded wrap (smaller less) none xs up.failure)
            ∙ ap (λ a. settled a up.failure) least.1,
        ap (or_error (λ x. x)) (for_each-folded wrap (smaller (λ a b. less b a)) none xs up.failure)
            ∙ ap (λ a. settled a up.failure) most.1,
        ap (or_error (λ x. x)) (for_each-folded wrap (widen less) none xs up.failure)
            ∙ ap (λ a. settled a up.failure) (folded-both less xs)
            ∙ ap₂ (λ a b. settled (both a b) up.failure) least.1 most.1,
        (least.2, least.3),
        (most.2, most.3),
      )
