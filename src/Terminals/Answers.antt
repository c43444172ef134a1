-- ===== src/Terminals/Answers.antt =====
-- What the terminals answer on a run, failed or not.
use go_kitsune.Prelude.{
  ◌≡◌, refl, sym, ap, ◌∙◌, subst, ◌↔◌, Bool, true, false, inl, inr, Bool-cases, List, [], ◌∷◌,
  Option, none, some, if◌then◌else◌,
}
use go_kitsune.Errors.{canceled, ok}
use go_kitsune.Keys.{Eq, ◌==◌, beq_refl}
use go_kitsune.Terminals.{lockstep, sequence_equal}

-- What SequenceEqual reads of two pipelines that are not disturbed.
abbrev pub paired {ℓ} : {T : Type ℓ} → List T → List T → List (Option T × Option T)
paired [] [] = (none, none) ∷ []
paired [] (y ∷ ys) = (none, some y) ∷ []
paired (x ∷ xs) [] = (some x, none) ∷ []
paired (x ∷ xs) (y ∷ ys) = (some x, some y) ∷ paired xs ys

module _ {ℓ} {T : Type ℓ} where
  abbrev pub head? : List T → Option T
  head? [] = none
  head? (x ∷ xs) = some x

  abbrev pub matching : (T → Bool) → List T → List T
  matching pred [] = []
  matching pred (x ∷ xs) = if pred x then x ∷ matching pred xs else matching pred xs

  abbrev pub is_empty : List T → Bool
  is_empty [] = true
  is_empty (x ∷ xs) = false

  abbrev stopped {κ} : {S : Type κ} → (T → S) → S → Option T → S
  stopped found s none = s
  stopped found s (some x) = found x

module _ {ℓ} {T : Type ℓ} ⦃e : Eq T⦄ where
  paired-true : (a b : List T) → lockstep (paired a b) ≡ true → a ≡ b
  paired-true [] [] h = refl
  paired-true [] (y ∷ ys) h = absurd (cc h)
  paired-true (x ∷ xs) [] h = absurd (cc h)
  paired-true (x ∷ xs) (y ∷ ys) h = elim (Bool-cases (x == y)) [
    | inl same ↦
        let head : x ≡ y = (e.beq_iff x y).0 same in
        let opened : lockstep (paired (x ∷ xs) (y ∷ ys)) ≡ lockstep (paired xs ys) = rw same refl in
        let tail : xs ≡ ys = paired-true xs ys (sym opened ∙ h) in cc (head, tail)
    | inr differ ↦
        let opened : lockstep (paired (x ∷ xs) (y ∷ ys)) ≡ false = rw differ refl in
        absurd (cc (opened, h))
  ]

  paired_self : (a : List T) → lockstep (paired a a) ≡ true
  paired_self [] = refl
  paired_self (x ∷ xs) = rw (beq_refl x) (paired_self xs)

  -- SequenceEqual of two pipelines that run to their ends answers true exactly when they deliver the same
  -- items; a run that is cancelled before the first item counts as equal.
  pub sequence_equal_iff :
      (a b : List T)
      → ((sequence_equal (paired a b) none ≡ ok true) ↔ (a ≡ b))
        × (sequence_equal {T = T} [] (some canceled) ≡ ok true)
  unfolding sequence_equal
  sequence_equal_iff a b = (
    (
      λ h. paired-true a b (ok_injective h),
      λ h. ap ok (subst (λ c. lockstep (paired a c) ≡ true) h (paired_self a)),
    ),
    refl,
  )
    where
      ok_injective : {p q : Bool} → ok p ≡ ok q → p ≡ q
      ok_injective h = cc h
