-- ===== src/Timed/Thinned.antt =====
-- Throttle keeps its items a window apart, and leaves out only items within a window.
use go_kitsune.Prelude.{
  ℕ, ◌+◌, ◌≤◌, ◌<◌, ◌≡◌, refl, sym, ap, subst, false, List, [], ◌∷◌, ◌++◌, take, zero, suc, Option,
  none, some, All, inl, inr, Bool-cases, ◌⊎◌, if◌then◌else◌, arith,
}
use go_kitsune.Stage.{Event, closed, items, Room, returned, run, ideal, after}
use go_kitsune.Stage.Cut.{out-run}
use go_kitsune.Timed.{throttle_loop, is_due}

All-weaken :
    {T : Type 0} (P Q : T → Type 0) → ((x : T) → P x → Q x) → (xs : List T) → All P xs → All Q xs
All-weaken P Q f [] h = tt
All-weaken P Q f (x ∷ xs) h = (f x h.0, All-weaken P Q f xs h.1)

module _ {T : Type 0} (window : ℕ) (at : T → ℕ) where
  -- The items that are sent when the last one was sent at `last`.
  abbrev pub thinned : Option ℕ → List T → List T
  thinned last [] = []
  thinned last (x ∷ xs) =
      if is_due window last (at x) then x ∷ thinned (some (at x)) xs else thinned last xs

  ideal-throttle_loop :
      (last : Option ℕ) (xs : List T) (es : List (Event T))
      → ideal (throttle_loop window at) last (items xs ++ closed ∷ es)
        ≡ record { out = thinned last xs; ending = returned }
  unfolding ideal throttle_loop
  ideal-throttle_loop last [] es = refl
  ideal-throttle_loop last (x ∷ xs) es = elim (Bool-cases (is_due window last (at x))) [
    | inl due ↦ rw due (ap (after (x ∷ [])) (ideal-throttle_loop (some (at x)) xs es))
    | inr early ↦ rw early (ap (after []) (ideal-throttle_loop last xs es))
  ]

  -- The outputs after one at `t` are a window apart.
  abbrev pub SpacedFrom : ℕ → List T → Type 0
  SpacedFrom t [] = Unit
  SpacedFrom t (y ∷ ys) = (t + window ≤ at y) × SpacedFrom (at y) ys

  abbrev pub Spaced : List T → Type 0
  Spaced [] = Unit
  Spaced (y ∷ ys) = SpacedFrom (at y) ys

  SpacedFrom-take : (t n : ℕ) (ys : List T) → SpacedFrom t ys → SpacedFrom t (take n ys)
  SpacedFrom-take t zero ys h = tt
  SpacedFrom-take t (suc n) [] h = tt
  SpacedFrom-take t (suc n) (y ∷ ys) h = (h.0, SpacedFrom-take (at y) n ys h.1)

  Spaced-take : (n : ℕ) (ys : List T) → Spaced ys → Spaced (take n ys)
  Spaced-take zero ys h = tt
  Spaced-take (suc n) [] h = tt
  Spaced-take (suc n) (y ∷ ys) h = SpacedFrom-take (at y) n ys h

  thinned-SpacedFrom : (t : ℕ) (xs : List T) → SpacedFrom t (thinned (some t) xs)
  thinned-SpacedFrom t [] = tt
  thinned-SpacedFrom t (x ∷ xs) = elim (Bool-cases (is_due window (some t) (at x))) [
    | inl due ↦ rw due (ground (arith, due), thinned-SpacedFrom (at x) xs)
    | inr early ↦ rw early (thinned-SpacedFrom t xs)
  ]

  thinned-Spaced : (xs : List T) → Spaced (thinned none xs)
  thinned-Spaced [] = tt
  thinned-Spaced (x ∷ xs) = thinned-SpacedFrom (at x) xs

  -- An item that is sent, or that comes less than a window after one that is sent.
  abbrev pub Covered : List T → T → Type 0
  Covered [] x = ⊥
  Covered (y ∷ ys) x = ((x ≡ y) ⊎ (at x < at y + window)) ⊎ Covered ys x

  -- What was sent before, at `last`, covers too.
  abbrev CoveredFrom : Option ℕ → List T → T → Type 0
  CoveredFrom none ys x = Covered ys x
  CoveredFrom (some t) ys x = (at x < t + window) ⊎ Covered ys x

  CoveredFrom-some :
      (last : Option ℕ) (x : T) (ys : List T) (z : T)
      → CoveredFrom (some (at x)) ys z
      → CoveredFrom last (x ∷ ys) z
  CoveredFrom-some none x ys z (inl near) = inl (inr near)
  CoveredFrom-some none x ys z (inr later) = inr later
  CoveredFrom-some (some t) x ys z (inl near) = inr (inl (inr near))
  CoveredFrom-some (some t) x ys z (inr later) = inr (inr later)

  CoveredFrom-self : (last : Option ℕ) (x : T) (ys : List T) → CoveredFrom last (x ∷ ys) x
  CoveredFrom-self none x ys = inl (inl refl)
  CoveredFrom-self (some t) x ys = inr (inl (inl refl))

  CoveredFrom-early :
      (last : Option ℕ) (x : T) (ys : List T)
      → is_due window last (at x) ≡ false
      → CoveredFrom last ys x
  CoveredFrom-early none x ys early = absurd (cc early)
  CoveredFrom-early (some t) x ys early = inl (ground (arith, early))

  thinned-CoveredFrom :
      (last : Option ℕ) (xs : List T) → All (CoveredFrom last (thinned last xs)) xs
  thinned-CoveredFrom last [] = tt
  thinned-CoveredFrom last (x ∷ xs) = elim (Bool-cases (is_due window last (at x))) [
    | inl due ↦
        let sent : thinned last (x ∷ xs) ≡ x ∷ thinned (some (at x)) xs = rw due refl in
        subst (λ ys. All (CoveredFrom last ys) (x ∷ xs)) (sym sent)
          (
            CoveredFrom-self last x _,
            All-weaken _ _ (CoveredFrom-some last x (thinned (some (at x)) xs)) xs
                (thinned-CoveredFrom (some (at x)) xs),
          )
    | inr early ↦
        let left_out : thinned last (x ∷ xs) ≡ thinned last xs = rw early refl in
        subst (λ ys. All (CoveredFrom last ys) (x ∷ xs)) (sym left_out)
          (CoveredFrom-early last x _ early, thinned-CoveredFrom last xs)
  ]

  -- Throttle returns nil at the close of its input, and any two consecutive items that it sends are at
  -- least a window apart, wherever its sends are interrupted. When every send finds a reader, each item
  -- of the input is sent or comes less than a window after an item that is sent.
  pub run-throttle_loop :
      (r : Room) (xs : List T) (es : List (Event T))
      → Spaced (run (throttle_loop window at) r none (items xs ++ closed ∷ es)).out
        × ((ideal (throttle_loop window at) none (items xs ++ closed ∷ es)).ending ≡ returned)
        × All (Covered (ideal (throttle_loop window at) none (items xs ++ closed ∷ es)).out) xs
  run-throttle_loop r xs es =
      let same = ideal-throttle_loop none xs es in
      (
        subst Spaced (sym (out-run (throttle_loop window at) r none (items xs ++ closed ∷ es)))
            (Spaced-take r.sends _ (subst (λ t. Spaced t.out) (sym same) (thinned-Spaced xs))),
        ap (λ t. t.ending) same,
        subst (λ t. All (Covered t.out) xs) (sym same) (thinned-CoveredFrom none xs),
      )
