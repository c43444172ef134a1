-- ===== src/Collect/Sampled.antt =====
-- What TakeRandom samples.
use mathlib.Core.List.{Perm, perm_middle}
use mathlib.Core.List.Perm
use go_kitsune.Prelude.{
  ℕ, zero, suc, ◌+◌, ◌≤◌, ◌<◌, ◌≡◌, refl, sym, ap, ◌∙◌, subst, inl, inr, Bool-cases, List, [], ◌∷◌,
  ◌++◌, append_assoc, ◌==◌, ltb, ltb→lt, le→leb, min, length, length-append, length-set, set, arith,
}
use go_kitsune.Stage.{Event, closed, items, Room, returned, ideal, cut, after}
use go_kitsune.Stage.Cut.{run_of_ideal}
use go_kitsune.Collect.{Reservoir, draw_item, take_random_loop, take_random}

module _ {ℓ} {T : Type ℓ} where
  -- A write puts one item in the place of another.
  set-Perm :
      (r : List T) (j : ℕ) (x : T) → j < length r → (old : T) × Perm (old ∷ set r j x) (x ∷ r)
  set-Perm [] j x h = absurd (omega (arith, h))
  set-Perm (y ∷ r) zero x h = (y, Perm.swap x y r)
  set-Perm (y ∷ r) (suc j) x h =
      let rest = set-Perm r j x (omega (arith, h)) in
      (
        rest.0,
        Perm.trans (Perm.swap y rest.0 (set r j x))
            (Perm.trans (Perm.cons y rest.1) (Perm.swap x y r)),
      )

  -- An item goes into the rest when another takes its place.
  Perm-rest :
      (final rest r s xs : List T) (old x : T)
      → Perm (final ++ rest) (s ++ xs)
      → Perm (old ∷ s) (x ∷ r)
      → Perm (final ++ old ∷ rest) (r ++ x ∷ xs)
  Perm-rest final rest r s xs old x p q = Perm.trans (perm_middle final rest) (
      Perm.trans (Perm.cons old p)
        (Perm.trans (Perm.append_right xs q) (Perm.symm (perm_middle r xs))))

module _ {ℓ} {T : Type ℓ} (n : ℕ) (draw : ℕ → ℕ) where
  -- The reservoir after the items.
  abbrev pub drawn : Reservoir T → List T → Reservoir T
  drawn s [] = s
  drawn s (x ∷ xs) = drawn (draw_item n draw s x) xs

  ideal-take_random_loop :
      (s : Reservoir T) (xs : List T) (es : List (Event T))
      → ideal (take_random_loop n draw) s (items xs ++ closed ∷ es)
        ≡ record { out = (drawn s xs).reservoir ∷ []; ending = returned }
  unfolding ideal take_random_loop
  ideal-take_random_loop s [] es = refl
  ideal-take_random_loop s (x ∷ xs) es =
      ap (after []) (ideal-take_random_loop (draw_item n draw s x) xs es)

  -- What is in the reservoir, with what was turned away or replaced, is what came in.
  abbrev Samples : List T → List T → Type ℓ
  Samples final xs = (rest : List T) × Perm (final ++ rest) xs × (length final ≡ min n (length xs))

  drawn-Samples :
      (s : Reservoir T) (xs : List T)
      → length s.reservoir ≤ n
      → Samples (drawn s xs).reservoir (s.reservoir ++ xs)
  unfolding draw_item
  drawn-Samples s [] h = ([], Perm.rfl, omega (arith, h, length-append s.reservoir []))
  drawn-Samples s (x ∷ xs) h = elim (Bool-cases (ltb (length s.reservoir) n)) [
    | inl room ↦
        let ih =
          drawn-Samples (record { i = s.i + 1; reservoir = s.reservoir ++ x ∷ [] }) xs
            (omega (arith, length-append s.reservoir (x ∷ []), ltb→lt _ _ room)) in
        let e : draw_item n draw s x ≡ record { i = s.i + 1; reservoir = s.reservoir ++ x ∷ [] } =
          rw room refl in
        subst (λ (t : Reservoir T). Samples (drawn t xs).reservoir (s.reservoir ++ x ∷ xs))
          (sym (e))
          (
            ih.0,
            subst (Perm _) (append_assoc s.reservoir (x ∷ []) xs) ih.1,
            omega (
              arith,
              ih.2,
              length-append s.reservoir (x ∷ []),
              length-append (s.reservoir ++ x ∷ []) xs,
              length-append s.reservoir (x ∷ xs),
            ),
          )
    | inr full ↦
        let fits : length s.reservoir ≡ n = ground (arith, full, h) in
        elim (Bool-cases (ltb (draw (s.i + 1)) n)) [
          | inl hit ↦
              let j = draw (s.i + 1) in
              let put = set-Perm s.reservoir j x (omega (arith, fits, ltb→lt _ _ hit)) in
              let ih =
                drawn-Samples (record { i = s.i + 1; reservoir = set s.reservoir j x }) xs
                  (omega (arith, length-set s.reservoir j x, h)) in
              let e : draw_item n draw s x
                  ≡ record { i = s.i + 1; reservoir = set s.reservoir j x } =
                rw (full, hit) refl in
              subst (λ (t : Reservoir T). Samples (drawn t xs).reservoir (s.reservoir ++ x ∷ xs))
                (sym (e))
                (
                  put.0 ∷ ih.0,
                  Perm-rest _ ih.0 s.reservoir (set s.reservoir j x) xs put.0 x ih.1 put.1,
                  omega (
                    arith,
                    ih.2,
                    length-set s.reservoir j x,
                    fits,
                    length-append (set s.reservoir j x) xs,
                    length-append s.reservoir (x ∷ xs),
                  ),
                )
          | inr miss ↦
              let ih = drawn-Samples (record { i = s.i + 1; reservoir = s.reservoir }) xs h in
              let e : draw_item n draw s x ≡ record { i = s.i + 1; reservoir = s.reservoir } =
                rw (full, miss) refl in
              subst (λ (t : Reservoir T). Samples (drawn t xs).reservoir (s.reservoir ++ x ∷ xs))
                (sym (e))
                (
                  x ∷ ih.0,
                  Perm-rest _ ih.0 s.reservoir s.reservoir xs x x ih.1 Perm.rfl,
                  omega (
                    arith,
                    ih.2,
                    fits,
                    length-append s.reservoir xs,
                    length-append s.reservoir (x ∷ xs),
                  ),
                )
        ]
  ]

  -- When the send of its sample finds a reader, TakeRandom returns nil at the close of its input, and the
  -- sample has n items, or all of them when there are fewer: together with the items that are left out, it
  -- is a permutation of the input.
  pub run-take_random :
      (r : Room) (xs : List T) (es : List (Event T))
      → 1 ≤ r.sends
      → (sample : List T) × (left_out : List T) × (take_random n draw r (items xs ++ closed ∷ es)
          ≡ record { out = sample ∷ []; ending = returned })
        × Perm (sample ++ left_out) xs
        × (length sample ≡ min n (length xs))
  unfolding take_random cut
  run-take_random r xs es h = elim (Bool-cases (n == 0)) [
    | inl none_asked ↦ ([], xs, rw (none_asked, le→leb 1 r.sends h) refl, Perm.rfl, ground arith)
    | inr asked ↦
        let d = drawn-Samples (record { i = 0; reservoir = [] }) xs (omega arith) in
        (
          (drawn (record { i = 0; reservoir = [] }) xs).reservoir,
          d.0,
          rw asked (
              run_of_ideal (take_random_loop n draw) r (record { i = 0; reservoir = [] }) _
                (ideal-take_random_loop (record { i = 0; reservoir = [] }) xs es)
              ∙ (rw (le→leb 1 r.sends h) refl)),
          d.1,
          d.2,
        )
  ]
