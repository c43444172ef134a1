-- ===== src/Batch/Sliding.antt =====
-- The windows of SlidingWindow are the slices of its input at the multiples of the step.
use go_kitsune.Prelude.{
  ℕ, zero, suc, ◌+◌, ◌-◌, ◌*◌, ◌≤◌, ◌<◌, ◌≡◌, sym, ◌∙◌, true, List, [], ◌∷◌, ◌++◌, Option, none,
  some, append_assoc, append-nil, length, take, drop, get_elem?, length-append, length-drop,
  take-append_self, drop-append_le, drop-drop, get_elem?-take, ltb, drop_zero_of, leb, ◌==◌, ==_iff,
  arith, Bool-cases, inl, inr, if◌then◌else◌, le→leb,
}
use go_kitsune.Stage.{Event, closed, items, Room, run, ideal}
use go_kitsune.Stage.Cut.{out-run}
use go_kitsune.Batch.{sliding_loop, window_ok}

module _ {ℓ} {T : Type ℓ} (size step : ℕ) where
  -- The window number i of a list, if all of it is there.
  abbrev pub window_at : List T → ℕ → Option (List T)
  window_at xs i =
      if leb (i * step + size) (length xs) then some (take size (drop (i * step) xs)) else none

  window_at_short : (xs : List T) (i : ℕ) → length xs < size → window_at xs i ≡ none
  window_at_short xs i h = ground arith

  window_at_zero : (ys zs : List T) → length ys ≡ size → window_at (ys ++ zs) 0 ≡ some ys
  window_at_zero ys zs e = rw (
    le→leb (0 * step + size) (length (ys ++ zs)) (omega (arith, length-append ys zs)),
    drop_zero_of (0 * step) (ys ++ zs) (omega arith),
    ← e,
    take-append_self ys zs,
  )

  -- The later windows are those of what a step leaves.
  window_at-suc :
      (xs : List T) (i : ℕ) → step ≤ length xs → window_at xs (suc i) ≡ window_at (drop step xs) i
  window_at-suc xs i h =
      let e : leb (suc i * step + size) (length xs) ≡ leb (i * step + size) (length xs - step) =
        ground arith in
      rw (e, length-drop step xs, drop-drop (i * step) step (suc i * step) xs (omega arith))

  -- A full buffer is the first window, and the rest starts a step further on.
  window_at-cons :
      (buf xs : List T) (rest : List (List T)) (i : ℕ)
      → step ≤ size
      → length buf ≡ size
      → ((j : ℕ) → get_elem? rest j ≡ window_at (drop step buf ++ xs) j)
      → get_elem? (buf ∷ rest) i ≡ window_at (buf ++ xs) i
  window_at-cons buf xs rest zero q e h = sym (window_at_zero buf xs e)
  window_at-cons buf xs rest (suc i) q e h =
      h i
      ∙ (rw (← drop-append_le step buf xs (omega arith))
          (sym (window_at-suc (buf ++ xs) i (omega (arith, length-append buf xs)))))

  ideal-sliding :
      (buf xs : List T) (es : List (Event T)) (i : ℕ)
      → 0 < step
      → step ≤ size
      → length buf < size
      → get_elem? (ideal (sliding_loop size step) buf (items xs ++ closed ∷ es)).out i
        ≡ window_at (buf ++ xs) i
  unfolding ideal sliding_loop
  ideal-sliding buf [] es i p q h = rw append-nil (sym (window_at_short buf i h))
  ideal-sliding buf (x ∷ xs) es i p q h = elim (Bool-cases (length (buf ++ x ∷ []) == size)) [
    | inl full ↦
        rw (full, ← append_assoc buf (x ∷ []) xs)
          (window_at-cons (buf ++ x ∷ []) xs _ i q ((==_iff _ _).0 full) (λ j.
            ideal-sliding (drop step (buf ++ x ∷ [])) xs es j p q (
              let e : length (buf ++ x ∷ []) ≡ size = (==_iff _ _).0 full in
              rw (length-drop step (buf ++ x ∷ [])) (omega arith))))
    | inr room ↦
        let short : length (buf ++ x ∷ []) < size = ground (arith, length-append buf (x ∷ [])) in
        rw (room, ideal-sliding (buf ++ x ∷ []) xs es i p q short, append_assoc)
  ]

  -- SlidingWindow with 0 < step ≤ size: the window number i that it delivers is the slice of `size`
  -- items from position i * step, for every such slice that lies in the input and every i below the
  -- number of its sends that find a reader, and there is no other window.
  pub run-sliding_loop :
      (r : Room) (xs : List T) (es : List (Event T)) (i : ℕ)
      → window_ok size step ≡ true
      → get_elem? (run (sliding_loop size step) r [] (items xs ++ closed ∷ es)).out i
        ≡ (if ltb i r.sends then window_at xs i else none)
  run-sliding_loop r xs es i ok = rw (
    out-run (sliding_loop size step) r [] (items xs ++ closed ∷ es),
    get_elem?-take,
    ideal-sliding [] xs es i (ground arith) (ground arith) (ground arith),
  )
