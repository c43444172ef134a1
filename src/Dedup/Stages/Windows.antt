-- ===== src/Dedup/Stages/Windows.antt =====
-- What the deduplicating stages let through.
use go_kitsune.Prelude.{
  ℕ, suc, ◌+◌, ◌-◌, ◌≡◌, refl, sym, ap, ◌∙◌, true, false, List, [], ◌∷◌, ◌++◌, length,
  length-append, drop, drop-append_le, le→leb, ◌<◌, drop_nil, length-drop, drop-drop, drop_zero_of,
  dec_le, leb, inl, inr, Bool-cases, Option, none, some, if◌then◌else◌, arith,
}
use go_kitsune.Keys.{member, Eq, ◌==◌}
use go_kitsune.Stage.{
  Event, item, closed, signal, signal_closed, ctx_done, drain, items, Room, returned, run, ideal,
  cut, after,
}
use go_kitsune.Stage.Cut.{run_of_ideal, run-cut}
use go_kitsune.Dedup.Stages.{slide, distinct_by_loop, consecutive_loop, window_loop}

module _ {κ} {K : Type κ} where
  -- The last n of the keys.
  abbrev pub recent : ℕ → List K → List K
  recent n keys = drop (length keys - n) keys

  slide-recent :
      (n : ℕ) (passed : List K) (k : K)
      → 0 < n
      → slide n (recent n passed) k ≡ recent n (passed ++ k ∷ [])
  slide-recent n passed k h = elim (dec_le n (length passed)) [
    | yes full ↦
        let e : length (recent n passed) ≡ n =
          length-drop (length passed - n) passed ∙ omega arith in
        rw
          (
            e,
            le→leb n n (omega arith),
            drop-drop 1 (length passed - n) (suc (length passed - n)) passed (omega arith),
            length-append passed (k ∷ []),
          )
          (let f : length passed + 1 - n ≡ suc (length passed - n) = omega arith in
            rw (f, drop-append_le (suc (length passed - n)) passed (k ∷ []) (omega arith)) refl)
    | no short ↦
        let e : recent n passed ≡ passed = drop_zero_of (length passed - n) passed (omega arith) in
        let f : leb n (length passed) ≡ false = ground arith in
        rw (e, f)
          (sym (
            drop_zero_of (length (passed ++ k ∷ []) - n) (passed ++ k ∷ [])
              (rw (length-append passed (k ∷ [])) (omega arith))))
  ]

module _ {ℓ κ} {T : Type ℓ} {K : Type κ} ⦃e : Eq K⦄ (key_of : T → K) where
  -- The items whose key no item before them has, `earlier` being the keys before the list.
  abbrev pub firsts : List K → List T → List T
  firsts earlier [] = []
  firsts earlier (x ∷ xs) =
      if member (key_of x) earlier
      then firsts (key_of x ∷ earlier) xs
      else x ∷ firsts (key_of x ∷ earlier) xs

  -- Two lists with the same members.
  abbrev Same : List K → List K → Type κ
  Same js ks = (k : K) → member k js ≡ member k ks

  Same-cons : (js ks : List K) (k : K) → Same js ks → Same (k ∷ js) (k ∷ ks)
  Same-cons js ks k h i = ground (arith, h i)

  Same-again : (js ks : List K) (k : K) → Same js ks → member k js ≡ true → Same js (k ∷ ks)
  Same-again js ks k h m i = ground (arith, h i, m, e.beq_iff k i)

  ideal-distinct :
      (seen earlier : List K) (xs : List T) (es : List (Event T))
      → Same seen earlier
      → ideal (distinct_by_loop key_of) seen (items xs ++ closed ∷ es)
        ≡ record { out = firsts earlier xs; ending = returned }
  unfolding ideal distinct_by_loop
  ideal-distinct seen earlier [] es h = refl
  ideal-distinct seen earlier (x ∷ xs) es h = elim (Bool-cases (member (key_of x) seen)) [
    | inl dup ↦
        rw (dup, ← h (key_of x), dup)
          (ideal-distinct seen (key_of x ∷ earlier) xs es
            (Same-again seen earlier (key_of x) h dup))
    | inr new ↦
        rw (new, ← h (key_of x), new)
          (ap (after (x ∷ [])) (
            ideal-distinct (key_of x ∷ seen) (key_of x ∷ earlier) xs es
              (Same-cons seen earlier (key_of x) h)))
  ]

  -- DistinctBy, and DedupeBy without options, deliver the items whose key no item before them has, in
  -- order, up to where the sends are interrupted.
  pub run-distinct_by_loop :
      (r : Room) (xs : List T) (es : List (Event T))
      → run (distinct_by_loop key_of) r [] (items xs ++ closed ∷ es)
        ≡ cut (distinct_by_loop key_of) r (record { out = firsts [] xs; ending = returned })
  run-distinct_by_loop r xs es =
      run_of_ideal (distinct_by_loop key_of) r [] _ (ideal-distinct [] [] xs es (λ k. refl))

  -- The window of one key is the last key.
  abbrev as_window : Option K → List K
  as_window none = []
  as_window (some k) = k ∷ []

  ideal-consecutive :
      (last : Option K) (es : List (Event T))
      → ideal (consecutive_loop key_of) last es ≡ ideal (window_loop 1 key_of) (as_window last) es
  unfolding ideal consecutive_loop window_loop
  ideal-consecutive last [] = refl
  ideal-consecutive last (closed ∷ es) = refl
  ideal-consecutive last (ctx_done ∷ es) = refl
  ideal-consecutive last (drain ∷ es) = refl
  ideal-consecutive last (signal ∷ es) = ap (after []) (ideal-consecutive last es)
  ideal-consecutive last (signal_closed ∷ es) = ap (after []) (ideal-consecutive last es)
  ideal-consecutive none (item x ∷ es) =
      ap (after (x ∷ [])) (ideal-consecutive (some (key_of x)) es)
  ideal-consecutive (some k) (item x ∷ es) = elim (Bool-cases (k == key_of x)) [
    | inl same ↦ rw (same) (ap (after []) (ideal-consecutive (some k) es))
    | inr other ↦ rw (other) (ap (after (x ∷ [])) (ideal-consecutive (some (key_of x)) es))
  ]

  -- The stage that DedupeBy has for a window of 1 behaves as the general one would with n = 1: on every
  -- sequence of events and with its sends interrupted anywhere, both deliver the same and end alike.
  pub run-consecutive_loop :
      (r : Room) (es : List (Event T))
      → run (consecutive_loop key_of) r none es ≡ run (window_loop 1 key_of) r [] es
  unfolding cut consecutive_loop window_loop
  run-consecutive_loop r es =
      rw
        (
          run-cut (consecutive_loop key_of) r none es,
          run-cut (window_loop 1 key_of) r [] es,
          ideal-consecutive none es,
        )
        refl

  -- The items whose key is not among the last n keys that were let through before them.
  abbrev pub spaced : ℕ → List K → List T → List T
  spaced n passed [] = []
  spaced n passed (x ∷ xs) =
      if member (key_of x) (recent n passed)
      then spaced n passed xs
      else x ∷ spaced n (passed ++ key_of x ∷ []) xs

  ideal-window :
      (n : ℕ) (passed : List K) (xs : List T) (es : List (Event T))
      → 0 < n
      → ideal (window_loop n key_of) (recent n passed) (items xs ++ closed ∷ es)
        ≡ record { out = spaced n passed xs; ending = returned }
  unfolding ideal window_loop
  ideal-window n passed [] es h = refl
  ideal-window n passed (x ∷ xs) es h = elim (Bool-cases (member (key_of x) (recent n passed))) [
    | inl dup ↦ rw (dup) (ap (after []) (ideal-window n passed xs es h))
    | inr new ↦
        rw (new, slide-recent n passed (key_of x) h)
          (ap (after (x ∷ [])) (ideal-window n (passed ++ key_of x ∷ []) xs es h))
  ]

  -- DedupeBy with a window of n > 0 delivers the items whose key is not among the last n keys it let
  -- through, in order, up to where the sends are interrupted. A suppressed item does not move the
  -- window.
  pub run-window_loop :
      (n : ℕ) (r : Room) (xs : List T) (es : List (Event T))
      → 0 < n
      → run (window_loop n key_of) r [] (items xs ++ closed ∷ es)
        ≡ cut (window_loop n key_of) r (record { out = spaced n [] xs; ending = returned })
  run-window_loop n r xs es h =
      run_of_ideal (window_loop n key_of) r [] _
        (rw (drop_nil (0 - n)) at (ideal-window n [] xs es h))
