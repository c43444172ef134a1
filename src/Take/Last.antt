-- ===== src/Take/Last.antt =====
-- The ring buffer of DropLast is a queue of the last n items.
use go_kitsune.Prelude.{
  ℕ, suc, ◌+◌, ◌-◌, ◌%◌, ◌≤◌, ◌<◌, ◌≡◌, refl, sym, ap, ◌∙◌, inl, inr, ◌⊎◌, List, [], ◌∷◌, ◌++◌,
  append-nil, append_assoc, length, take, set, replicate, length-append, length-replicate,
  get_or-append, set-append, arith,
}
use native.Mathlib.Nat.{mod-eq_of_lt}
use go_kitsune.Stage.{Event, closed, items, continue, Room, returned, run, ideal, cut}
use go_kitsune.Stage.Cut.{run_of_ideal}
use go_kitsune.Take.{Ring, new_ring, displace, drop_last_loop}

-- The ring holds the queue `q`, oldest first: in the slots from 0 while it fills, and wrapped
-- round `head` once it is full.
pub data Holds {ℓ} {T : Type ℓ} (n : ℕ) (s : Ring T) (q : List T) : Type ℓ where
  filling :
      (pad : List T)
      → s.buf ≡ q ++ pad
      → s.count ≡ length q
      → s.head ≡ 0
      → length q + length pad ≡ n
      → Holds n s q
  full :
      (a b : List T) (y : T)
      → s.buf ≡ a ++ y ∷ b
      → s.head ≡ length a
      → s.count ≡ n
      → length a + suc (length b) ≡ n
      → q ≡ y ∷ b ++ a
      → Holds n s q

mod_wrap : (h n : ℕ) → h + 1 ≡ n → (h + 1) % n ≡ 0
mod_wrap h n e = grind arith

mod_below : (h n : ℕ) → h + 1 < n → (h + 1) % n ≡ h + 1
mod_below h n l = mod-eq_of_lt l

module _ {ℓ} {T : Type ℓ} (z : T) (n : ℕ) where
  -- What an item does to the queue.
  abbrev Displaced : Ring T → List T → T → Type ℓ
  Displaced s q x =
      ((s' : Ring T) × (length q < n)
        × (displace z n s x ≡ continue [] s')
        × Holds n s' (q ++ x ∷ []))
      ⊎ ((s' : Ring T) × (y : T) × (rest : List T) × (length q ≡ n)
          × (q ≡ y ∷ rest)
          × (displace z n s x ≡ continue (y ∷ []) s')
          × Holds n s' (rest ++ x ∷ []))

  displace_full :
      (s : Ring T) (a b : List T) (y x : T)
      → s.buf ≡ a ++ y ∷ b
      → s.head ≡ length a
      → s.count ≡ n
      → length a + suc (length b) ≡ n
      → Displaced s (y ∷ b ++ a) x
  unfolding displace
  displace_full s a [] y x e h c m = inr (
    record s { buf = set s.buf s.head x; head = (s.head + 1) % n },
    y,
    a,
    omega arith,
    refl,
    ground (arith, get_or-append a y [] z),
    filling [] (rw (e, h, set-append a y [] x) (sym (append-nil _)))
        (omega (arith, length-append a (x ∷ []))) (mod_wrap s.head n (omega arith))
        (omega (arith, length-append a (x ∷ []))),
  )
  displace_full s a (y' ∷ b) y x e h c m = inr (
    record s { buf = set s.buf s.head x; head = (s.head + 1) % n },
    y,
    y' ∷ b ++ a,
    omega (arith, length-append b a),
    refl,
    ground (arith, get_or-append a y (y' ∷ b) z),
    full (a ++ x ∷ []) b y' (rw (e, h, set-append a y (y' ∷ b) x, append_assoc))
        (rw (mod_below s.head n (omega arith)) (omega (arith, length-append a (x ∷ [])))) c
        (omega (arith, length-append a (x ∷ []))) (rw append_assoc),
  )

  displace-Holds : (s : Ring T) (q : List T) (x : T) → 0 < n → Holds n s q → Displaced s q x
  unfolding displace
  displace-Holds s [] x pos (filling [] e c h m) = absurd (omega arith)
  displace-Holds s (y ∷ q) x pos (filling [] e c h m) =
      rw (← append-nil q)
        (displace_full s [] q y x (rw (append-nil q) at e) h (omega arith) (omega arith))
  displace-Holds s q x pos (filling (p ∷ pad) e c h m) = inl (
    record s { buf = set s.buf s.count x; count = s.count + 1 },
    omega arith,
    ground arith,
    filling pad (rw (e, c, set-append q p pad x, append_assoc))
        (omega (arith, length-append q (x ∷ []))) h (omega (arith, length-append q (x ∷ []))),
  )
  displace-Holds s q x pos (full a b y e h c m r) = rw r (displace_full s a b y x e h c m)

  length-Holds : (s : Ring T) (q : List T) → Holds n s q → length q ≤ n
  length-Holds s q (filling pad e c h m) = omega arith
  length-Holds s q (full a b y e h c m r) = rw r (omega (arith, length-append b a))

  ideal-drop_last :
      (s : Ring T) (q xs : List T) (es : List (Event T))
      → 0 < n
      → Holds n s q
      → ideal (drop_last_loop z n) s (items xs ++ closed ∷ es)
        ≡ record { out = take (length q + length xs - n) (q ++ xs); ending = returned }
  unfolding ideal drop_last_loop
  ideal-drop_last s q [] es pos h =
      let e : length q + 0 - n ≡ 0 = omega (arith, length-Holds s q h) in rw e
  ideal-drop_last s q (x ∷ xs) es pos h = elim (displace-Holds s q x pos h) [
    | inl (s', _, acts, h') ↦
        rw
          (
            acts,
            ideal-drop_last s' (q ++ x ∷ []) xs es pos h',
            length-append q (x ∷ []),
            append_assoc q (x ∷ []) xs,
          )
          (let e : length q + 1 + length xs ≡ length q + suc (length xs) = omega arith in rw e)
    | inr (s', y, rest, l, eq, acts, h') ↦
        rw
          (
            acts,
            ideal-drop_last s' (rest ++ x ∷ []) xs es pos h',
            length-append rest (x ∷ []),
            append_assoc rest (x ∷ []) xs,
          )
          (let got : length rest + 1 + length xs - n ≡ length xs = omega (arith, ap length eq) in
            let want : length q + suc (length xs) - n ≡ suc (length xs) = omega arith in
            rw (got, want, eq))
  ]

  -- DropLast for 0 < n delivers all but the last n items, up to where its sends are interrupted:
  -- none when there are at most n. It returns nil.
  pub run-drop_last_loop :
      (r : Room) (xs : List T) (es : List (Event T))
      → 0 < n
      → run (drop_last_loop z n) r (new_ring z n) (items xs ++ closed ∷ es)
        ≡ cut (drop_last_loop z n) r (record { out = take (length xs - n) xs; ending = returned })
  unfolding new_ring
  run-drop_last_loop r xs es pos = run_of_ideal (drop_last_loop z n) r _ _ (
      ideal-drop_last _ [] xs es pos
        (filling (replicate n z) refl refl refl (omega (arith, length-replicate n z)))
      ∙ (let e : 0 + length xs - n ≡ length xs - n = omega arith in rw e))
