-- ===== src/Keyed/Sweeping.antt =====
-- The sweep of the keyed references cannot be observed.
use go_kitsune.Prelude.{
  ℕ, ◌≤◌, ◌≡◌, refl, sym, ap, ◌∙◌, Bool, true, false, not, ◌&&◌, List, [], ◌∷◌, ◌++◌, Option, none,
  some, ltb, arith, ◌⊎◌, inl, inr, Bool-cases, subst,
}
use go_kitsune.Keys.{Eq, ◌==◌}
use go_kitsune.Errors.{
  canceled, deadline_exceeded, skipped, circuit_open, user, panicked, wrapped, stage_error, Result,
  ok, err,
}
use go_kitsune.Process.{Outcome}
use go_kitsune.Ref.{MemoryRef}
use go_kitsune.Stage.{Event, closed, items, Room, Loop, Trace, after, run, ideal, cut, perform_all}
use go_kitsune.Stage.Cut.{run-cut}
use go_kitsune.Transform.{per_item, return_nil}
use go_kitsune.Keyed.{
  KeyedEntry, KeyedRefMap, KeyedConfig, is_stale, kept_or_new, with_entry, put_ref, kept_entry,
  sweep, sweeps, opportunistic_sweep, cleared, get_ref, keyed_item, keyed_result, map_with_key_loop,
}

module _ {S : Type 0} (c : KeyedConfig S) where
  -- An entry of the unswept map that the swept one has or does without.
  abbrev pub Close : ℕ → Option (KeyedEntry S) → Option (KeyedEntry S) → Type 0
  Close now a b =
      (a ≡ b)
      ⊎ ((a ≡ none)
          × (ltb 0 c.key_ttl ≡ true)
          × (x : KeyedEntry S) × (b ≡ some x)
          × (is_stale c now x ≡ true))

  stale-later :
      (t now : ℕ) (x : KeyedEntry S) → t ≤ now → is_stale c t x ≡ true → is_stale c now x ≡ true
  stale-later t now x later h = ground (arith, later, h)

  Close-later : (t now : ℕ) (a b : Option (KeyedEntry S)) → t ≤ now → Close t a b → Close now a b
  Close-later t now a b later (inl same) = inl same
  Close-later t now a b later (inr (gone, on, x, h, stale)) =
      inr (gone, on, x, h, stale-later t now x later stale)

  Close-kept :
      (now : ℕ) (own : Bool) (a b : Option (KeyedEntry S))
      → ltb 0 c.key_ttl ≡ true
      → Close now a b
      → Close now (kept_entry c now own a) b
  Close-kept now own none b on h = h
  Close-kept now own (some x) b on (inl same) = elim (Bool-cases (not own && is_stale c now x)) [
    | inl y ↦ rw y (inr (refl, on, x, sym same, ground (arith, y)))
    | inr n ↦ rw n (inl same)
  ]
  Close-kept now own (some x) b on (inr (gone, rest, y, h, stale)) = absurd (cc gone)

  -- The Ref that is given out is the same.
  Close-kept_or_new :
      (now : ℕ) (a b : Option (KeyedEntry S))
      → Close now a b
      → kept_or_new c now a ≡ kept_or_new c now b
  Close-kept_or_new now a b (inl same) = ap (kept_or_new c now) same
  Close-kept_or_new now a b (inr (gone, on, x, h, stale)) = rw (gone, h, on, stale) refl

module _ {K S : Type 0} ⦃e : Eq K⦄ (c : KeyedConfig S) where
  -- getRef without its sweep.
  abbrev pub unswept_get_ref : ℕ → K → KeyedRefMap K S → KeyedRefMap K S × MemoryRef S
  unswept_get_ref now key m =
      let found = m.refs key in
      let r = kept_or_new c now found in
      (
        record m {
          refs =
              with_entry key (record { ref = r; last_access = now })
                (cleared c now key found m.refs);
        },
        r,
      )

  -- The swept map has the entries of the unswept one, but for some that are stale.
  abbrev pub Covers : ℕ → KeyedRefMap K S → KeyedRefMap K S → Type 0
  Covers now m p = (k : K) → Close c now (m.refs k) (p.refs k)

  sweep-Covers :
      (t now : ℕ) (key : K) (m p : KeyedRefMap K S)
      → t ≤ now
      → Covers t m p
      → Covers now (opportunistic_sweep c now key m) p
  unfolding opportunistic_sweep sweep
  sweep-Covers t now key m p later h k = elim (Bool-cases (sweeps c now m)) [
    | inl y ↦ rw y (
        Close-kept c now (k == key) (m.refs k) (p.refs k) (ground (arith, y))
          (Close-later c t now (m.refs k) (p.refs k) later (h k)))
    | inr n ↦ rw n (Close-later c t now (m.refs k) (p.refs k) later (h k))
  ]

  pub cleared_other :
      (now : ℕ) (key k : K) (o : Option (KeyedEntry S)) (m : K → Option (KeyedEntry S))
      → (k == key) ≡ false
      → cleared c now key o m k ≡ m k
  cleared_other now key k none m h = refl
  cleared_other now key k (some x) m h = ground (arith, h)

  -- The entry of the key is made anew in both maps; the others stay as they are.
  renewed-Covers :
      (now : ℕ) (key : K) (x y : KeyedEntry S) (o u : Option (KeyedEntry S))
      (m p : K → Option (KeyedEntry S)) (k : K)
      → x ≡ y
      → Close c now (m k) (p k)
      → Close c now
          (with_entry key x (cleared c now key o m) k)
          (with_entry key y (cleared c now key u p) k)
  renewed-Covers now key x y o u m p k same h = elim (Bool-cases (k == key)) [
    | inl own ↦ rw own (inl (ap some same))
    | inr other ↦ rw (other, cleared_other now key k o m other, cleared_other now key k u p other) h
  ]

  get_ref-unswept :
      (t now : ℕ) (key : K) (m p : KeyedRefMap K S)
      → t ≤ now
      → Covers t m p
      → Covers now (get_ref c now key m).0 (unswept_get_ref now key p).0
        × ((get_ref c now key m).1 ≡ (unswept_get_ref now key p).1)
  unfolding get_ref put_ref
  get_ref-unswept t now key m p later h =
      let swept = opportunistic_sweep c now key m in
      let covers = sweep-Covers t now key m p later h in
      let same = Close-kept_or_new c now (swept.refs key) (p.refs key) (covers key) in
      (
        λ k.
            renewed-Covers now key _ _ (swept.refs key) (p.refs key) swept.refs p.refs k
              (ap (λ r. record { ref = r; last_access = now }) same) (covers k),
        same,
      )

  put_ref-Covers :
      (now : ℕ) (key : K) (r : MemoryRef S) (m p : KeyedRefMap K S)
      → Covers now m p
      → Covers now (put_ref now key r m) (put_ref now key r p)
  unfolding put_ref
  put_ref-Covers now key r m p h k = elim (Bool-cases (k == key)) [
    | inl own ↦ rw own (inl refl)
    | inr other ↦ rw other (h k)
  ]

-- The times of the items do not go back.
abbrev pub Ascending : {I : Type 0} → ℕ → List (ℕ × I) → Type 0
Ascending t [] = Unit
Ascending t ((now, x) ∷ xs) = (t ≤ now) × Ascending now xs

module _ {K S I O : Type 0} ⦃e : Eq K⦄ (c : KeyedConfig S) (name : ℕ) (key_fn : I → K)
    (process : MemoryRef S → I → MemoryRef S × Outcome O) where
  -- mapWithKeySerial on a map that is never swept.
  unfoldable pub unswept_loop : Loop (KeyedRefMap K S) (ℕ × I) O
  unswept_loop =
      per_item
        (λ m it.
          keyed_item c name key_fn process (unswept_get_ref c it.0 (key_fn it.1) m) it.0 it.1)
        return_nil

  keyed_result-same :
      (now attempt : ℕ) (r : Result O) (m p : KeyedRefMap K S) (f g : KeyedRefMap K S → Trace O)
      → Covers c now m p
      → ((m p : KeyedRefMap K S) → Covers c now m p → f m ≡ g p)
      → perform_all (keyed_result c name key_fn process attempt r m) f
        ≡ perform_all (keyed_result c name key_fn process attempt r p) g
  keyed_result-same now attempt (ok v) m p f g h same = ap (after (v ∷ [])) (same m p h)
  keyed_result-same now attempt (err skipped) m p f g h same = ap (after []) (same m p h)
  keyed_result-same now attempt (err canceled) m p f g h same = refl
  keyed_result-same now attempt (err deadline_exceeded) m p f g h same = refl
  keyed_result-same now attempt (err circuit_open) m p f g h same = refl
  keyed_result-same now attempt (err (user x)) m p f g h same = refl
  keyed_result-same now attempt (err (panicked x)) m p f g h same = refl
  keyed_result-same now attempt (err (wrapped x)) m p f g h same = refl
  keyed_result-same now attempt (err (stage_error n a x)) m p f g h same = refl

  keyed_item-same :
      (now : ℕ) (x : I) (a b : KeyedRefMap K S × MemoryRef S) (f g : KeyedRefMap K S → Trace O)
      → a.1 ≡ b.1
      → Covers c now a.0 b.0
      → ((m p : KeyedRefMap K S) → Covers c now m p → f m ≡ g p)
      → perform_all (keyed_item c name key_fn process a now x) f
        ≡ perform_all (keyed_item c name key_fn process b now x) g
  keyed_item-same now x (m, r) (p, s) f g e h same =
      subst
        (λ s.
          perform_all (keyed_item c name key_fn process (m, r) now x) f
          ≡ perform_all (keyed_item c name key_fn process (p, s) now x) g)
        e
        (keyed_result-same now (process r x).1.attempt (process r x).1.result
          (put_ref now (key_fn x) (process r x).0 m) (put_ref now (key_fn x) (process r x).0 p) f g
          (put_ref-Covers c now (key_fn x) (process r x).0 m p h) same)

  pub ideal-unswept :
      (t : ℕ) (m p : KeyedRefMap K S) (xs : List (ℕ × I)) (es : List (Event (ℕ × I)))
      → Ascending t xs
      → Covers c t m p
      → ideal (map_with_key_loop c name key_fn process) m (items xs ++ closed ∷ es)
        ≡ ideal unswept_loop p (items xs ++ closed ∷ es)
  unfolding ideal map_with_key_loop unswept_loop
  ideal-unswept t m p [] es asc h = refl
  ideal-unswept t m p ((now, x) ∷ xs) es asc h =
      let (covers, same) = get_ref-unswept c t now (key_fn x) m p asc.0 h in
      keyed_item-same now x _ _ _ _ same covers (λ m2 p2 h2. ideal-unswept now m2 p2 xs es asc.1 h2)

  -- The sweep of MapWithKey cannot be observed: when the clock does not go back, the serial stage sends
  -- the same values and ends the same way as with a map that is never swept, from the same map,
  -- whatever its Refs, the time to live of its keys and that of its values, and however its sends end.
  pub run-map_with_key_loop :
      (r : Room) (t : ℕ) (m : KeyedRefMap K S) (xs : List (ℕ × I)) (es : List (Event (ℕ × I)))
      → Ascending t xs
      → run (map_with_key_loop c name key_fn process) r m (items xs ++ closed ∷ es)
        ≡ run unswept_loop r m (items xs ++ closed ∷ es)
  unfolding cut map_with_key_loop unswept_loop
  run-map_with_key_loop r t m xs es asc =
      run-cut (map_with_key_loop c name key_fn process) r m (items xs ++ closed ∷ es)
      ∙ ap (cut unswept_loop r) (ideal-unswept t m m xs es asc (λ k. inl refl))
      ∙ sym (run-cut unswept_loop r m (items xs ++ closed ∷ es))
