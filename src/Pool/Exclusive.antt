-- ===== src/Pool/Exclusive.antt =====
-- No object of the pool has two holders, and the release of a held object does not panic.
use go_kitsune.Prelude.{
  ℕ, zero, suc, ◌+◌, ◌≤◌, ◌<◌, ◌≡◌, refl, sym, ap, true, false, List, [], ◌∷◌, ◌++◌, Option, none,
  some, ◌==◌, ==_iff, if◌then◌else◌, arith, get_elem?, Bool-cases, inl, inr, subst, All,
}
use go_kitsune.Errors.{Result, ok, err}
use go_kitsune.Pool.{
  Pool, Pooled, assign, store_released, put, release, must_value, get, get_from, get_all, put_all,
  warmup, filled, failed_slot, map_pooled,
}
use go_kitsune.Pool.Programs.{
  count, remove_at, Op, get_one, release_held, warm_up, map_one, Holding, and_hold, released_from,
  mapped_to, perform, perform_all, new_pool,
}

count-append : (i : ℕ) (xs ys : List ℕ) → count i (xs ++ ys) ≡ count i xs + count i ys
count-append i [] ys = omega arith
count-append i (j ∷ xs) ys = ground (arith, count-append i xs ys)

count-remove_at :
    (j k i : ℕ) (xs : List ℕ)
    → get_elem? xs k ≡ some i
    → count j xs ≡ count j (remove_at k xs) + (if j == i then 1 else 0)
count-remove_at j zero i [] h = absurd (cc h)
count-remove_at j (suc k) i [] h = absurd (cc h)
count-remove_at j zero i (x ∷ xs) h = ground (arith, h)
count-remove_at j (suc k) i (x ∷ xs) h = ground (arith, count-remove_at j k i xs h)

module _ {T : Type 0} (new_fn : ℕ → T) where
  -- Every object is held once, or on the stack once, or neither; only made ones are; held ones are not
  -- released.
  pub record Apart (held : List ℕ) (p : Pool T) : Type 0 where
    pub once : (i : ℕ) → count i held + count i p.stack ≤ 1
    pub below : (i : ℕ) → p.made ≤ i → count i held + count i p.stack ≡ 0
    pub unreleased : (i : ℕ) → 0 < count i held → (p.objects i).released ≡ false

  Apart-counts :
      (xs ys : List ℕ) (p : Pool T) → ((i : ℕ) → count i xs ≡ count i ys) → Apart xs p → Apart ys p
  Apart-counts xs ys p same h = record {
    once = λ i. omega (arith, same i, h.once i);
    below = λ i le. omega (arith, same i, h.below i le);
    unreleased = λ i held. h.unreleased i (omega (arith, same i));
  }

  get_from-Apart :
      (stack held : List ℕ) (p : Pool T)
      → stack ≡ p.stack
      → Apart held p
      → Apart ((get_from new_fn stack p).1 ∷ held) (get_from new_fn stack p).0
  get_from-Apart (i ∷ rest) held p e h = record {
    once = λ j. ground (arith, h.once j, ap (count j) e);
    below = λ j le. ground (arith, h.below j le, ap (count j) e);
    unreleased = λ j at. ground (arith, h.unreleased j, at);
  }
  get_from-Apart [] held p e h = record {
    once = λ j. ground (arith, h.once j, h.below j, ap (count j) e);
    below = λ j le. ground (arith, h.below j, ap (count j) e);
    unreleased = λ j at. ground (arith, h.unreleased j, at);
  }

  get-Apart :
      (held : List ℕ) (p : Pool T) → Apart held p → Apart ((get new_fn p).1 ∷ held) (get new_fn p).0
  unfolding get
  get-Apart held p h = get_from-Apart p.stack held p refl h

  count-swap : (i k : ℕ) (is held : List ℕ) → count i (is ++ k ∷ held) ≡ count i ((k ∷ is) ++ held)
  count-swap i k is held = ground (arith, count-append i is (k ∷ held), count-append i is held)

  get_all-Apart :
      (n : ℕ) (held : List ℕ) (p : Pool T)
      → Apart held p
      → Apart ((get_all new_fn n p).1 ++ held) (get_all new_fn n p).0
  unfolding get_all
  get_all-Apart zero held p h = h
  get_all-Apart (suc n) held p h =
      let (q, k) = get new_fn p in
      let (r, is) = get_all new_fn n q in
      Apart-counts (is ++ k ∷ held) ((k ∷ is) ++ held) r (λ i. count-swap i k is held)
        (get_all-Apart n (k ∷ held) q (get-Apart held p h))

  put-Apart : (i : ℕ) (held : List ℕ) (p : Pool T) → Apart (i ∷ held) p → Apart held (put i p)
  put-Apart i held p h = record {
    once = λ j. ground (arith, h.once j);
    below = λ j le. ground (arith, h.below j le);
    unreleased = λ j at. ground (arith, h.unreleased j, at);
  }

  put_all-Apart :
      (is held : List ℕ) (p : Pool T) → Apart (is ++ held) p → Apart held (put_all new_fn is p)
  put_all-Apart [] held p h = h
  put_all-Apart (i ∷ is) held p h = put_all-Apart is held (put i p) (put-Apart i (is ++ held) p h)

  warmup-Apart :
      (n : ℕ) (held : List ℕ) (p : Pool T) → Apart held p → Apart held (warmup new_fn n p)
  unfolding warmup
  warmup-Apart n held p h =
      put_all-Apart (get_all new_fn n p).1 held (get_all new_fn n p).0 (get_all-Apart n held p h)

  -- The release of an object that is held once.
  release-Apart :
      (i : ℕ) (rest held : List ℕ) (p : Pool T)
      → ((j : ℕ) → count j held ≡ count j rest + (if j == i then 1 else 0))
      → Apart held p
      → (q : Pool T) × (release i p ≡ some q) × Apart rest q
  unfolding release
  release-Apart i rest held p counts h = (
    put i (record p { objects = store_released i true p.objects }),
    rw (h.unreleased i (ground (arith, counts i))) refl,
    record {
      once = λ j. ground (arith, h.once j, counts j);
      below = λ j le. ground (arith, h.below j le, counts j);
      unreleased = λ j at. ground (arith, h.unreleased j, h.once j, counts j, at);
    },
  )

  -- A slot that is written keeps its flag.
  assign-Apart :
      (i : ℕ) (v : T) (held : List ℕ) (p : Pool T)
      → Apart held p
      → Apart held (record p { objects = assign i (record (p.objects i) { value = v }) p.objects })
  assign-Apart i v held p h = record {
    once = h.once;
    below = h.below;
    unreleased = λ j at. elim (Bool-cases (j == i)) [
      | inl y ↦ rw y (h.unreleased i (subst (λ k. 0 < count k held) ((==_iff j i).0 y) at))
      | inr n ↦ rw n (h.unreleased j at)
    ];
  }

  abbrev pub Safe : Option (Holding T) → Type 0
  Safe none = ⊥
  Safe (some s) = Apart s.held s.pool

  filled-Safe :
      (r : Result T) (i : ℕ) (s : Holding T) (p : Pool T)
      → Apart (i ∷ s.held) p
      → Safe (mapped_to new_fn (filled new_fn r (p, i)) s)
  unfolding filled
  filled-Safe (ok v) i s p h = assign-Apart i v (i ∷ s.held) p h
  filled-Safe (err x) i s p h =
      let (q, eq, apart) = release-Apart i s.held (i ∷ s.held) p (λ j. ground arith) h in
      subst (λ o. Safe (mapped_to new_fn (failed_slot new_fn o x) s)) (sym eq) apart

  released_from-Safe :
      (o : Option ℕ) (k : ℕ) (s : Holding T)
      → get_elem? s.held k ≡ o
      → Apart s.held s.pool
      → Safe (released_from new_fn o k s)
  unfolding released_from
  released_from-Safe none k s e h = h
  released_from-Safe (some i) k s e h =
      let (q, eq, apart) =
        release-Apart i (remove_at k s.held) s.held s.pool (λ j. count-remove_at j k i s.held e)
          h in
      subst (λ o. Safe (and_hold new_fn o (remove_at k s.held))) (sym eq) apart

  perform-Safe : (op : Op T) (s : Holding T) → Apart s.held s.pool → Safe (perform new_fn op s)
  unfolding perform map_pooled
  perform-Safe get_one s h = get-Apart s.held s.pool h
  perform-Safe (release_held k) s h = released_from-Safe (get_elem? s.held k) k s refl h
  perform-Safe (warm_up n) s h = warmup-Apart n s.held s.pool h
  perform-Safe (map_one r) s h =
      filled-Safe r (get new_fn s.pool).1 s (get new_fn s.pool).0 (get-Apart s.held s.pool h)

  perform_rest-Safe :
      (ops : List (Op T)) (o : Option (Holding T))
      → Safe o
      → ((s : Holding T) → Apart s.held s.pool → Safe (perform_all new_fn ops s))
      → Safe (elim o [ none ↦ none | some t ↦ perform_all new_fn ops t ])
  perform_rest-Safe ops none h next = absurd h
  perform_rest-Safe ops (some s) h next = next s h

  perform_all-Safe :
      (ops : List (Op T)) (s : Holding T) → Apart s.held s.pool → Safe (perform_all new_fn ops s)
  unfolding perform_all
  perform_all-Safe [] s h = h
  perform_all-Safe (op ∷ ops) s h =
      perform_rest-Safe ops (perform new_fn op s) (perform-Safe op s h)
        (λ t g. perform_all-Safe ops t g)

  -- MustValue reads every held object.
  abbrev pub Readable : Holding T → Type 0
  Readable s = All (λ i. must_value i s.pool ≡ some (s.pool.objects i).value) s.held

  readable :
      (held : List ℕ) (p : Pool T)
      → ((i : ℕ) → 0 < count i held → (p.objects i).released ≡ false)
      → All (λ i. must_value i p ≡ some (p.objects i).value) held
  unfolding must_value
  readable [] p h = tt
  readable (i ∷ held) p h =
      (rw (h i (ground arith)) refl, readable held p (λ j at. h j (ground (arith, at))))

  result_of :
      (o : Option (Holding T))
      → Safe o
      → (s : Holding T) × (o ≡ some s)
        × ((i : ℕ) → count i s.held + count i s.pool.stack ≤ 1)
        × Readable s
  result_of none h = absurd h
  result_of (some s) h = (s, refl, h.once, readable s.held s.pool h.unreleased)

  -- A program that releases only objects that it holds, with any mix of Get, Release, Warmup and
  -- MapPooled from a new pool, never panics: no object has two holders or is both held and free, and
  -- MustValue reads every held object.
  pub perform_all-exclusive :
      (objects : ℕ → Pooled T) (ops : List (Op T))
      → (s : Holding T) × (perform_all new_fn ops (new_pool new_fn objects) ≡ some s)
        × ((i : ℕ) → count i s.held + count i s.pool.stack ≤ 1)
        × Readable s
  perform_all-exclusive objects ops = result_of (perform_all new_fn ops (new_pool new_fn objects)) (
      perform_all-Safe ops (new_pool new_fn objects) (record {
        once = λ i. omega arith;
        below = λ i le. refl;
        unreleased = λ i at. absurd (omega arith);
      }))
