-- ===== src/Cache/Bounded.antt =====
-- The cache never holds more than its maximum, and holds what was last set.
use go_kitsune.Prelude.{
  ◌⊎◌, ℕ, suc, ◌+◌, ◌≤◌, ◌<◌, ◌≡◌, refl, ◌∙◌, Bool, true, false, ◌||◌, List, [], ◌∷◌, ◌++◌, some,
  is_some, length, leb, inl, inr, Bool-cases, arith, if◌then◌else◌,
}
use go_kitsune.Keys.{
  Eq, ◌==◌, member, lookup, insert, delete, lookup-insert, lookup-delete, beq_refl,
}
use go_kitsune.Cache.{
  CacheEntry, MemoryCache, Shelf, memory_cache, get, evict_oldest, set_entry, write, make_room,
}

module _ {K V : Type 0} ⦃e : Eq K⦄ where
  length-insert :
      (k : K) (x : V) (m : List (K × V))
      → length (insert k x m) ≡ (if is_some (lookup k m) then length m else suc (length m))
  unfolding insert
  length-insert k x [] = refl
  length-insert k x ((j, y) ∷ m) = ground (arith, length-insert k x m)

  length-delete_le : (k : K) (m : List (K × V)) → length (delete k m) ≤ length m
  unfolding delete
  length-delete_le k [] = omega arith
  length-delete_le k ((j, y) ∷ m) = ground (arith, length-delete_le k m)

  length-delete_lt :
      (k : K) (m : List (K × V)) → is_some (lookup k m) ≡ true → length (delete k m) < length m
  unfolding delete
  length-delete_lt k [] h = absurd (cc h)
  length-delete_lt k ((j, y) ∷ m) h = ground (arith, h, length-delete_le k m, length-delete_lt k m)

module _ {K : Type 0} ⦃e : Eq K⦄ where
  member-append : (k : K) (js : List K) (i : K) → member i (js ++ k ∷ []) ≡ (member i js || k == i)
  member-append k [] i = ground arith
  member-append k (j ∷ js) i = ground (arith, member-append k js i)

module _ {K V : Type 0} ⦃e : Eq K⦄ where
  -- Every key with an entry is in the insertion order.
  abbrev Listed : List K → List (K × CacheEntry V) → Type 0
  Listed ks m = (k : K) → is_some (lookup k m) ≡ true → member k ks ≡ true

  evict-Listed :
      (ks : List K) (m : List (K × CacheEntry V))
      → Listed ks m
      → Listed (evict_oldest ks m).order (evict_oldest ks m).entries
  unfolding evict_oldest
  evict-Listed [] m h = h
  evict-Listed (k ∷ ks) m h = elim (Bool-cases (is_some (lookup k m))) [
    | inl hit ↦ rw (hit) (λ j found. ground (arith, h j, lookup-delete k j m, found))
    | inr miss ↦
        rw (miss) (evict-Listed ks m (λ j found. ground (arith, h j, found, miss, e.beq_iff k j)))
  ]

  evict-shrinks :
      (ks : List K) (m : List (K × CacheEntry V))
      → Listed ks m
      → 0 < length m
      → length (evict_oldest ks m).entries < length m
  unfolding evict_oldest
  evict-shrinks ks [] h l = absurd (omega arith)
  evict-shrinks [] ((k, x) ∷ m) h l = ground (arith, h k, beq_refl k)
  evict-shrinks (k ∷ ks) ((j, x) ∷ m) h l = elim (Bool-cases (is_some (lookup k ((j, x) ∷ m)))) [
    | inl hit ↦ rw (hit) (length-delete_lt k ((j, x) ∷ m) hit)
    | inr miss ↦ rw (miss) (
        evict-shrinks ks ((j, x) ∷ m) (λ i found. ground (arith, h i, found, miss, e.beq_iff k i))
          l)
  ]

  record Inv (c : MemoryCache K V) : Type 0 where
    pub listed : Listed c.order c.entries
    pub bounded : length c.entries ≤ c.max_size

  -- The shelf after make_room takes one more entry, unless the key has one.
  record Ready (max_size : ℕ) (known : Bool) (k : K) (s : Shelf K V) : Type 0 where
    listed : Listed s.order s.entries
    fits : length s.entries ≤ max_size
    room : known ≡ false → length s.entries < max_size
    held : known ≡ true → is_some (lookup k s.entries) ≡ true

  make_room-Ready :
      (max_size : ℕ) (k : K) (s : Shelf K V)
      → 0 < max_size
      → Listed s.order s.entries
      → length s.entries ≤ max_size
      → Ready max_size
          (is_some (lookup k s.entries))
          k
          (make_room max_size (is_some (lookup k s.entries)) s)
  make_room-Ready max_size k s pos h le = elim (Bool-cases (is_some (lookup k s.entries))) [
    | inl known ↦
        rw (known)
          (record { listed = h; fits = le; room = λ eq. absurd (cc eq); held = λ eq. known })
    | inr new ↦ elim (Bool-cases (leb max_size (length s.entries))) [
      | inl full ↦
          let shrinks = evict-shrinks s.order s.entries h (ground (arith, full)) in
          rw (new, full)
            (record {
              listed = evict-Listed s.order s.entries h;
              fits = omega (arith, shrinks, le);
              room = λ eq. omega (arith, shrinks, le);
              held = λ eq. absurd (cc eq);
            })
      | inr spare ↦
          rw (new, spare)
            (record {
              listed = h;
              fits = le;
              room = λ eq. ground (arith, spare);
              held = λ eq. absurd (cc eq);
            })
    ]
  ]

  write-Listed :
      (max_size : ℕ) (known : Bool) (s : Shelf K V) (k : K) (x : CacheEntry V)
      → Ready max_size known k s
      → Listed (write known s k x).order (write known s k x).entries
  write-Listed max_size true s k x r j found =
      ground (arith, r.listed j, r.held refl, found, lookup-insert k j x s.entries, e.beq_iff k j)
  write-Listed max_size false s k x r j found =
      ground (arith, r.listed j, found, lookup-insert k j x s.entries, member-append k s.order j)

  write-fits :
      (max_size : ℕ) (known : Bool) (s : Shelf K V) (k : K) (x : CacheEntry V)
      → Ready max_size known k s
      → length (write known s k x).entries ≤ max_size
  write-fits max_size true s k x r =
      ground (arith, r.held refl, r.fits, length-insert k x s.entries)
  write-fits max_size false s k x r = ground (arith, r.room refl, length-insert k x s.entries)

  set_entry-Inv :
      (c : MemoryCache K V) (now : ℕ) (k : K) (v : V) (ttl : ℕ)
      → 0 < c.max_size
      → Inv c
      → Inv (set_entry c now k v ttl)
  unfolding set_entry
  set_entry-Inv c now k v ttl pos h =
      let r =
        make_room-Ready c.max_size k (record { order = c.order; entries = c.entries }) pos h.listed
          h.bounded in
      record {
        listed = write-Listed c.max_size _ _ k _ r;
        bounded = write-fits c.max_size _ _ k _ r;
      }

  get-set_entry_lem :
      (c : MemoryCache K V) (now later ttl : ℕ) (k : K) (v : V)
      → (ttl ≡ 0) ⊎ (later ≤ now + ttl)
      → get (set_entry c now k v ttl) later k ≡ some v
  unfolding get set_entry
  get-set_entry_lem c now later ttl k v h = rw (lookup-insert, beq_refl k) (ground (arith, h))

-- One call of Set.
pub record Write (K V : Type 0) : Type 0 where
  pub now : ℕ
  pub key : K
  pub value : V
  pub ttl : ℕ

module _ {K V : Type 0} ⦃e : Eq K⦄ where
  -- The calls of Set, in order.
  abbrev pub set_all : MemoryCache K V → List (Write K V) → MemoryCache K V
  set_all c [] = c
  set_all c (w ∷ ws) = set_all (set_entry c w.now w.key w.value w.ttl) ws

  set_entry-max_size :
      (c : MemoryCache K V) (now : ℕ) (k : K) (v : V) (ttl : ℕ)
      → (set_entry c now k v ttl).max_size ≡ c.max_size
  unfolding set_entry
  set_entry-max_size c now k v ttl = refl

  set_all-Inv :
      (max_size : ℕ) (c : MemoryCache K V) (ws : List (Write K V))
      → 0 < max_size
      → c.max_size ≡ max_size
      → Inv c
      → Inv (set_all c ws) × ((set_all c ws).max_size ≡ max_size)
  set_all-Inv max_size c [] pos same h = (h, same)
  set_all-Inv max_size c (w ∷ ws) pos same h =
      set_all-Inv max_size (set_entry c w.now w.key w.value w.ttl) ws pos
        (set_entry-max_size c w.now w.key w.value w.ttl ∙ same)
        (set_entry-Inv c w.now w.key w.value w.ttl (omega arith) h)

  -- A cache of max_size > 0, after any calls of Set and one more: it holds at most max_size entries,
  -- and Get of the key set last gives its value, at any time if the ttl is 0 and up to the expiry
  -- otherwise.
  pub set_all-bounded :
      (max_size : ℕ) (ws : List (Write K V)) (now later ttl : ℕ) (k : K) (v : V)
      → 0 < max_size
      → (ttl ≡ 0) ⊎ (later ≤ now + ttl)
      → let c = set_entry (set_all (memory_cache max_size) ws) now k v ttl in
        (length c.entries ≤ max_size) × (get c later k ≡ some v)
  set_all-bounded max_size ws now later ttl k v pos h =
      let c = set_all (memory_cache max_size) ws in
      let (inv, same) =
        set_all-Inv max_size (memory_cache max_size) ws pos refl
          (record { listed = λ j found. absurd (cc found); bounded = omega arith }) in
      let after = set_entry-Inv c now k v ttl (omega arith) inv in
      (
        omega (arith, after.bounded, set_entry-max_size c now k v ttl),
        get-set_entry_lem c now later ttl k v h,
      )
