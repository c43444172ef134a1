-- ===== src/Dedup/Ttl/Evict.antt =====
-- What one eviction keeps: the entries that have not expired, and nothing else.
use go_kitsune.Prelude.{
  ℕ, suc, ◌+◌, ◌≤◌, ◌<◌, ◌≡◌, refl, sym, subst, ap, ◌∙◌, ◌⊎◌, inl, inr, ◌≢◌, List, [], ◌∷◌, ◌++◌,
  some, drop, drop-drop, length-drop, length, ltb, Bool-cases, if◌then◌else◌, arith,
}
use mathlib.Core.Path.{subst₂}
use go_kitsune.Keys.{Eq, lookup, lookup-delete, beq_refl}
use go_kitsune.Dedup.Ttl.{TtlDedupSet, Cursor, forget, evict_loop, evict, compact}

module _ {K : Type 0} where
  -- A queue whose expiries do not fall, from a bound on.
  abbrev pub Ascending : ℕ → List (K × ℕ) → Type 0
  Ascending lo [] = Unit
  Ascending lo ((k, at) ∷ q) = (lo ≤ at) × Ascending at q

  abbrev pub In : K → ℕ → List (K × ℕ) → Type 0
  In k at [] = ⊥
  In k at ((j, t) ∷ q) = ((j ≡ k) × (t ≡ at)) ⊎ In k at q

  -- No expiry of the queue is above a bound.
  abbrev pub Below : ℕ → List (K × ℕ) → Type 0
  Below hi [] = Unit
  Below hi ((k, at) ∷ q) = (at ≤ hi) × Below hi q

  pub Below-mono : (lo hi : ℕ) (q : List (K × ℕ)) → lo ≤ hi → Below lo q → Below hi q
  Below-mono lo hi [] h b = tt
  Below-mono lo hi ((k, at) ∷ q) h b = (omega arith, Below-mono lo hi q h b.1)

  pub Below-snoc :
      (hi at : ℕ) (k : K) (q : List (K × ℕ)) → at ≤ hi → Below hi q → Below hi (q ++ (k, at) ∷ [])
  Below-snoc hi at k [] h b = (h, tt)
  Below-snoc hi at k ((j, t) ∷ q) h b = (b.0, Below-snoc hi at k q h b.1)

  pub Ascending-snoc :
      (lo hi : ℕ) (k : K) (q : List (K × ℕ))
      → lo ≤ hi
      → Ascending lo q
      → Below hi q
      → Ascending lo (q ++ (k, hi) ∷ [])
  Ascending-snoc lo hi k [] h a b = (h, tt)
  Ascending-snoc lo hi k ((j, t) ∷ q) h a b = (a.0, Ascending-snoc t hi k q b.0 a.1 b.1)

  pub In-snoc_old : (k j : K) (at t : ℕ) (q : List (K × ℕ)) → In k at q → In k at (q ++ (j, t) ∷ [])
  In-snoc_old k j at t [] i = elim i [ ]
  In-snoc_old k j at t (p ∷ q) (inl h) = inl h
  In-snoc_old k j at t (p ∷ q) (inr i) = inr (In-snoc_old k j at t q i)

  pub In-snoc_new : (k : K) (at : ℕ) (q : List (K × ℕ)) → In k at (q ++ (k, at) ∷ [])
  In-snoc_new k at [] = inl (refl, refl)
  In-snoc_new k at (p ∷ q) = inr (In-snoc_new k at q)

  Ascending-mono : {lo hi : ℕ} (q : List (K × ℕ)) → lo ≤ hi → Ascending hi q → Ascending lo q
  Ascending-mono [] h a = tt
  Ascending-mono ((k, at) ∷ q) h a = (omega arith, a.1)

  pub In-Ascending :
      {lo : ℕ} (k : K) (at : ℕ) (q : List (K × ℕ)) → Ascending lo q → In k at q → lo ≤ at
  In-Ascending k at [] a i = elim i [ ]
  In-Ascending k at ((j, t) ∷ q) a (inl (_, e)) = omega arith
  In-Ascending k at ((j, t) ∷ q) a (inr i) = omega (arith, In-Ascending {lo = t} k at q a.1 i)

module _ {K : Type 0} ⦃e : Eq K⦄ where
  -- The part of the queue that the loop leaves.
  abbrev remaining : ℕ → List (K × ℕ) → List (K × ℕ)
  remaining now [] = []
  remaining now ((k, at) ∷ q) = if ltb now at then (k, at) ∷ q else remaining now q

  -- Every entry has its place in the queue.
  abbrev pub Queued : List (K × ℕ) → List (K × ℕ) → Type 0
  Queued m q = (k : K) (at : ℕ) → lookup k m ≡ some at → In k at q

  lookup-forget :
      (k : K) (at : ℕ) (m : List (K × ℕ)) (j : K) (t : ℕ)
      → lookup j (forget k at m) ≡ some t
      → lookup j m ≡ some t
  lookup-forget k at m j t h = ground (arith, lookup-delete k j m)

  lookup-forget_self : (k : K) (at : ℕ) (m : List (K × ℕ)) → lookup k (forget k at m) ≢ some at
  lookup-forget_self k at m h = ground (arith, lookup-delete k k m, beq_refl k)

  lookup-forget_later :
      (k : K) (at : ℕ) (m : List (K × ℕ)) (j : K) (t : ℕ)
      → lookup j m ≡ some t
      → at < t
      → lookup j (forget k at m) ≡ some t
  lookup-forget_later k at m j t h l = ground (arith, lookup-delete k j m, e.beq_iff k j)

  module _ (now : ℕ) where
    evict_loop_old :
        (q : List (K × ℕ)) (c : Cursor K) (j : K) (t : ℕ)
        → lookup j (evict_loop now q c).entries ≡ some t
        → lookup j c.entries ≡ some t
    unfolding evict_loop
    evict_loop_old [] c j t h = h
    evict_loop_old ((k, at) ∷ q) c j t h = ground (
      arith,
      evict_loop_old q (record { entries = forget k at c.entries; head = c.head + 1 }) j t,
      lookup-forget k at c.entries j t,
    )

    evict_loop_later :
        (q : List (K × ℕ)) (c : Cursor K) (j : K) (t : ℕ)
        → lookup j c.entries ≡ some t
        → now < t
        → lookup j (evict_loop now q c).entries ≡ some t
    unfolding evict_loop
    evict_loop_later [] c j t h l = h
    evict_loop_later ((k, at) ∷ q) c j t h l = ground (
      arith,
      evict_loop_later q (record { entries = forget k at c.entries; head = c.head + 1 }) j t,
      lookup-forget_later k at c.entries j t,
    )

    Queued-forget :
        (k : K) (at : ℕ) (m q : List (K × ℕ)) → Queued m ((k, at) ∷ q) → Queued (forget k at m) q
    Queued-forget k at m q h j t f = elim (h j t (lookup-forget k at m j t f)) [
      | inl (p, r) ↦ absurd (lookup-forget_self k at m (ground arith))
      | inr i ↦ i
    ]

    evict_loop-Queued :
        (q : List (K × ℕ)) (c : Cursor K)
        → Queued c.entries q
        → Queued (evict_loop now q c).entries (remaining now q)
    unfolding evict_loop
    evict_loop-Queued [] c h = h
    evict_loop-Queued ((k, at) ∷ q) c h = elim (Bool-cases (ltb now at)) [
      | inl keep ↦ rw keep h
      | inr gone ↦ rw gone (
          evict_loop-Queued q (record { entries = forget k at c.entries; head = c.head + 1 })
            (Queued-forget k at c.entries q h))
    ]

    remaining-Ascending :
        (lo : ℕ) (q : List (K × ℕ)) → Ascending lo q → Ascending (suc now) (remaining now q)
    remaining-Ascending lo [] h = tt
    remaining-Ascending lo ((k, at) ∷ q) h = elim (Bool-cases (ltb now at)) [
      | inl keep ↦ rw keep (ground arith, h.1)
      | inr gone ↦ rw gone (remaining-Ascending at q h.1)
    ]

    drop-evict_loop :
        (q queue : List (K × ℕ)) (c : Cursor K)
        → drop c.head queue ≡ q
        → drop (evict_loop now q c).head queue ≡ remaining now q
    unfolding evict_loop
    drop-evict_loop [] queue c h = h
    drop-evict_loop ((k, at) ∷ q) queue c h = elim (Bool-cases (ltb now at)) [
      | inl keep ↦ rw keep h
      | inr gone ↦ rw gone (
          drop-evict_loop q queue (record { entries = forget k at c.entries; head = c.head + 1 })
            (sym (drop-drop 1 c.head (c.head + 1) queue (omega arith)) ∙ ap (drop 1) h))
    ]

    head-evict_loop :
        (q : List (K × ℕ)) (c : Cursor K) → (evict_loop now q c).head ≤ c.head + length q
    unfolding evict_loop
    head-evict_loop [] c = omega arith
    head-evict_loop ((k, at) ∷ q) c =
        ground
          (arith, head-evict_loop q (record { entries = forget k at c.entries; head = c.head + 1 }))

    remaining-Below : (hi : ℕ) (q : List (K × ℕ)) → Below hi q → Below hi (remaining now q)
    remaining-Below hi [] h = tt
    remaining-Below hi ((k, at) ∷ q) h = elim (Bool-cases (ltb now at)) [
      | inl keep ↦ rw keep h
      | inr gone ↦ rw gone (remaining-Below hi q h.1)
    ]

  compact_head :
      (s : TtlDedupSet K) → s.head ≤ length s.queue → (compact s).head ≤ length (compact s).queue
  compact_head s h = ground arith

  -- Compaction changes neither the entries nor what is left of the queue.
  pub compact_lem :
      (s : TtlDedupSet K)
      → ((compact s).entries ≡ s.entries)
        × ((compact s).ttl ≡ s.ttl)
        × (drop (compact s).head (compact s).queue ≡ drop s.head s.queue)
  compact_lem s = ground arith

  -- The queue from the cursor on.
  abbrev pub pending : TtlDedupSet K → List (K × ℕ)
  pending s = drop s.head s.queue

  -- Every expiry in the queue is from `lo` to `hi`, and every entry has its place there.
  pub record Inv (lo hi : ℕ) (s : TtlDedupSet K) : Type 0 where
    pub ascending : Ascending lo (pending s)
    pub queued : Queued s.entries (pending s)
    pub below : Below hi (pending s)
    pub head_in : s.head ≤ length s.queue

  abbrev swept : TtlDedupSet K → ℕ → Cursor K
  swept s now = evict_loop now (pending s) (record { entries = s.entries; head = s.head })

  evict_lem :
      (s : TtlDedupSet K) (now : ℕ)
      → ((evict s now).entries ≡ (swept s now).entries)
        × ((evict s now).ttl ≡ s.ttl)
        × (pending (evict s now) ≡ remaining now (pending s))
  unfolding evict
  evict_lem s now =
      let (same, ttl_same, left) =
        compact_lem (record s { entries = (swept s now).entries; head = (swept s now).head }) in
      (same, ttl_same, left ∙ drop-evict_loop now (pending s) s.queue _ refl)

  evict_head :
      (s : TtlDedupSet K) (now : ℕ)
      → s.head ≤ length s.queue
      → (evict s now).head ≤ length (evict s now).queue
  unfolding evict
  evict_head s now h =
      compact_head (record s { entries = (swept s now).entries; head = (swept s now).head })
        (omega (
          arith,
          head-evict_loop now (pending s) (record { entries = s.entries; head = s.head }),
          length-drop s.head s.queue,
        ))

  pub evict-Inv :
      (lo hi : ℕ) (s : TtlDedupSet K) (now : ℕ) → Inv lo hi s → Inv (suc now) hi (evict s now)
  evict-Inv lo hi s now v =
      let (same, _, left) = evict_lem s now in
      record {
        ascending =
            subst (Ascending (suc now)) (sym left)
              (remaining-Ascending now lo (pending s) v.ascending);
        queued = subst₂ Queued (sym same) (sym left) (evict_loop-Queued now (pending s) _ v.queued);
        below = subst (Below hi) (sym left) (remaining-Below now hi (pending s) v.below);
        head_in = evict_head s now v.head_in;
      }

  -- No entry comes back, and none that still lasts is lost.
  pub lookup-evict_old :
      (s : TtlDedupSet K) (now : ℕ) (j : K) (t : ℕ)
      → lookup j (evict s now).entries ≡ some t
      → lookup j s.entries ≡ some t
  lookup-evict_old s now j t h = evict_loop_old now (pending s) _ j t (rw (evict_lem s now).0 at h)

  pub lookup-evict_later :
      (s : TtlDedupSet K) (now : ℕ) (j : K) (t : ℕ)
      → lookup j s.entries ≡ some t
      → now < t
      → lookup j (evict s now).entries ≡ some t
  lookup-evict_later s now j t h l =
      rw (evict_lem s now).0 (evict_loop_later now (pending s) _ j t h l)

  pub ttl-evict : (s : TtlDedupSet K) (now : ℕ) → (evict s now).ttl ≡ s.ttl
  ttl-evict s now = (evict_lem s now).1
