-- ===== src/Dedup/Ttl/Refines.antt =====
-- The set against a history: it holds exactly the keys whose last addition has not run out.
use go_kitsune.Prelude.{
  ℕ, suc, ◌+◌, ◌≤◌, ◌<◌, ◌≡◌, refl, sym, subst, ◌∙◌, Bool, false, inl, inr, List, [], ◌∷◌, ◌++◌,
  Option, none, some, ltb→lt, length-append, drop-append_le, ltb, Bool-cases, Option-cases,
  if◌then◌else◌, arith,
}
use mathlib.Core.Path.{subst₂}
use go_kitsune.Keys.{Eq, ◌==◌, lookup, lookup-insert}
use go_kitsune.Dedup.Ttl.{TtlDedupSet, evict, contains, add, push, ttl_dedup_set}
use go_kitsune.Dedup.Ttl.Evict.{
  In, pending, Inv, evict-Inv, In-Ascending, Below-mono, Below-snoc, Ascending-snoc, In-snoc_old,
  In-snoc_new, lookup-evict_old, lookup-evict_later, ttl-evict,
}

-- A call at a time.
pub data Call (K : Type 0) : Type 0 where
  asks adds : ℕ → K → Call K

-- What the history says of a key at a time.
abbrev pub is_fresh : ℕ → ℕ → Option ℕ → Bool
is_fresh ttl now none = false
is_fresh ttl now (some t) = ltb now (t + ttl)

module _ {K : Type 0} ⦃e : Eq K⦄ where
  abbrev pub time_of : Call K → ℕ
  time_of (asks t k) = t
  time_of (adds t k) = t

  -- The clock does not go back.
  abbrev pub Timed : ℕ → List (Call K) → Type 0
  Timed lo [] = Unit
  Timed lo (c ∷ cs) = (lo ≤ time_of c) × Timed (time_of c) cs

  -- The set after the calls.
  unfoldable pub after : TtlDedupSet K → List (Call K) → TtlDedupSet K
  after s [] = s
  after s (asks t k ∷ cs) = after (contains s t k).0 cs
  after s (adds t k ∷ cs) = after (add s t k) cs

  -- When each key was last added.
  unfoldable pub last_added : (K → Option ℕ) → List (Call K) → K → Option ℕ
  last_added h [] = h
  last_added h (asks t k ∷ cs) = last_added h cs
  last_added h (adds t k ∷ cs) = last_added (λ j. if k == j then some t else h j) cs

  -- The set stands for the history `h` at time `lo`, and no expiry in its queue is below `bound`.
  pub record Stands (ttl lo bound : ℕ) (h : K → Option ℕ) (s : TtlDedupSet K) : Type 0 where
    pub ttl_same : s.ttl ≡ ttl
    pub inv : Inv bound (lo + ttl) s
    pub sound :
        (k : K) (at : ℕ) → lookup k s.entries ≡ some at → (t : ℕ) × (h k ≡ some t) × (at ≡ t + ttl)
    pub complete :
        (k : K) (t : ℕ) → h k ≡ some t → lo < t + ttl → lookup k s.entries ≡ some (t + ttl)

  Stands-evict :
      (ttl lo bound now : ℕ) (h : K → Option ℕ) (s : TtlDedupSet K)
      → lo ≤ now
      → Stands ttl lo bound h s
      → Stands ttl now (suc now) h (evict s now)
  Stands-evict ttl lo bound now h s l v =
      let v' = evict-Inv bound (lo + ttl) s now v.inv in
      record {
        ttl_same = ttl-evict s now ∙ v.ttl_same;
        inv = record {
          ascending = v'.ascending;
          queued = v'.queued;
          below = Below-mono (lo + ttl) (now + ttl) _ (omega arith) v'.below;
          head_in = v'.head_in;
        };
        sound = λ k at f. v.sound k at (lookup-evict_old s now k at f);
        complete =
            λ k t f g. lookup-evict_later s now k (t + ttl) (v.complete k t f (omega arith)) g;
      }

  -- After an eviction an entry lasts.
  evict_lasts :
      (ttl lo bound now : ℕ) (h : K → Option ℕ) (s : TtlDedupSet K) (k : K) (at : ℕ)
      → Stands ttl lo bound h s
      → lookup k (evict s now).entries ≡ some at
      → now < at
  evict_lasts ttl lo bound now h s k at v f =
      let v' = evict-Inv bound (lo + ttl) s now v.inv in
      In-Ascending {lo = suc now} k at (pending (evict s now)) v'.ascending (v'.queued k at f)

  -- The history with one more addition.
  abbrev pub noted : K → ℕ → (K → Option ℕ) → K → Option ℕ
  noted k t h j = if k == j then some t else h j

  push-Inv :
      (lo hi : ℕ) (s : TtlDedupSet K) (k : K) → lo ≤ hi → Inv lo hi s → Inv lo hi (push s k hi)
  push-Inv lo hi s k l v =
      let e' : pending (push s k hi) ≡ pending s ++ (k, hi) ∷ [] =
        drop-append_le s.head s.queue ((k, hi) ∷ []) v.head_in in
      record {
        ascending = rw e' (Ascending-snoc lo hi k (pending s) l v.ascending v.below);
        queued = λ j at f. rw e' (elim (Bool-cases (k == j)) [
          | inl same ↦
              let p : k ≡ j = (e.beq_iff k j).0 same in
              let q : hi ≡ at = ground (arith, lookup-insert k j hi s.entries) in
              subst₂ (λ a b. In a b (pending s ++ (k, hi) ∷ [])) p q (In-snoc_new k hi (pending s))
          | inr other ↦
              In-snoc_old j k at hi (pending s)
                (v.queued j at (ground (arith, lookup-insert k j hi s.entries)))
        ]);
        below = rw e' (Below-snoc hi hi k (pending s) (omega arith) v.below);
        head_in = omega (arith, v.head_in, length-append s.queue ((k, hi) ∷ []));
      }

  Stands-push :
      (ttl now bound : ℕ) (h : K → Option ℕ) (s : TtlDedupSet K) (k : K)
      → Stands ttl now bound h s
      → bound ≤ now + ttl
      → Stands ttl now bound (noted k now h) (push s k (now + ttl))
  Stands-push ttl now bound h s k v l = record {
    ttl_same = v.ttl_same;
    inv = push-Inv bound (now + ttl) s k l v.inv;
    sound = λ j at f. elim (Bool-cases (k == j)) [
      | inl same ↦ (now, rw same, ground (arith, lookup-insert k j (now + ttl) s.entries))
      | inr other ↦
          let (t, p, q) = v.sound j at (ground (arith, lookup-insert k j (now + ttl) s.entries)) in
          (t, rw other p, q)
    ];
    complete = λ j t f g. rw (lookup-insert k j (now + ttl) s.entries) (elim (Bool-cases (k == j)) [
      | inl same ↦ rw same (ground arith)
      | inr other ↦ rw other (v.complete j t (ground arith) g)
    ]);
  }

  Stands-add :
      (ttl lo bound now : ℕ) (h : K → Option ℕ) (s : TtlDedupSet K) (k : K)
      → 0 < ttl
      → lo ≤ now
      → Stands ttl lo bound h s
      → Stands ttl now (suc now) (noted k now h) (add s now k)
  unfolding add
  Stands-add ttl lo bound now h s k pos l v =
      let v' = Stands-evict ttl lo bound now h s l v in
      subst (λ n. Stands ttl now (suc now) (noted k now h) (push (evict s now) k (now + n)))
        (sym v'.ttl_same) (Stands-push ttl now (suc now) h (evict s now) k v' (omega arith))

  -- The time of the last call.
  abbrev pub last_time : ℕ → List (Call K) → ℕ
  last_time lo [] = lo
  last_time lo (c ∷ cs) = last_time (time_of c) cs

  Stands-after :
      (ttl lo bound : ℕ) (h : K → Option ℕ) (s : TtlDedupSet K) (cs : List (Call K))
      → 0 < ttl
      → Timed lo cs
      → Stands ttl lo bound h s
      → (b : ℕ) × Stands ttl (last_time lo cs) b (last_added h cs) (after s cs)
  unfolding after last_added
  Stands-after ttl lo bound h s [] pos t v = (bound, v)
  Stands-after ttl lo bound h s (asks now k ∷ cs) pos t v =
      Stands-after ttl now (suc now) h (contains s now k).0 cs pos t.1
        (unfold contains in Stands-evict ttl lo bound now h s t.0 v)
  Stands-after ttl lo bound h s (adds now k ∷ cs) pos t v =
      Stands-after ttl now (suc now) (noted k now h) (add s now k) cs pos t.1
        (Stands-add ttl lo bound now h s k pos t.0 v)

  contains-is_fresh :
      (ttl lo bound now : ℕ) (h : K → Option ℕ) (s : TtlDedupSet K) (k : K)
      → lo ≤ now
      → Stands ttl lo bound h s
      → (contains s now k).1 ≡ is_fresh ttl now (h k)
  unfolding contains
  contains-is_fresh ttl lo bound now h s k l v =
      let v' = Stands-evict ttl lo bound now h s l v in
      elim (Option-cases (lookup k (evict s now).entries)) [
        | inl gone ↦ rw gone (not_fresh (h k) refl gone)
        | inr (at, there) ↦
            let (t, p, q) = v'.sound k at there in
            let lasts = evict_lasts ttl lo bound now h s k at v there in
            rw (there, p) (ground arith)
      ]
    where
      not_fresh :
          (o : Option ℕ)
          → h k ≡ o
          → lookup k (evict s now).entries ≡ none
          → false ≡ is_fresh ttl now o
      not_fresh none p gone = refl
      not_fresh (some t) p gone = elim (Bool-cases (ltb now (t + ttl))) [
        | inl fresh ↦
            let held =
              (Stands-evict ttl lo bound now h s l v).complete k t p (ltb→lt now (t + ttl) fresh) in
            cc
        | inr old ↦ rw old
      ]

  Stands-new :
      (ttl : ℕ)
      → Stands ttl 0 0 (λ k. none) (record { ttl = ttl; entries = []; queue = []; head = 0 })
  Stands-new ttl = record {
    ttl_same = refl;
    inv = record { ascending = tt; queued = λ k at f. cc; below = tt; head_in = omega arith };
    sound = λ k at f. cc;
    complete = λ k t f g. cc;
  }

  -- After any calls with a clock that does not go back, Contains at a time `now` from the last call
  -- on says exactly whether the last addition of the key was less than the ttl ago: an addition
  -- refreshes the key, and at its expiry the key is forgotten.
  pub contains-after :
      (ttl now : ℕ) (s : TtlDedupSet K) (cs : List (Call K)) (k : K)
      → ttl_dedup_set ttl ≡ some s
      → Timed 0 cs
      → last_time 0 cs ≤ now
      → (contains (after s cs) now k).1 ≡ is_fresh ttl now (last_added (λ j. none) cs k)
  unfolding ttl_dedup_set
  contains-after ttl now s cs k made timed l =
      let pos : 0 < ttl = ground arith in
      let start : record { ttl = ttl; entries = []; queue = []; head = 0 } ≡ s = ground arith in
      let (b, v) =
        Stands-after ttl 0 0 (λ j. none) s cs pos timed
          (subst (Stands ttl 0 0 (λ j. none)) start (Stands-new ttl)) in
      contains-is_fresh ttl (last_time 0 cs) b now (last_added (λ j. none) cs) (after s cs) k l v
