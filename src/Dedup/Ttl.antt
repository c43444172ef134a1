-- ===== src/Dedup/Ttl.antt =====
-- internal/ttldedup.go: a deduplication set that forgets. The clock is an argument of each call, a
-- number of units; a key is any type with an equality, where the source has strings.
pub mod Evict
pub mod Refines
use go_kitsune.Prelude.{
  ℕ, ◌+◌, ◌/◌, Bool, ◌&&◌, List, [], ◌∷◌, ◌++◌, Option, none, some, length, drop, is_some, ltb, leb,
  ◌==◌ as nat_eq, if◌then◌else◌,
}
use go_kitsune.Keys.{Eq, lookup, insert, delete}

-- `entries`, `queue` and `head` of ttlDedupSet; an element of `queue` is a ttlEntry.
pub record TtlDedupSet (K : Type 0) : Type 0 where
  pub ttl : ℕ
  pub entries : List (K × ℕ)
  pub queue : List (K × ℕ)
  pub head : ℕ

-- What the loop of evictLocked changes.
pub record Cursor (K : Type 0) : Type 0 where
  pub entries : List (K × ℕ)
  pub head : ℕ

module _ {K : Type 0} ⦃e : Eq K⦄ where
  -- TTLDedupSetWithClock, which panics for a ttl that is not positive.
  unfoldable pub ttl_dedup_set : ℕ → Option (TtlDedupSet K)
  ttl_dedup_set ttl =
      if ltb 0 ttl then some (record { ttl = ttl; entries = []; queue = []; head = 0 }) else none

  -- `if exp, ok := s.entries[k]; ok && exp.Equal(at) { delete(s.entries, k) }`
  abbrev pub forget : K → ℕ → List (K × ℕ) → List (K × ℕ)
  forget k at m = elim (lookup k m) [
    | none ↦ m
    | some exp ↦ if nat_eq exp at then delete k m else m
  ]

  -- The loop of evictLocked over queue[head:].
  unfoldable pub evict_loop : ℕ → List (K × ℕ) → Cursor K → Cursor K
  evict_loop now [] c = c
  evict_loop now ((k, at) ∷ rest) c =
      let more =
        evict_loop now rest (record { entries = forget k at c.entries; head = c.head + 1 }) in
      if ltb now at then c else more

  -- The compaction of the dead prefix, once it is at least half of the slice.
  abbrev pub compact : TtlDedupSet K → TtlDedupSet K
  compact s =
      if ltb 0 s.head && leb (length s.queue / 2) s.head
      then record s { queue = drop s.head s.queue; head = 0 }
      else s

  unfoldable pub evict : TtlDedupSet K → ℕ → TtlDedupSet K
  unfolding evict_loop
  evict s now =
      let c =
        evict_loop now (drop s.head s.queue) (record { entries = s.entries; head = s.head }) in
      compact (record s { entries = c.entries; head = c.head })

  unfoldable pub contains : TtlDedupSet K → ℕ → K → TtlDedupSet K × Bool
  contains s now k = let s' = evict s now in (s', is_some (lookup k s'.entries))

  -- The writes of Add.
  abbrev pub push : TtlDedupSet K → K → ℕ → TtlDedupSet K
  push s k exp = record s { entries = insert k exp s.entries; queue = s.queue ++ (k, exp) ∷ [] }

  unfoldable pub add : TtlDedupSet K → ℕ → K → TtlDedupSet K
  add s now k = let s' = evict s now in push s' k (now + s'.ttl)
