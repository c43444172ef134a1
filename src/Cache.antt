-- ===== src/Cache.antt =====
-- internal/hooks.go: memoryCache, with its eviction of the oldest entry. The clock is an argument; a
-- zero expiresAt is `none`; the bytes of an entry are any type.
pub mod Bounded
use go_kitsune.Prelude.{
  ℕ, ◌+◌, Bool, false, not, ◌&&◌, List, [], ◌∷◌, ◌++◌, Option, none, some, is_some, length, ltb,
  leb, if◌then◌else◌,
}
use go_kitsune.Keys.{Eq, lookup, insert, delete}

pub record CacheEntry (V : Type 0) : Type 0 where
  pub data_of : V
  pub expires_at : Option ℕ

pub record MemoryCache (K V : Type 0) : Type 0 where
  pub max_size : ℕ
  pub entries : List (K × CacheEntry V)
  pub order : List K

-- What evictOldest changes.
pub record Shelf (K V : Type 0) : Type 0 where
  pub order : List K
  pub entries : List (K × CacheEntry V)

abbrev pub memory_cache : {K V : Type 0} → ℕ → MemoryCache K V
memory_cache max_size = record { max_size = max_size; entries = []; order = [] }

-- `!entry.expiresAt.IsZero() && time.Now().After(entry.expiresAt)`
abbrev pub expired : ℕ → Option ℕ → Bool
expired now none = false
expired now (some at) = ltb at now

abbrev pub read : {V : Type 0} → ℕ → Option (CacheEntry V) → Option V
read now none = none
read now (some x) = if expired now x.expires_at then none else some x.data_of

abbrev pub expiry : ℕ → ℕ → Option ℕ
expiry now ttl = if ltb 0 ttl then some (now + ttl) else none

module _ {K V : Type 0} ⦃e : Eq K⦄ where
  unfoldable pub get : MemoryCache K V → ℕ → K → Option V
  get c now k = read now (lookup k c.entries)

  -- evictOldest
  unfoldable pub evict_oldest : List K → List (K × CacheEntry V) → Shelf K V
  evict_oldest [] m = record { order = []; entries = m }
  evict_oldest (k ∷ ks) m =
      let rest = evict_oldest ks m in
      if is_some (lookup k m) then record { order = ks; entries = delete k m } else rest

  -- The writes of Set once there is room; `known` says that the key had an entry.
  abbrev pub write : Bool → Shelf K V → K → CacheEntry V → Shelf K V
  write known s k x = record {
    order = if known then s.order else s.order ++ k ∷ [];
    entries = insert k x s.entries;
  }

  abbrev pub make_room : ℕ → Bool → Shelf K V → Shelf K V
  make_room max_size known s =
      if not known && leb max_size (length s.entries) then evict_oldest s.order s.entries else s

  unfoldable pub set_entry : MemoryCache K V → ℕ → K → V → ℕ → MemoryCache K V
  unfolding evict_oldest
  set_entry c now k v ttl =
      let known = is_some (lookup k c.entries) in
      let s = make_room c.max_size known (record { order = c.order; entries = c.entries }) in
      let t = write known s k (record { data_of = v; expires_at = expiry now ttl }) in
      record c { entries = t.entries; order = t.order }
