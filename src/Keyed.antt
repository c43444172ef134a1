-- ===== src/Keyed.antt =====
-- state_withkey.go: keyedRefMap with its evictions, and mapWithKeySerial, for Refs in memory.
--
-- `getRef` reads the clock once, so the time is an argument; an item comes with the time of its getRef. The map from
-- the entities' keys is a function.
-- A Ref is given out by pointer and lives in the map, so what a function does to it is written back
-- under its key. lastAccess is set when an entry is made, so it is never zero.
pub mod Sweeping
pub mod Isolated
use go_kitsune.Prelude.{
  ℕ, ◌+◌, ◌/◌, Bool, true, false, not, ◌&&◌, ◌||◌, List, [], ◌∷◌, Option, none, some, ltb,
  if◌then◌else◌,
}
use go_kitsune.Keys.{Eq, ◌==◌}
use go_kitsune.Errors.{Error, skipped, Result, ok, err, wrap_stage_err}
use go_kitsune.Process.{Outcome}
use go_kitsune.Ref.{MemoryRef, new_memory_ref, written_before}
use go_kitsune.Stage.{Action, continue, finish, failed, Loop}
use go_kitsune.Transform.{per_item, return_nil}

pub record KeyedEntry (S : Type 0) : Type 0 where
  pub ref : MemoryRef S
  pub last_access : ℕ

pub record KeyedRefMap (K S : Type 0) : Type 0 where
  pub refs : K → Option (KeyedEntry S)
  pub next_sweep : ℕ

-- The fields of keyedRefMap that do not change.
pub record KeyedConfig (S : Type 0) : Type 0 where
  pub initial : S
  pub ttl : ℕ
  pub key_ttl : ℕ

-- `m.keyTTL > 0` and the last access lies more than keyTTL before `now`.
abbrev pub is_stale : {S : Type 0} → KeyedConfig S → ℕ → KeyedEntry S → Bool
is_stale c now x = ltb (x.last_access + c.key_ttl) now

module _ {S : Type 0} (c : KeyedConfig S) where
  -- What a sweep leaves of an entry; `own` says that it is that of the requested key.
  abbrev pub kept_entry : ℕ → Bool → Option (KeyedEntry S) → Option (KeyedEntry S)
  kept_entry now own none = none
  kept_entry now own (some x) = if not own && is_stale c now x then none else some x

  -- Whether getRef evicts the entry of its own key.
  abbrev pub is_evicted : ℕ → KeyedEntry S → Bool
  is_evicted now x =
      (ltb 0 c.key_ttl && is_stale c now x)
      || (ltb 0 c.ttl && written_before x.ref.last_write c.ttl now)

  -- The Ref that getRef returns for what it finds.
  abbrev pub kept_or_new : ℕ → Option (KeyedEntry S) → MemoryRef S
  kept_or_new now none = new_memory_ref c.initial c.ttl
  kept_or_new now (some x) = if is_evicted now x then new_memory_ref c.initial c.ttl else x.ref

module _ {K S : Type 0} ⦃e : Eq K⦄ where
  -- `m.refs[key] = x` and `delete(m.refs, key)`
  abbrev pub with_entry : K → KeyedEntry S → (K → Option (KeyedEntry S)) → K → Option (KeyedEntry S)
  with_entry key x m k = if k == key then some x else m k

  abbrev pub without : K → (K → Option (KeyedEntry S)) → K → Option (KeyedEntry S)
  without key m k = if k == key then none else m k

  -- `m.refs[entityKey] = ref` with lastAccess; also what the write through the pointer comes to.
  unfoldable pub put_ref : ℕ → K → MemoryRef S → KeyedRefMap K S → KeyedRefMap K S
  put_ref now key r m = record m {
    refs = with_entry key (record { ref = r; last_access = now }) m.refs;
  }

module _ {K S : Type 0} ⦃e : Eq K⦄ (c : KeyedConfig S) where
  -- `for k, r := range m.refs { if k != entityKey && … { delete(m.refs, k) } }`
  unfoldable pub sweep : ℕ → K → (K → Option (KeyedEntry S)) → K → Option (KeyedEntry S)
  sweep now key m k = kept_entry c now (k == key) (m k)

  abbrev pub sweeps : ℕ → KeyedRefMap K S → Bool
  sweeps now m = ltb 0 c.key_ttl && not (ltb now m.next_sweep)

  unfoldable pub opportunistic_sweep : ℕ → K → KeyedRefMap K S → KeyedRefMap K S
  unfolding sweep
  opportunistic_sweep now key m =
      if sweeps now m
      then record { refs = sweep now key m.refs; next_sweep = now + c.key_ttl / 8 }
      else m

  abbrev pub cleared :
      ℕ → K → Option (KeyedEntry S) → (K → Option (KeyedEntry S)) → (K → Option (KeyedEntry S))
  cleared now key none m = m
  cleared now key (some x) m = if is_evicted c now x then without key m else m

  unfoldable pub get_ref : ℕ → K → KeyedRefMap K S → KeyedRefMap K S × MemoryRef S
  unfolding opportunistic_sweep put_ref
  get_ref now key m =
      let swept = opportunistic_sweep now key m in
      let found = swept.refs key in
      let r = kept_or_new c now found in
      (put_ref now key r (record swept { refs = cleared now key found swept.refs }), r)

-- mapWithKeySerial: `process` is what ProcessItem makes of the Ref and returns.
module _ {K S I O : Type 0} ⦃e : Eq K⦄ (c : KeyedConfig S) (name : ℕ) (key_fn : I → K)
    (process : MemoryRef S → I → MemoryRef S × Outcome O) where
  abbrev pub keyed_result : ℕ → Result O → KeyedRefMap K S → Action (KeyedRefMap K S) O
  keyed_result attempt (ok v) m = continue (v ∷ []) m
  keyed_result attempt (err skipped) m = continue [] m
  keyed_result attempt (err x) m = finish [] (failed (wrap_stage_err name x attempt))

  abbrev pub keyed_item : KeyedRefMap K S × MemoryRef S → ℕ → I → Action (KeyedRefMap K S) O
  keyed_item (m, r) now x =
      let (r2, o) = process r x in keyed_result o.attempt o.result (put_ref now (key_fn x) r2 m)

  unfoldable pub map_with_key_loop : Loop (KeyedRefMap K S) (ℕ × I) O
  unfolding wrap_stage_err get_ref put_ref
  map_with_key_loop =
      per_item (λ m it. keyed_item (get_ref c it.0 (key_fn it.1) m) it.0 it.1) return_nil
