-- ===== src/Ref.antt =====
-- state_ref.go: Ref with its three backings: memory, an InProcessStore, and a Store with a codec.
--
-- A Ref serialises its calls by its mutex, so each method is one function from the state to the state
-- and its result. The clock is an argument; a zero lastWrite is `none`. A Store and the codec are
-- interfaces, given as functions; memoryStore (Values) is one Store.
pub mod Stored
pub mod Cells
pub mod Refines
pub mod Expiry
use go_kitsune.Prelude.{
  ℕ, ◌+◌, Bool, true, false, ◌&&◌, List, [], ◌∷◌, Option, none, some, ltb, if◌then◌else◌,
}
use go_kitsune.Errors.{Error, Result, ok, err}

-- What a method returns: a value and a nil error, a nil error alone, an error, or a panic.
pub data Answer (T : Type 0) : Type 0 where
  value_of : T → Answer T
  finished : Answer T
  failed : Error → Answer T
  panics : Answer T

-- The state after a method, and what it returned.
pub record Reply (S T : Type 0) : Type 0 where
  pub next : S
  pub answer : Answer T

abbrev pub reply : {S T : Type 0} → S → Answer T → Reply S T
reply s a = record { next = s; answer = a }

-- `v, err := …; if err != nil { return err }`, and then the rest.
abbrev pub and_then : {S T A : Type 0} → Result A → S → (A → Reply S T) → Reply S T
and_then (ok v) s rest = rest v
and_then (err e) s rest = reply s (failed e)

-- The methods with their arguments: the time where the method asks for it, and what the function
-- returns that the method is given.
pub data Call (T : Type 0) : Type 0 where
  get : ℕ → Call T
  set : ℕ → T → Call T
  get_or_set : Result T → Call T
  update_and_get update : ℕ → (T → Result T) → Call T

-- Ref with `store == nil`.
pub record MemoryRef (T : Type 0) : Type 0 where
  pub value : T
  pub ttl : ℕ
  pub last_write : Option ℕ
  pub initial_val : T

-- `!lastWrite.IsZero() && now.After(lastWrite.Add(ttl))`
abbrev pub written_before : Option ℕ → ℕ → ℕ → Bool
written_before none ttl now = false
written_before (some at) ttl now = ltb (at + ttl) now

module _ {T : Type 0} where
  -- newRef without a store
  abbrev pub new_memory_ref : T → ℕ → MemoryRef T
  new_memory_ref initial ttl = record {
    value = initial;
    ttl = ttl;
    last_write = none;
    initial_val = initial;
  }

  abbrev pub is_expired : ℕ → MemoryRef T → Bool
  is_expired now r = ltb 0 r.ttl && written_before r.last_write r.ttl now

  abbrev pub reset : MemoryRef T → MemoryRef T
  reset r = record r { value = r.initial_val; last_write = none }

  -- `r.value = v; if r.ttl > 0 { r.lastWrite = time.Now() }`
  abbrev pub assign : ℕ → MemoryRef T → T → MemoryRef T
  assign now r v = record r {
    value = v;
    last_write = if ltb 0 r.ttl then some now else r.last_write;
  }

  -- The methods of a Ref in memory.
  unfoldable pub memory_call : MemoryRef T → Call T → Reply (MemoryRef T) T
  memory_call r (get now) =
      if is_expired now r
      then reply (reset r) (value_of r.initial_val)
      else reply r (value_of r.value)
  memory_call r (set now v) = reply (assign now r v) finished
  memory_call r (get_or_set made) = reply r (value_of r.value)
  memory_call r (update_and_get now fn) =
      and_then (fn r.value) r (λ v. reply (assign now r v) (value_of v))
  memory_call r (update now fn) = and_then (fn r.value) r (λ v. reply (assign now r v) finished)

-- The answers to calls one after the other.
abbrev pub answers : {S T : Type 0} → (S → Call T → Reply S T) → S → List (Call T) → List (Answer T)
answers call s [] = []
answers call s (c ∷ cs) = let r = call s c in r.answer ∷ answers call r.next cs
