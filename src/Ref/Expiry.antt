-- ===== src/Ref/Expiry.antt =====
-- The time to live of a Ref in memory.
use go_kitsune.Prelude.{
  ℕ, ◌+◌, ◌≤◌, ◌<◌, ◌≡◌, refl, ap, ◌∙◌, false, List, [], ◌∷◌, some, ltb, if◌then◌else◌, arith, All,
  Bool-cases, inl, inr, lt→ltb, ltb→lt, ◌⊎◌,
}
use go_kitsune.Errors.{Result, ok, err}
use go_kitsune.Ref.{
  Answer, value_of, failed, reply, and_then, Call, get, set, update_and_get, MemoryRef, memory_call,
  is_expired, assign, reset,
}

-- The state after calls one after the other.
abbrev pub after_calls : {T : Type 0} → MemoryRef T → List (Call T) → MemoryRef T
after_calls r [] = r
after_calls r (c ∷ cs) = after_calls (memory_call r c).next cs

abbrev pub reads : {T : Type 0} → List ℕ → List (Call T)
reads [] = []
reads (t ∷ ts) = get t ∷ reads ts

-- What a Get gives of a result.
abbrev pub as_answer : {T : Type 0} → Result T → Answer T
as_answer (ok v) = value_of v
as_answer (err e) = failed e

answer-and_then :
    {S T : Type 0} (x : Result T) (s : S) (f : T → S)
    → (and_then x s (λ w. reply (f w) (value_of w))).answer ≡ as_answer x
answer-and_then (ok v) s f = refl
answer-and_then (err e) s f = refl

module _ {T : Type 0} (r : MemoryRef T) (at now : ℕ) (v : T) (lives : 0 < r.ttl) where
  abbrev written : MemoryRef T
  written = record { value = v; ttl = r.ttl; last_write = some at; initial_val = r.initial_val }

  -- As written, or reset by a read after its time.
  abbrev Lives : MemoryRef T → Type 0
  Lives s = (s ≡ written) ⊎ ((s ≡ reset written) × (at + r.ttl < now))

  assign-written : assign at r v ≡ written
  assign-written = rw (lt→ltb 0 r.ttl lives) refl

  expired_at : (t : ℕ) → is_expired t written ≡ ltb (at + r.ttl) t
  expired_at t = rw (lt→ltb 0 r.ttl lives) refl

  reset_stays : (t : ℕ) → is_expired t (reset written) ≡ false
  reset_stays t = rw (lt→ltb 0 r.ttl lives) refl

  get-Lives : (s : MemoryRef T) (t : ℕ) → t ≤ now → Lives s → Lives (memory_call s (get t)).next
  unfolding memory_call
  get-Lives s t before (inl e) = rw e (elim (Bool-cases (ltb (at + r.ttl) t)) [
    | inl y ↦
        rw (expired_at t, y)
          (inr (
            refl,
            ltb→lt (at + r.ttl) now (lt→ltb _ _ (omega (arith, ltb→lt (at + r.ttl) t y, before))),
          ))
    | inr n ↦ rw (expired_at t, n) (inl refl)
  ])
  get-Lives s t before (inr (e, late)) = rw (e, reset_stays t) (inr (refl, late))

  reads-Lives :
      (s : MemoryRef T) (ts : List ℕ)
      → All (λ t. t ≤ now) ts
      → Lives s
      → Lives (after_calls s (reads ts))
  reads-Lives s [] h l = l
  reads-Lives s (t ∷ ts) h l = reads-Lives (memory_call s (get t)).next ts h.1 (get-Lives s t h.0 l)

  answer-Lives :
      (s : MemoryRef T)
      → Lives s
      → (memory_call s (get now)).answer
        ≡ value_of (if ltb (at + r.ttl) now then r.initial_val else v)
  unfolding memory_call
  answer-Lives s (inl e) = rw e (elim (Bool-cases (ltb (at + r.ttl) now)) [
    | inl y ↦ rw (expired_at now, y) refl
    | inr n ↦ rw (expired_at now, n) refl
  ])
  answer-Lives s (inr (e, late)) = rw (e, reset_stays now, lt→ltb (at + r.ttl) now late) refl

  -- A Ref in memory with a time to live: after a Set at the time `at` and any Gets up to the time `now`,
  -- a Get at that time gives the value that was set, and the initial value once more than the time
  -- to live has passed; a Get does not make the value live longer.
  pub get-expires :
      (ts : List ℕ)
      → All (λ t. t ≤ now) ts
      → (memory_call (after_calls (memory_call r (set at v)).next (reads ts)) (get now)).answer
        ≡ value_of (if ltb (at + r.ttl) now then r.initial_val else v)
  unfolding memory_call
  get-expires ts before =
      answer-Lives _ (reads-Lives (assign at r v) ts before (inl assign-written))

  -- A value whose time to live has passed is gone for Get, but UpdateAndGet still applies its function
  -- to it, and not to the initial value.
  pub update-revives :
      (fn : T → Result T)
      → at + r.ttl < now
      → let s = (memory_call r (set at v)).next in
        ((memory_call s (get now)).answer ≡ value_of r.initial_val)
        × ((memory_call s (update_and_get now fn)).answer ≡ as_answer (fn v))
  unfolding memory_call
  update-revives fn late = (
    answer-Lives (assign at r v) (inl assign-written)
        ∙ ap (λ b. value_of (if b then r.initial_val else v)) (lt→ltb (at + r.ttl) now late),
    answer-and_then (fn v) (assign at r v) (λ w. assign now (assign at r v) w),
  )
