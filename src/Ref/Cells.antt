-- ===== src/Ref/Cells.antt =====
-- The cells that a Ref is compared with, and the Refs in memory and on an InProcessStore.
use go_kitsune.Prelude.{
  subst, sym, ℕ, ◌≡◌, refl, ap, false, ltb, ◌&&◌, List, [], ◌∷◌, Option, none, some,
}
use go_kitsune.Keys.{Eq, lookup, lookup-insert, beq_refl}
use go_kitsune.Errors.{Result, ok, err}
use go_kitsune.Values.{AnyStored, typed, get_any, set_any}
use go_kitsune.Ref.{
  Answer, value_of, finished, Reply, reply, and_then, Call, get, set, get_or_set, update_and_get,
  update, MemoryRef, memory_call, answers, is_expired, written_before, new_memory_ref,
}
use go_kitsune.Ref.Stored.{ips_call}

-- A cell: empty until something is written.
abbrev pub content : {T : Type 0} → T → Option T → T
content initial none = initial
content initial (some v) = v

module _ {T : Type 0} (initial : T) where
  abbrev pub cell_call : Option T → Call T → Reply (Option T) T
  cell_call c (get now) = reply c (value_of (content initial c))
  cell_call c (set now v) = reply (some v) finished
  cell_call none (get_or_set made) = and_then made none (λ v. reply (some v) (value_of v))
  cell_call (some v) (get_or_set made) = reply (some v) (value_of v)
  cell_call c (update_and_get now fn) =
      and_then (fn (content initial c)) c (λ v. reply (some v) (value_of v))
  cell_call c (update now fn) = and_then (fn (content initial c)) c (λ v. reply (some v) finished)

-- A cell with a default: an update starts from what the default and the content merge to, and may
-- change the default.
module _ {T : Type 0} (merge touch : T → T → T) where
  abbrev pub start_from : Option T × T → T
  start_from (none, d) = d
  start_from (some v, d) = merge d v

  abbrev pub touched : Option T × T → Option T × T
  touched (none, d) = (none, d)
  touched (some v, d) = (some v, touch d v)

  abbrev pub merging_call : Option T × T → Call T → Reply (Option T × T) T
  merging_call (c, d) (get now) = reply (c, d) (value_of (content d c))
  merging_call (c, d) (set now v) = reply (some v, d) finished
  merging_call (none, d) (get_or_set made) =
      and_then made (none, d) (λ v. reply (some v, d) (value_of v))
  merging_call (some v, d) (get_or_set made) = reply (some v, d) (value_of v)
  merging_call s (update_and_get now fn) =
      and_then (fn (start_from s)) (touched s) (λ v. reply (some v, (touched s).1) (value_of v))
  merging_call s (update now fn) =
      and_then (fn (start_from s)) (touched s) (λ v. reply (some v, (touched s).1) finished)

-- Two ways to answer calls that keep a relation of their states give the same answers.
pub answers-simulation :
    {S R T : Type 0} (f : S → Call T → Reply S T) (g : R → Call T → Reply R T)
    (Same : S → R → Type 0)
    → ((s : S) (r : R) (c : Call T)
        → Same s r
        → Same (f s c).next (g r c).next × ((f s c).answer ≡ (g r c).answer))
    → (s : S) (r : R) (cs : List (Call T)) → Same s r
    → answers f s cs ≡ answers g r cs
answers-simulation f g Same one s r [] h = refl
answers-simulation f g Same one s r (c ∷ cs) h =
    let (h2, e) = one s r c h in
    let es = answers-simulation f g Same one (f s c).next (g r c).next cs h2 in cc (e, es)

module _ {S R T : Type 0} (Same : S → R → Type 0) where
  abbrev pub Alike : Reply S T → Reply R T → Type 0
  Alike a b = Same a.next b.next × (a.answer ≡ b.answer)

  pub and_then-Alike :
      {A : Type 0} (x : Result A) (s : S) (r : R) (f : A → Reply S T) (g : A → Reply R T)
      → Same s r
      → ((v : A) → Alike (f v) (g v))
      → Alike (and_then x s f) (and_then x r g)
  and_then-Alike (ok v) s r f g h each = each v
  and_then-Alike (err e) s r f g h each = (h, refl)

module _ {K T B : Type 0} ⦃e : Eq K⦄ (key : K) (initial : T) where
  abbrev as_typed : Option T → Option (AnyStored T B)
  as_typed none = none
  as_typed (some v) = some (typed v)

  abbrev Holds : List (K × AnyStored T B) → Option T → Type 0
  Holds s c = lookup key s ≡ as_typed c

  set_any-Holds : (s : List (K × AnyStored T B)) (v : T) → Holds (set_any s key v) (some v)
  unfolding set_any
  set_any-Holds s v = rw (lookup-insert key key (typed v) s, beq_refl key)

  ips_call-cell_call :
      (s : List (K × AnyStored T B)) (c : Option T) (x : Call T)
      → Holds s c
      → Alike Holds (ips_call key initial s x) (cell_call initial c x)
  unfolding ips_call get_any set_any
  ips_call-cell_call s none (get now) h = rw h (h, refl)
  ips_call-cell_call s (some v) (get now) h = rw h (h, refl)
  ips_call-cell_call s c (set now v) h = (set_any-Holds s v, refl)
  ips_call-cell_call s none (get_or_set made) h =
      rw h (and_then-Alike Holds made s none _ _ h (λ v. (set_any-Holds s v, refl)))
  ips_call-cell_call s (some v) (get_or_set made) h = rw h (h, refl)
  ips_call-cell_call s none (update_and_get now fn) h =
      rw h (and_then-Alike Holds (fn initial) s none _ _ h (λ v. (set_any-Holds s v, refl)))
  ips_call-cell_call s (some w) (update_and_get now fn) h =
      rw h (and_then-Alike Holds (fn w) s (some w) _ _ h (λ v. (set_any-Holds s v, refl)))
  ips_call-cell_call s none (update now fn) h =
      rw h (and_then-Alike Holds (fn initial) s none _ _ h (λ v. (set_any-Holds s v, refl)))
  ips_call-cell_call s (some w) (update now fn) h =
      rw h (and_then-Alike Holds (fn w) s (some w) _ _ h (λ v. (set_any-Holds s v, refl)))

  -- A Ref on an in-process store answers any calls the way a cell does that was empty, as long as its
  -- key has no entry at first.
  pub ips_answers :
      (s : List (K × AnyStored T B)) (cs : List (Call T))
      → lookup key s ≡ none
      → answers (ips_call key initial) s cs ≡ answers (cell_call initial) none cs
  ips_answers s cs h =
      answers-simulation (ips_call key initial) (cell_call initial) Holds ips_call-cell_call s none
        cs h

module _ {T : Type 0} (initial : T) where
  -- A Ref in memory without a time to live has its value from the start.
  abbrev Has : MemoryRef T → Option T → Type 0
  Has r c = (r.ttl ≡ 0) × (some r.value ≡ c)

  never_expired : (now : ℕ) (r : MemoryRef T) → r.ttl ≡ 0 → is_expired now r ≡ false
  never_expired now r t = ap (λ ttl. ltb 0 ttl && written_before r.last_write ttl now) t

  memory_call-cell_call :
      (r : MemoryRef T) (x : Call T)
      → r.ttl ≡ 0
      → Alike Has (memory_call r x) (cell_call initial (some r.value) x)
  unfolding memory_call
  memory_call-cell_call r (get now) t = rw (never_expired now r t) ((t, refl), refl)
  memory_call-cell_call r (set now w) t = ((t, refl), refl)
  memory_call-cell_call r (get_or_set made) t = ((t, refl), refl)
  memory_call-cell_call r (update_and_get now fn) t =
      and_then-Alike Has (fn r.value) r (some r.value) _ _ (t, refl) (λ w. ((t, refl), refl))
  memory_call-cell_call r (update now fn) t =
      and_then-Alike Has (fn r.value) r (some r.value) _ _ (t, refl) (λ w. ((t, refl), refl))

  -- A Ref in memory without a time to live answers any calls the way a cell does that holds the initial
  -- value from the start.
  pub memory_answers :
      (cs : List (Call T))
      → answers memory_call (new_memory_ref initial 0) cs
        ≡ answers (cell_call initial) (some initial) cs
  memory_answers cs =
      answers-simulation memory_call (cell_call initial) Has
        (λ r c x h.
          subst (λ c. Alike Has (memory_call r x) (cell_call initial c x)) h.1
            (memory_call-cell_call r x h.0))
        (new_memory_ref initial 0) (some initial) cs (refl, refl)

module _ {T : Type 0} (touch : T → T → T) (initial : T) where
  -- The default is that of the cell as long as this is empty.
  abbrev Defaults : Option T × T → Option T → Type 0
  Defaults (none, d) c = (none ≡ c) × (d ≡ initial)
  Defaults (some v, d) c = some v ≡ c

  change-Defaults :
      (fn : T → Result T) (answer : T → Answer T) (s : Option T × T) (c : Option T)
      → Defaults s c
      → Alike Defaults
          (and_then
            (fn (start_from (λ d v. v) touch s))
            (touched (λ d v. v) touch s)
            (λ v. reply (some v, (touched (λ d v. v) touch s).1) (answer v)))
          (and_then (fn (content initial c)) c (λ v. reply (some v) (answer v)))
  change-Defaults fn answer (none, d) none (h, same) =
      subst
        (λ x.
          Alike Defaults (and_then (fn x) (none, d) (λ v. reply (some v, d) (answer v)))
            (and_then (fn initial) none (λ v. reply (some v) (answer v))))
        (sym same)
        (and_then-Alike Defaults (fn initial) (none, d) none _ _ (h, same) (λ v. (refl, refl)))
  change-Defaults fn answer (none, d) (some w) (h, same) = absurd (cc h)
  change-Defaults fn answer (some v, d) c h =
      subst
        (λ c.
          Alike Defaults
            (and_then (fn v) (some v, touch d v) (λ u. reply (some u, touch d v) (answer u)))
            (and_then (fn (content initial c)) c (λ u. reply (some u) (answer u))))
        h (and_then-Alike Defaults (fn v) (some v, touch d v) (some v) _ _ refl (λ u. (refl, refl)))

  merging_call-cell_call :
      (s : Option T × T) (c : Option T) (x : Call T)
      → Defaults s c
      → Alike Defaults (merging_call (λ d v. v) touch s x) (cell_call initial c x)
  merging_call-cell_call (none, d) none (get now) (h, same) = ((h, same), ap value_of same)
  merging_call-cell_call (none, d) none (get_or_set made) (h, same) =
      and_then-Alike Defaults made (none, d) none _ _ (h, same) (λ v. (refl, refl))
  merging_call-cell_call (none, d) (some w) (get now) (h, same) = absurd (cc h)
  merging_call-cell_call (none, d) (some w) (get_or_set made) (h, same) = absurd (cc h)
  merging_call-cell_call (some v, d) none (get now) h = absurd (cc h)
  merging_call-cell_call (some v, d) none (get_or_set made) h = absurd (cc h)
  merging_call-cell_call (some v, d) (some w) (get now) h = (h, ap (λ c. value_of (content d c)) h)
  merging_call-cell_call (some v, d) (some w) (get_or_set made) h =
      (h, ap (λ c. value_of (content d c)) h)
  merging_call-cell_call (c, d) e (set now v) h = (refl, refl)
  merging_call-cell_call s c (update_and_get now fn) h = change-Defaults fn value_of s c h
  merging_call-cell_call s c (update now fn) h = change-Defaults fn (λ v. finished) s c h

  -- When a merge is the content, the cell with a default is a plain cell.
  pub merging_answers :
      (cs : List (Call T))
      → answers (merging_call (λ d v. v) touch) (none, initial) cs
        ≡ answers (cell_call initial) none cs
  merging_answers cs =
      answers-simulation (merging_call (λ d v. v) touch) (cell_call initial) Defaults
        merging_call-cell_call (none, initial) none cs (refl, refl)
