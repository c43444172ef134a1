-- ===== src/Outbox/Conserved.antt =====
-- What every interleaving of the workers and the reader keeps.
use go_kitsune.Prelude.{
  subst, ltb→lt, ℕ, zero, suc, ◌+◌, ◌≤◌, ◌≡◌, refl, sym, ap, Bool, true, false, List, [], ◌∷◌, ◌++◌,
  length, length-append, set, Option, none, some, inl, inr, Bool-cases, arith, get_elem?,
  if◌then◌else◌, not,
}
use go_kitsune.Outbox.{
  Wire, Phase, idle, fast, waiting, locked, evicting, resending, System, Pick, call, advance,
  receive, has_room, push, discard, evict_from, read_from, called, advanced, held, step_of, pick,
  schedule, idle_workers, new_system,
}

-- A step that sends if the channel has room, by its two cases.
on_room {ℓ} :
    {T : Type ℓ} (P : Wire T × Phase T → Type 0) (w : Wire T) (x : T) (other : Wire T × Phase T)
    → (has_room w ≡ true → P (push w x, idle))
    → (has_room w ≡ false → P other)
    → P (if has_room w then (push w x, idle) else other)
on_room P w x other sends waits = elim (Bool-cases (has_room w)) [
  | inl room ↦ rw (room) (sends room)
  | inr full ↦ rw (full) (waits full)
]

module _ {ℓ} {T : Type ℓ} (p : T → Bool) where
  -- How many items satisfy p.
  abbrev pub count : List T → ℕ
  count [] = 0
  count (x ∷ xs) = if p x then suc (count xs) else count xs

  pub count-append : (xs ys : List T) → count (xs ++ ys) ≡ count xs + count ys
  count-append [] ys = omega arith
  count-append (x ∷ xs) ys = ground (arith, count-append xs ys)

  -- The items that the workers hold.
  abbrev pub carried : Phase T → ℕ
  carried idle = 0
  carried (fast x) = count (x ∷ [])
  carried (waiting x) = count (x ∷ [])
  carried (locked x) = count (x ∷ [])
  carried (evicting x) = count (x ∷ [])
  carried (resending x) = count (x ∷ [])

  abbrev pub in_flight : List (Phase T) → ℕ
  in_flight [] = 0
  in_flight (q ∷ qs) = carried q + in_flight qs

  in_flight-set :
      (qs : List (Phase T)) (i : ℕ) (old new : Phase T)
      → get_elem? qs i ≡ some old
      → in_flight (set qs i new) + carried old ≡ in_flight qs + carried new
  in_flight-set [] i old new h = absurd (cc h)
  in_flight-set (q ∷ qs) zero old new h = let e : q ≡ old = cc h in rw (← e) (omega arith)
  in_flight-set (q ∷ qs) (suc i) old new h = omega (arith, in_flight-set qs i old new h)

  -- Everything on the wire.
  abbrev pub on_wire : Wire T → ℕ
  on_wire w = count w.taken + count w.buf + count w.dropped

  push-on_wire : (w : Wire T) (x : T) → on_wire (push w x) ≡ on_wire w + count (x ∷ [])
  push-on_wire w x = omega (arith, count-append w.buf (x ∷ []))

  discard-on_wire : (w : Wire T) (x : T) → on_wire (discard w x) ≡ on_wire w + count (x ∷ [])
  discard-on_wire w x = omega (arith, count-append w.dropped (x ∷ []))

  evict-on_wire : (w : Wire T) (buf : List T) → w.buf ≡ buf → on_wire (evict_from w buf) ≡ on_wire w
  evict-on_wire w [] h = refl
  evict-on_wire w (old ∷ rest) h = ground (arith, ap count h, count-append w.dropped (old ∷ []))

  read-on_wire : (w : Wire T) (buf : List T) → w.buf ≡ buf → on_wire (read_from w buf) ≡ on_wire w
  read-on_wire w [] h = refl
  read-on_wire w (x ∷ rest) h = ground (arith, ap count h, count-append w.taken (x ∷ []))

  step_of-on_wire :
      (free : Bool) (w : Wire T) (q : Phase T)
      → on_wire (step_of free w q).0 + carried (step_of free w q).1 ≡ on_wire w + carried q
  unfolding step_of
  step_of-on_wire free w idle = refl
  step_of-on_wire free w (fast x) =
      on_room (λ r. on_wire r.0 + carried r.1 ≡ on_wire w + count (x ∷ [])) w x _
        (λ room. omega (arith, push-on_wire w x)) (λ full. refl)
  step_of-on_wire true w (waiting x) = refl
  step_of-on_wire false w (waiting x) = refl
  step_of-on_wire free w (locked x) =
      on_room (λ r. on_wire r.0 + carried r.1 ≡ on_wire w + count (x ∷ [])) w x _
        (λ room. omega (arith, push-on_wire w x)) (λ full. refl)
  step_of-on_wire free w (evicting x) = omega (arith, evict-on_wire w w.buf refl)
  step_of-on_wire free w (resending x) =
      on_room (λ r. on_wire r.0 + carried r.1 ≡ on_wire w + count (x ∷ [])) w x _
        (λ room. omega (arith, push-on_wire w x)) (λ full. omega (arith, discard-on_wire w x))

  -- Every item that a Send was called with is taken, buffered, dropped or in the hands of a worker.
  abbrev Balanced : System T → Type 0
  Balanced s = on_wire s.wire + in_flight s.phases ≡ count s.started

  called-Balanced :
      (s : System T) (i : ℕ) (x : T) (q : Option (Phase T))
      → get_elem? s.phases i ≡ q
      → Balanced s
      → Balanced (called s i x q)
  called-Balanced s i x (some idle) h b =
      omega (arith, b, in_flight-set s.phases i idle (fast x) h, count-append s.started (x ∷ []))
  called-Balanced s i x none h b = b
  called-Balanced s i x (some (fast y)) h b = b
  called-Balanced s i x (some (waiting y)) h b = b
  called-Balanced s i x (some (locked y)) h b = b
  called-Balanced s i x (some (evicting y)) h b = b
  called-Balanced s i x (some (resending y)) h b = b

  advanced-Balanced :
      (shard : ℕ → ℕ) (s : System T) (i : ℕ) (q : Option (Phase T))
      → get_elem? s.phases i ≡ q
      → Balanced s
      → Balanced (advanced shard s i q)
  advanced-Balanced shard s i none h b = b
  advanced-Balanced shard s i (some q) h b =
      let free = not (held shard (shard i) 0 s.phases) in
      omega (
        arith,
        b,
        step_of-on_wire free s.wire q,
        in_flight-set s.phases i q (step_of free s.wire q).1 h,
      )

  pick-Balanced :
      (shard : ℕ → ℕ) (s : System T) (c : Pick T) → Balanced s → Balanced (pick shard s c)
  unfolding pick
  pick-Balanced shard s (call i x) b = called-Balanced s i x (get_elem? s.phases i) refl b
  pick-Balanced shard s (advance i) b = advanced-Balanced shard s i (get_elem? s.phases i) refl b
  pick-Balanced shard s receive b = omega (arith, b, read-on_wire s.wire s.wire.buf refl)

  schedule-Balanced :
      (shard : ℕ → ℕ) (s : System T) (cs : List (Pick T))
      → Balanced s
      → Balanced (schedule shard s cs)
  unfolding schedule
  schedule-Balanced shard s [] b = b
  schedule-Balanced shard s (c ∷ cs) b =
      schedule-Balanced shard (pick shard s c) cs (pick-Balanced shard s c b)

  in_flight-idle_workers : (n : ℕ) → in_flight (idle_workers n) ≡ 0
  in_flight-idle_workers zero = refl
  in_flight-idle_workers (suc n) = omega (arith, in_flight-idle_workers n)

module _ {ℓ} {T : Type ℓ} where
  -- The channel holds no more than its capacity, which never changes.
  abbrev Fits : ℕ → Wire T → Type 0
  Fits cap w = (w.cap ≡ cap) × (length w.buf ≤ cap)

  push-Fits : (cap : ℕ) (w : Wire T) (x : T) → has_room w ≡ true → Fits cap w → Fits cap (push w x)
  push-Fits cap w x room f =
      let e = ltb→lt (length w.buf) w.cap room in
      (f.0, rw (length-append w.buf (x ∷ [])) (omega (arith, f.0, e)))

  evict-Fits :
      (cap : ℕ) (w : Wire T) (buf : List T) → w.buf ≡ buf → Fits cap w → Fits cap (evict_from w buf)
  evict-Fits cap w [] h f = f
  evict-Fits cap w (old ∷ rest) h f =
      let e : length w.buf ≡ suc (length rest) = ap length h in (f.0, omega (arith, f.1, e))

  read-Fits :
      (cap : ℕ) (w : Wire T) (buf : List T) → w.buf ≡ buf → Fits cap w → Fits cap (read_from w buf)
  read-Fits cap w [] h f = f
  read-Fits cap w (x ∷ rest) h f =
      let e : length w.buf ≡ suc (length rest) = ap length h in (f.0, omega (arith, f.1, e))

  step_of-Fits :
      (cap : ℕ) (free : Bool) (w : Wire T) (q : Phase T)
      → Fits cap w
      → Fits cap (step_of free w q).0
  unfolding step_of
  step_of-Fits cap free w idle f = f
  step_of-Fits cap free w (fast x) f =
      on_room (λ r. Fits cap r.0) w x _ (λ room. push-Fits cap w x room f) (λ full. f)
  step_of-Fits cap true w (waiting x) f = f
  step_of-Fits cap false w (waiting x) f = f
  step_of-Fits cap free w (locked x) f =
      on_room (λ r. Fits cap r.0) w x _ (λ room. push-Fits cap w x room f) (λ full. f)
  step_of-Fits cap free w (evicting x) f = evict-Fits cap w w.buf refl f
  step_of-Fits cap free w (resending x) f =
      on_room (λ r. Fits cap r.0) w x _ (λ room. push-Fits cap w x room f) (λ full. f)

  called-wire :
      (s : System T) (i : ℕ) (x : T) (q : Option (Phase T)) → (called s i x q).wire ≡ s.wire
  called-wire s i x none = refl
  called-wire s i x (some idle) = refl
  called-wire s i x (some (fast y)) = refl
  called-wire s i x (some (waiting y)) = refl
  called-wire s i x (some (locked y)) = refl
  called-wire s i x (some (evicting y)) = refl
  called-wire s i x (some (resending y)) = refl

  advanced-Fits :
      (cap : ℕ) (shard : ℕ → ℕ) (s : System T) (i : ℕ) (q : Option (Phase T))
      → Fits cap s.wire
      → Fits cap (advanced shard s i q).wire
  advanced-Fits cap shard s i none f = f
  advanced-Fits cap shard s i (some q) f = step_of-Fits cap _ s.wire q f

  pick-Fits :
      (cap : ℕ) (shard : ℕ → ℕ) (s : System T) (c : Pick T)
      → Fits cap s.wire
      → Fits cap (pick shard s c).wire
  unfolding pick
  pick-Fits cap shard s (call i x) f =
      subst (Fits cap) (sym (called-wire s i x (get_elem? s.phases i))) f
  pick-Fits cap shard s (advance i) f = advanced-Fits cap shard s i (get_elem? s.phases i) f
  pick-Fits cap shard s receive f = read-Fits cap s.wire s.wire.buf refl f

  schedule-Fits :
      (cap : ℕ) (shard : ℕ → ℕ) (s : System T) (cs : List (Pick T))
      → Fits cap s.wire
      → Fits cap (schedule shard s cs).wire
  unfolding schedule
  schedule-Fits cap shard s [] f = f
  schedule-Fits cap shard s (c ∷ cs) f =
      schedule-Fits cap shard (pick shard s c) cs (pick-Fits cap shard s c f)

  -- The drop-oldest outboxes with any number of workers, any sharding of the mutexes and any
  -- interleaving with the reader: the channel never holds more than its capacity, and for any
  -- predicate, the items with it that Sends were called with are, counted, those that the reader took,
  -- those in the channel, those dropped and those still in a Send: nothing is lost or made twice.
  pub schedule-conserves :
      (p : T → Bool) (cap n : ℕ) (shard : ℕ → ℕ) (cs : List (Pick T))
      → let s = schedule shard (new_system cap n) cs in
        (length s.wire.buf ≤ cap)
        × (count p s.wire.taken + count p s.wire.buf + count p s.wire.dropped + in_flight p s.phases
            ≡ count p s.started)
  schedule-conserves p cap n shard cs = (
    (schedule-Fits cap shard (new_system cap n) cs (refl, omega arith)).1,
    schedule-Balanced p shard (new_system cap n) cs (omega (arith, in_flight-idle_workers p n)),
  )
