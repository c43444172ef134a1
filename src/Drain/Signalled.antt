-- ===== src/Drain/Signalled.antt =====
-- What signals do to the entry of a stage.
use go_kitsune.Prelude.{
  ℕ, zero, suc, ◌+◌, ◌-◌, ◌^◌, ◌≤◌, ◌<◌, ◌≡◌, refl, ◌∙◌, Bool, true, false, List, [], ◌∷◌, length,
  Option, none, some, leb, ◌==◌, max, get_elem?, set, arith, if◌then◌else◌, ==_iff, Bool-cases, inl,
  inr,
}
use go_kitsune.Keys.{lookup, nat_key}
use go_kitsune.Drain.{
  DrainEntry, RunCtx, new_entry, signal_entry, signal_at, signal_found, signal_drain, signals,
}

-- An entry after k signals.
abbrev pub signalled : ℕ → DrainEntry → DrainEntry
signalled zero e = e
signalled (suc k) e = signalled k (signal_entry e)

-- The entry of m consumers after k signals, in closed form.
abbrev pub entry_of : ℕ → ℕ → DrainEntry
entry_of m k = record {
  refs = if leb k m then m - k else 2 ^ 32 - (k - m);
  closes = if leb m k then 1 else 0;
}

refs-signal_entry :
    (m k : ℕ)
    → m < 2 ^ 32
    → k < 2 ^ 32
    → (signal_entry (entry_of m k)).refs ≡ (entry_of m (suc k)).refs
refs-signal_entry m k hm hk = ground arith

closes-signal_entry :
    (m k : ℕ)
    → 1 ≤ m
    → m < 2 ^ 32
    → k < 2 ^ 32
    → (signal_entry (entry_of m k)).closes ≡ (entry_of m (suc k)).closes
closes-signal_entry m k h1 hm hk = ground arith

entry-ext : {a b : DrainEntry} → a.refs ≡ b.refs → a.closes ≡ b.closes → a ≡ b
entry-ext {a} {b} p q = λ i. record { refs = p i; closes = q i }

pub signalled-entry_of :
    (m k j : ℕ)
    → 1 ≤ m
    → m < 2 ^ 32
    → j + k ≤ 2 ^ 32
    → signalled j (entry_of m k) ≡ entry_of m (j + k)
signalled-entry_of m k zero h1 hm hk = let e : 0 + k ≡ k = omega arith in rw e
signalled-entry_of m k (suc j) h1 hm hk =
    let step : signal_entry (entry_of m k) ≡ entry_of m (suc k) =
      entry-ext (refs-signal_entry m k hm (omega (arith, hk)))
        (closes-signal_entry m k h1 hm (omega (arith, hk))) in
    let e : suc j + k ≡ j + suc k = omega arith in
    rw (step, e) (signalled-entry_of m (suc k) j h1 hm (omega (arith, hk)))

-- Whether an output has the entry at t.
abbrev pub points : ℕ → Option ℕ → Bool
points t none = false
points t (some at) = at == t

-- A new entry has had no signal.
pub new-entry_of : (n : ℕ) → new_entry n ≡ entry_of (max 1 n) 0
new-entry_of n = entry-ext (ground arith) (ground arith)

-- How many of the signals are for the entry at t.
abbrev pub hits : ℕ → List (ℕ × ℕ) → List ℕ → ℕ
hits t m [] = 0
hits t m (id ∷ ids) = if points t (lookup id m) then suc (hits t m ids) else hits t m ids

pub hits-le : (t : ℕ) (m : List (ℕ × ℕ)) (ids : List ℕ) → hits t m ids ≤ length ids
hits-le t m [] = omega arith
hits-le t m (id ∷ ids) = ground (arith, hits-le t m ids)

get-set_same :
    (es : List DrainEntry) (t : ℕ) (e new : DrainEntry)
    → get_elem? es t ≡ some e
    → get_elem? (set es t new) t ≡ some new
get-set_same [] t e new h = absurd (cc h)
get-set_same (x ∷ es) zero e new h = refl
get-set_same (x ∷ es) (suc t) e new h = get-set_same es t e new h

get-set_other :
    (es : List DrainEntry) (at t : ℕ) (new : DrainEntry)
    → (at == t) ≡ false
    → get_elem? (set es at new) t ≡ get_elem? es t
get-set_other [] at t new h = refl
get-set_other (x ∷ es) zero zero new h = absurd (cc h)
get-set_other (x ∷ es) zero (suc t) new h = refl
get-set_other (x ∷ es) (suc at) zero new h = refl
get-set_other (x ∷ es) (suc at) (suc t) new h = get-set_other es at t new (ground (arith, h))

get-signal_other :
    (es : List DrainEntry) (at t : ℕ) (o : Option DrainEntry)
    → (at == t) ≡ false
    → get_elem? (signal_at es at o) t ≡ get_elem? es t
get-signal_other es at t none h = refl
get-signal_other es at t (some e) h = get-set_other es at t (signal_entry e) h

-- A signal changes the entry that its output has, and no other.
get-signal_hit :
    (es : List DrainEntry) (t : ℕ) (o : Option ℕ) (e : DrainEntry)
    → points t o ≡ true
    → get_elem? es t ≡ some e
    → get_elem? (signal_found es o) t ≡ some (signal_entry e)
get-signal_hit es t none e p h = absurd (cc p)
get-signal_hit es t (some at) e p h =
    let same : at ≡ t = (==_iff at t).0 p in rw (same, h) (get-set_same es t e (signal_entry e) h)

get-signal_miss :
    (es : List DrainEntry) (t : ℕ) (o : Option ℕ)
    → points t o ≡ false
    → get_elem? (signal_found es o) t ≡ get_elem? es t
get-signal_miss es t none p = refl
get-signal_miss es t (some at) p = get-signal_other es at t (get_elem? es at) p

pub get-signals :
    (rc : RunCtx) (t : ℕ) (e : DrainEntry) (ids : List ℕ)
    → get_elem? rc.entries t ≡ some e
    → get_elem? (signals rc ids).entries t ≡ some (signalled (hits t rc.drain_notify ids) e)
unfolding signal_drain
get-signals rc t e [] h = h
get-signals rc t e (id ∷ ids) h = elim (Bool-cases (points t (lookup id rc.drain_notify))) [
  | inl y ↦ rw y (
      get-signals (signal_drain rc id) t (signal_entry e) ids
        (get-signal_hit rc.entries t (lookup id rc.drain_notify) e y h))
  | inr n ↦ rw n (
      get-signals (signal_drain rc id) t e ids
        (get-signal_miss rc.entries t (lookup id rc.drain_notify) n ∙ h))
]

pub drain_notify-signals :
    (rc : RunCtx) (ids : List ℕ) → (signals rc ids).drain_notify ≡ rc.drain_notify
unfolding signal_drain
drain_notify-signals rc [] = refl
drain_notify-signals rc (id ∷ ids) = drain_notify-signals (signal_drain rc id) ids
