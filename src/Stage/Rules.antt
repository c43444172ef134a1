-- ===== src/Stage/Rules.antt =====
-- Two rules for loops, used by every stage that buffers: what it sends and holds is what came in,
-- and what it sends satisfies a predicate whenever an invariant holds of its state.
use go_kitsune.Prelude.{
  ◌≡◌, refl, Bool, true, false, inl, inr, Bool-cases, List, [], ◌∷◌, ◌++◌, Option, none, some,
  flatten, length, leb, All, All-append, All-take, append_assoc, append-nil,
}
use go_kitsune.Stage.{
  Event, item, closed, signal, signal_closed, ctx_done, drain, End, returned, blocked, Action,
  continue, finish, Room, Loop, Trace, run, ideal, cut, react, perform_all, feed, contents,
}
use go_kitsune.Stage.Cut.{run_of_ideal, run-cut}

-- The parts of an action.
abbrev pub loops {ℓ κ} : {S : Type ℓ} {O : Type κ} → Action S O → Bool
loops (continue xs s) = true
loops (finish xs end) = false

abbrev pub sent {ℓ κ} : {S : Type ℓ} {O : Type κ} → Action S O → List O
sent (continue xs s) = xs
sent (finish xs end) = xs

abbrev pub left {ℓ κ μ} :
    {S : Type ℓ} {O : Type κ} {T : Type μ} → (S → List T) → Action S O → List T
left held (continue xs s) = held s
left held (finish xs end) = []

abbrev pub end_of {ℓ κ} : {S : Type ℓ} {O : Type κ} → Action S O → End
end_of (continue xs s) = blocked
end_of (finish xs end) = end

-- The loop goes on, and what it sent and still holds is `ys`.
abbrev pub Kept {ℓ κ} :
    {S : Type ℓ} {T : Type κ} → (S → List T) → Action S (List T) → List T → Type κ
Kept held a ys = (loops a ≡ true) × (flatten (sent a) ++ left held a ≡ ys)

-- The loop returns nil, and what it sent is `ys`.
abbrev pub Flushed {ℓ κ} : {S : Type ℓ} {T : Type κ} → Action S (List T) → List T → Type κ
Flushed a ys = (loops a ≡ false) × (flatten (sent a) ≡ ys) × (end_of a ≡ returned)

flatten-append {ℓ} :
    {A : Type ℓ} (xs ys : List (List A)) → flatten (xs ++ ys) ≡ flatten xs ++ flatten ys
unfolding flatten
flatten-append [] ys = refl
flatten-append (x ∷ xs) ys = rw (flatten-append xs ys, append_assoc)

-- A stage that groups its input: `held` is its buffer.
pub record Conserves {ℓ κ} {S : Type ℓ} {T : Type κ} (l : Loop S T (List T)) (held : S → List T)
    : Type (ℓ ⊔ κ) where
  pub endless_lem : (s : S) → l.finished s ≡ false
  pub item_kept : (s : S) (x : T) → Kept held (l.on_item s x) (held s ++ x ∷ [])
  pub signal_kept : (s : S) → Kept held (l.on_signal s) (held s)
  pub closed_flushed : (s : S) → Flushed (l.on_closed s) (held s)

module _ {ℓ κ} {S : Type ℓ} {T : Type κ} {l : Loop S T (List T)} {held : S → List T}
    (c : Conserves l held) where
  -- What a trace holds when all of `ys` came out of it.
  abbrev Delivers : Trace (List T) → List T → Type κ
  Delivers t ys = (flatten t.out ≡ ys) × (t.ending ≡ returned)

  perform-Kept :
      (a : Action S (List T)) (again : S → Trace (List T)) (ys zs : List T)
      → Kept held a ys
      → ((s : S) → Delivers (again s) (held s ++ zs))
      → Delivers (perform_all a again) (ys ++ zs)
  perform-Kept (continue xs s) again ys zs k h = (
    rw (flatten-append xs (again s).out, (h s).0, ← append_assoc (flatten xs) (held s) zs, k.1),
    (h s).1,
  )
  perform-Kept (finish xs end) again ys zs k h = absurd (cc k.0)

  perform-Flushed :
      (a : Action S (List T)) (again : S → Trace (List T)) (ys : List T)
      → Flushed a ys
      → Delivers (perform_all a again) ys
  perform-Flushed (continue xs s) again ys k = absurd (cc k.0)
  perform-Flushed (finish xs end) again ys k = (k.1, k.2)

  ideal-Delivers :
      (s : S) (fs : List (Option T)) (es : List (Event T))
      → Delivers (ideal l s (feed fs ++ closed ∷ es)) (held s ++ contents fs)
  unfolding ideal
  ideal-Delivers s [] es =
      rw (c.endless_lem s, append-nil)
        (perform-Flushed (l.on_closed s) _ (held s) (c.closed_flushed s))
  ideal-Delivers s (some x ∷ fs) es = rw (c.endless_lem s) (
      rw (append_assoc (held s) (x ∷ []) (contents fs)) at (
        perform-Kept (l.on_item s x) (λ s'. ideal l s' (feed fs ++ closed ∷ es)) (held s ++ x ∷ [])
          (contents fs) (c.item_kept s x) (λ s'. ideal-Delivers s' fs es)))
  ideal-Delivers s (none ∷ fs) es = rw (c.endless_lem s) (
      perform-Kept (l.on_signal s) _ (held s) (contents fs) (c.signal_kept s)
        (λ s'. ideal-Delivers s' fs es))

  -- Whatever the interleaving of items and signals, the groups put together are the items, in
  -- order, none lost and none twice; the stage returns nil, unless its sends are interrupted.
  pub run_delivers :
      (r : Room) (s : S) (fs : List (Option T)) (es : List (Event T))
      → (t : Trace (List T)) × (flatten t.out ≡ held s ++ contents fs)
        × (t.ending ≡ returned)
        × (run l r s (feed fs ++ closed ∷ es) ≡ cut l r t)
  run_delivers r s fs es =
      let (whole, ends) = ideal-Delivers s fs es in (_, whole, ends, run_of_ideal l r s _ refl)

-- What an action sends satisfies P, and if the loop goes on, its state satisfies I.
abbrev pub Good {ℓ κ μ ν} :
    {S : Type ℓ} {O : Type κ} → (S → Type μ) → (O → Type ν) → Action S O → Type (μ ⊔ ν)
Good I P (continue xs s) = All P xs × I s
Good I P (finish xs end) = All P xs × Unit {μ}

-- An invariant I of the states under which only outputs that satisfy P are sent.
pub record Maintains {ℓ κ μ ν ρ} {S : Type ℓ} {T : Type κ} {O : Type μ} (l : Loop S T O)
    (I : S → Type ν) (P : O → Type ρ) : Type (ℓ ⊔ κ ⊔ ν ⊔ ρ) where
  pub item_good : (s : S) (x : T) → I s → Good I P (l.on_item s x)
  pub closed_good : (s : S) → I s → Good I P (l.on_closed s)
  pub signal_good : (s : S) → I s → Good I P (l.on_signal s)
  pub signal_closed_good : (s : S) → I s → Good I P (l.on_signal_closed s)

module _ {ℓ κ μ ν ρ} {S : Type ℓ} {T : Type κ} {O : Type μ} {l : Loop S T O} {I : S → Type ν}
    {P : O → Type ρ} (m : Maintains l I P) where
  react-Good : (s : S) (e : Event T) → I s → Good I P (react l s e)
  react-Good s (item x) h = m.item_good s x h
  react-Good s closed h = m.closed_good s h
  react-Good s signal h = m.signal_good s h
  react-Good s signal_closed h = m.signal_closed_good s h
  react-Good s ctx_done h = (tt, tt)
  react-Good s drain h = (tt, tt)

  perform-Good :
      (a : Action S O) (again : S → Trace O)
      → Good I P a
      → ((s : S) → I s → All P (again s).out)
      → All P (perform_all a again).out
  perform-Good (continue xs s) again g h = All-append P xs (again s).out g.0 (h s g.1)
  perform-Good (finish xs end) again g h = g.0

  ideal_good : (s : S) (es : List (Event T)) → I s → All P (ideal l s es).out
  unfolding ideal
  ideal_good s [] h = tt
  ideal_good s (e ∷ es) h = elim (Bool-cases (l.finished s)) [
    | inl stop ↦ rw (stop, ideal) tt
    | inr go_on ↦
        rw (go_on, ideal)
          (perform-Good (react l s e) _ (react-Good s e h) (λ s' h'. ideal_good s' es h'))
  ]

  -- Whatever the events, and wherever the sends are interrupted, only such outputs are delivered.
  pub run_good : (r : Room) (s : S) (es : List (Event T)) → I s → All P (run l r s es).out
  unfolding cut
  run_good r s es h =
      rw (run-cut l r s es) (elim (Bool-cases (leb (length (ideal l s es).out) r.sends)) [
        | inl fits ↦ rw (fits, cut) (ideal_good s es h)
        | inr over ↦ rw (over, cut) (All-take P r.sends (ideal l s es).out (ideal_good s es h))
      ])
