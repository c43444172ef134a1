-- ===== src/Expand/Capped.antt =====
-- What each visit of an ExpandMap keeps: the caps, and each key once.
use go_kitsune.Prelude.{
  ℕ, suc, ◌+◌, ◌≤◌, ◌<◌, ◌≡◌, true, false, ◌&&◌, List, [], ◌∷◌, ◌++◌, Option, none, some, ltb, leb,
  if◌then◌else◌, length, length-append, All, All-append, arith, Bool-cases, inl, inr, subst, ◌||◌,
}
use go_kitsune.Keys.{Eq, ◌==◌, member}
use go_kitsune.Expand.{
  Source, ExpandConfig, Expansion, Visit, too_deep, is_dup, add_key, enqueue, emit_item, visit_item,
}

module _ {T K : Type 0} ⦃e : Eq K⦄ (c : ExpandConfig T K) (fn : T → Option (Source T)) where
  abbrev pub added : Expansion T K → T → Expansion T K
  added s x = record s { visited = add_key c fn c.key_fn s.visited x }

  -- The cases of the callback.
  pub visit_item-cases :
      (P : Visit T K → Type 0) (depth : ℕ) (v : Visit T K) (x : T)
      → (is_dup c fn c.key_fn v.state.visited x ≡ true → P v)
      → P (record v { state = added v.state x; limit_hit = true })
      → P (record v {
        state = record (added v.state x) { sends = v.state.sends + 1 };
        send_err = true;
      })
      → (is_dup c fn c.key_fn v.state.visited x ≡ false
          → (ltb 0 c.max_items && leb c.max_items v.state.emitted) ≡ false
          → P (record v { state = emit_item c fn depth v.state x }))
      → P (visit_item c fn depth v x)
  unfolding visit_item
  visit_item-cases P depth v x dup limit unsent emitted =
      elim (Bool-cases (is_dup c fn c.key_fn v.state.visited x)) [
        | inl y ↦ rw y (dup y)
        | inr n ↦ rw n (elim (Bool-cases (ltb 0 c.max_items && leb c.max_items v.state.emitted)) [
          | inl full ↦ rw full limit
          | inr roomy ↦ rw roomy (elim (Bool-cases (c.finds_reader v.state.sends)) [
            | inl free ↦ rw free (emitted n roomy)
            | inr stuck ↦ rw stuck unsent
          ])
        ])
      ]

  -- An output that is within the caps, with the queue.
  abbrev pub Within : ℕ → Type 0
  Within depth = too_deep c.max_depth depth ≡ false

  abbrev pub DeepOut : T × ℕ → Type 0
  DeepOut y = Within y.1

  abbrev pub DeepQueue : Source T × ℕ → Type 0
  DeepQueue y = Within y.1

  -- How often a key was emitted.
  abbrev pub times : (T → K) → K → List (T × ℕ) → ℕ
  times key k [] = 0
  times key k ((x, depth) ∷ ys) = if key x == k then suc (times key k ys) else times key k ys

  abbrev pub Once : Option (T → K) → List K → List (T × ℕ) → Type 0
  Once none visited out = Unit
  Once (some key) visited out = (k : K) → times key k out ≤ (if member k visited then 1 else 0)

  times-append :
      (key : T → K) (k : K) (xs ys : List (T × ℕ))
      → times key k (xs ++ ys) ≡ times key k xs + times key k ys
  times-append key k [] ys = omega arith
  times-append key k ((x, depth) ∷ xs) ys = ground (arith, times-append key k xs ys)

  abbrev pub Inv : Expansion T K → Type 0
  Inv s =
      (length s.out ≡ s.emitted)
      × (0 < c.max_items → s.emitted ≤ c.max_items)
      × All DeepOut s.out
      × All DeepQueue s.queue
      × Once c.key_fn s.visited s.out

  Once-added :
      (o : Option (T → K)) (s : Expansion T K) (x : T)
      → Once o s.visited s.out
      → Once o (add_key c fn o s.visited x) s.out
  Once-added none s x h = tt
  Once-added (some key) s x h = λ k. ground (arith, h k)

  -- A key that was not visited was not emitted.
  times-unseen :
      (key : T → K) (s : Expansion T K) (x : T) (k : K)
      → member (key x) s.visited ≡ false
      → times key (key x) s.out ≤ (if member (key x) s.visited then 1 else 0)
      → key x ≡ k
      → times key k s.out ≡ 0
  times-unseen key s x k d h same = subst (λ j. times key j s.out ≡ 0) same (ground (arith, d, h))

  Once-times :
      (key : T → K) (depth : ℕ) (s : Expansion T K) (x : T) (k : K)
      → member (key x) s.visited ≡ false
      → ((k : K) → times key k s.out ≤ (if member k s.visited then 1 else 0))
      → times key k (s.out ++ (x, depth) ∷ []) ≤ (if key x == k || member k s.visited then 1 else 0)
  Once-times key depth s x k d h = ground (
    arith,
    times-append key k s.out ((x, depth) ∷ []),
    times-unseen key s x k d (h (key x)),
    e.beq_iff (key x) k,
    h k,
  )

  Once-emitted :
      (o : Option (T → K)) (depth : ℕ) (s : Expansion T K) (x : T)
      → is_dup c fn o s.visited x ≡ false
      → Once o s.visited s.out
      → Once o (add_key c fn o s.visited x) (s.out ++ (x, depth) ∷ [])
  Once-emitted none depth s x d h = tt
  Once-emitted (some key) depth s x d h = λ k. Once-times key depth s x k d h

  Deep-enqueue :
      (queue : List (Source T × ℕ)) (child : Option (Source T)) (depth : ℕ)
      → All DeepQueue queue
      → All DeepQueue (enqueue c fn queue child depth)
  Deep-enqueue queue none depth h = h
  Deep-enqueue queue (some p) depth h = elim (Bool-cases (too_deep c.max_depth depth)) [
    | inl y ↦ rw y h
    | inr n ↦ rw n (All-append DeepQueue queue ((p, depth) ∷ []) h (n, tt))
  ]

  Inv-emitted :
      (depth : ℕ) (s : Expansion T K) (x : T)
      → Within depth
      → is_dup c fn c.key_fn s.visited x ≡ false
      → (ltb 0 c.max_items && leb c.max_items s.emitted) ≡ false
      → Inv s
      → Inv (emit_item c fn depth s x)
  Inv-emitted depth s x w d r (l, m, o, q, k) = (
    length_out,
    (λ pos. ground (arith, r, m pos)),
    All-append DeepOut s.out ((x, depth) ∷ []) o (w, tt),
    Deep-enqueue s.queue (fn x) (depth + 1) q,
    Once-emitted c.key_fn depth s x d k,
  )
    where
      length_out : length (s.out ++ (x, depth) ∷ []) ≡ s.emitted + 1
      length_out = ground (arith, length-append s.out ((x, depth) ∷ []), l)

  Inv-added : (s : Expansion T K) (x : T) → Inv s → Inv (added s x)
  Inv-added s x (l, m, o, q, k) = (l, m, o, q, Once-added c.key_fn s x k)

  pub visit_item-Inv :
      (depth : ℕ) (v : Visit T K) (x : T)
      → Within depth
      → Inv v.state
      → Inv (visit_item c fn depth v x).state
  visit_item-Inv depth v x w h =
      visit_item-cases (λ v. Inv v.state) depth v x (λ _. h) (Inv-added v.state x h)
        (Inv-added v.state x h) (λ d r. Inv-emitted depth v.state x w d r h)
