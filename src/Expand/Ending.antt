-- ===== src/Expand/Ending.antt =====
-- ExpandMap of a pipeline ends within fuel that its cap gives, also when the pipelines do not end.
use go_kitsune.Prelude.{
  ℕ, zero, suc, ◌+◌, ◌≤◌, ◌<◌, ◌≡◌, refl, false, List, [], ◌∷◌, Option, none, some, length, All,
  arith, inl, inr, Bool-cases,
}
use go_kitsune.Keys.{Eq}
use go_kitsune.Errors.{Error}
use go_kitsune.Stage.{End, returned, ctx_err, failed}
use go_kitsune.Expand.{
  Source, ExpandConfig, Expansion, Visit, too_deep, visit_from, after_run_err, after_source,
  next_source, expand_from, expand_map,
}
use go_kitsune.Expand.Capped.{DeepOut, Once, Inv}
use go_kitsune.Expand.Prompt.{IsPrompt, Kept, Ran, visit_from-Ran, IsPrompt-Suffices}

module _ {T K : Type 0} ⦃e : Eq K⦄ (c : ExpandConfig T K) (fn : T → Option (Source T)) where
  -- A result, with what holds of its outputs: they keep to both caps and repeat no key.
  abbrev pub Capped : Option (Expansion T K × End) → Type 0
  Capped none = ⊥
  Capped (some (s, e)) =
      (length s.out ≤ c.max_items) × All (DeepOut c fn) s.out × Once c fn c.key_fn s.visited s.out

  Capped-Inv :
      (s : Expansion T K) (end : End) → 0 < c.max_items → Inv c fn s → Capped (some (s, end))
  Capped-Inv s end pos (l, m, o, q, k) =
      (let cap : s.emitted ≤ c.max_items = m pos in omega (arith, l, cap), o, k)

  Within-roots : (max : Option ℕ) → too_deep max 0 ≡ false
  Within-roots none = refl
  Within-roots (some max) = ground arith

  Once-first : (o : Option (T → K)) → Once c fn o [] []
  Once-first none = tt
  Once-first (some key) = λ k. omega arith

module _ {T K : Type 0} ⦃e : Eq K⦄ (c : ExpandConfig T K) (fn : T → Option (Source T))
    (steps : ℕ) where
  module _ (children : (x : T) (p : Source T) → fn x ≡ some p → IsPrompt c fn steps p)
      (pos : 0 < c.max_items) where
    Capped-error :
        (s : Expansion T K) (x : Option Error)
        (again : Expansion T K → Option (Expansion T K × End))
        → Inv c fn s
        → Capped c fn (again s)
        → Capped c fn (after_run_err c fn s x again)
    Capped-error s none again h g = g
    Capped-error s (some x) again h g = Capped-Inv c fn s (failed x) pos h

    Capped-after :
        (n : ℕ) (o : Option (Visit T K)) (x : Option Error)
        (again : Expansion T K → Option (Expansion T K × End))
        → Ran c fn steps children pos n o
        → ((s : Expansion T K) → Kept c fn steps children pos n s → Capped c fn (again s))
        → Capped c fn (after_source c fn o x again)
    Capped-after n none x again h next = absurd h
    Capped-after n (some v) x again h next =
        let s = record (v.state) { runs = v.state.runs + 1 } in
        elim (Bool-cases v.send_err) [
          | inl unsent ↦ rw unsent (Capped-Inv c fn s ctx_err pos h.0)
          | inr sent ↦ rw sent (elim (Bool-cases v.limit_hit) [
            | inl hit ↦ rw hit (Capped-Inv c fn s returned pos h.0)
            | inr below ↦ rw below (elim (Bool-cases (c.ctx_ended v.state.runs)) [
              | inl over ↦ rw over (Capped-Inv c fn s ctx_err pos h.0)
              | inr live ↦ rw live (Capped-error s x again h.0 (next s h))
            ])
          ])
        ]

    Capped-next :
        (n : ℕ) (s : Expansion T K) (queue : List (Source T × ℕ))
        (again : Expansion T K → Option (Expansion T K × End))
        → Kept c fn steps children pos (suc n) (record s { queue = queue })
        → ((s : Expansion T K) → Kept c fn steps children pos n s → Capped c fn (again s))
        → Capped c fn (next_source c fn steps s queue again)
    unfolding next_source
    Capped-next n s [] again (h, r, prompt) next =
        Capped-Inv c fn (record s { queue = [] }) returned pos h
    Capped-next n s ((p, depth) ∷ queue) again ((l, m, o, q, k), r, prompt) next =
        let t = record s { queue = queue } in
        Capped-after n
          (visit_from c fn steps depth p 0 p.late
            (record { state = t; send_err = false; limit_hit = false }))
          p.run_err again
          (visit_from-Ran c fn steps children pos n steps depth 0 p.late p _ q.0
            ((l, m, o, q.1, k), omega (arith, r), prompt.1)
            (IsPrompt-Suffices c fn steps children pos p t prompt.0))
          next

    Capped-from :
        (n : ℕ) (s : Expansion T K)
        → Kept c fn steps children pos n s
        → Capped c fn (expand_from c fn steps n s)
    unfolding expand_from
    Capped-from zero s ((l, m, o, q, k), r, prompt) =
        let cap : s.emitted ≤ c.max_items = m pos in absurd (omega (arith, cap, r))
    Capped-from (suc n) s h =
        Capped-next n s s.queue (λ s. expand_from c fn steps n s) h (λ s h. Capped-from n s h)

  -- ExpandMap with a positive MaxItems, on a pipeline and children each of which ends within `steps`
  -- items, or, without VisitedBy, each of which may also go on for ever, when its run stops some items
  -- after cancel() and `steps` leaves room for these and for MaxItems. With fuel of at least two more
  -- than MaxItems it gives a result, whichever sends find a reader and wherever the context ends. It has
  -- at most as many outputs as the cap, none of them below MaxDepth, and with VisitedBy no two of them
  -- have the same key.
  pub expand_map-ends :
      (fuel : ℕ) (p : Source T)
      → 0 < c.max_items
      → c.max_items + 1 < fuel
      → IsPrompt c fn steps p
      → ((x : T) (child : Source T) → fn x ≡ some child → IsPrompt c fn steps child)
      → Capped c fn (expand_map c fn steps fuel p)
  unfolding expand_map
  expand_map-ends fuel p pos enough prompt children = Capped-from children pos fuel _ (
    (refl, (λ _. omega arith), tt, (Within-roots c fn c.max_depth, tt), Once-first c fn c.key_fn),
    omega (arith, enough),
    (prompt, tt),
  )
