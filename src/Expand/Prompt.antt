-- ===== src/Expand/Prompt.antt =====
-- A run of a pipeline under ExpandMap ends, also when the pipeline does not.
use go_kitsune.Prelude.{
  ℕ, zero, suc, ◌+◌, ◌≤◌, ◌<◌, ◌≡◌, refl, sym, ap, ◌∙◌, subst, dec_lt, ◌||◌, Bool, true, false,
  List, [], ◌∷◌, Option, none, some, length, length-append, All, All-append, arith, inl, inr, ◌⊎◌,
  Bool-cases,
}
use go_kitsune.Keys.{Eq}
use go_kitsune.Expand.{
  Source, ExpandConfig, Expansion, Visit, is_cancelled, take_next, too_deep, is_dup, enqueue,
  visit_item, visit_from,
}
use go_kitsune.Expand.Capped.{visit_item-cases, Within, Inv, visit_item-Inv}

module _ {T K : Type 0} ⦃e : Eq K⦄ (c : ExpandConfig T K) (fn : T → Option (Source T))
    (steps : ℕ) where
  -- `steps` items are enough for a run of the pipeline: it is over by then, or, without VisitedBy, it
  -- may go on for ever, and MaxItems and the items that come after cancel() leave room.
  abbrev pub IsPrompt : Source T → Type 0
  IsPrompt p =
      ((n : ℕ) × (n < steps) × (p.items n ≡ none))
      ⊎ ((c.key_fn ≡ none) × (p.late + c.max_items + 1 < steps))

  abbrev pub PromptQueue : List (Source T × ℕ) → Type 0
  PromptQueue = All (λ y. IsPrompt y.0)

  module _ (children : (x : T) (p : Source T) → fn x ≡ some p → IsPrompt p)
      (pos : 0 < c.max_items) where
    -- The fuel `n` is enough for the queue and for the items that the cap still admits.
    abbrev pub Enough : ℕ → Expansion T K → Type 0
    Enough n s = length s.queue + c.max_items < n + s.emitted

    -- What the callback keeps.
    abbrev pub Kept : ℕ → Expansion T K → Type 0
    Kept n s = Inv c fn s × Enough n s × PromptQueue s.queue

    PromptQueue-enqueue :
        (queue : List (Source T × ℕ)) (child : Option (Source T)) (depth : ℕ)
        → ((p : Source T) → child ≡ some p → IsPrompt p)
        → PromptQueue queue
        → PromptQueue (enqueue c fn queue child depth)
          × (length (enqueue c fn queue child depth) ≤ length queue + 1)
    PromptQueue-enqueue queue none depth each h = (h, omega arith)
    PromptQueue-enqueue queue (some p) depth each h =
        elim (Bool-cases (too_deep c.max_depth depth)) [
          | inl y ↦ rw y (h, omega arith)
          | inr n ↦ rw n (
            All-append (λ y. IsPrompt y.0) queue ((p, depth) ∷ []) h (each p refl, tt),
            omega (arith, length-append queue ((p, depth) ∷ [])),
          )
        ]

    visit_item-Kept :
        (n depth : ℕ) (v : Visit T K) (x : T)
        → Within c fn depth
        → Kept n v.state
        → Kept n (visit_item c fn depth v x).state
    visit_item-Kept n depth v x w (h, r, q) =
        let grown = PromptQueue-enqueue v.state.queue (fn x) (depth + 1) (children x) q in
        (
          visit_item-Inv c fn depth v x w h,
          visit_item-cases c fn (λ v. Enough n v.state) depth v x (λ _. r) r r
              (λ _ _. let le = grown.1 in omega (arith, le, r)),
          visit_item-cases c fn (λ v. PromptQueue v.state.queue) depth v x (λ _. q) q q
              (λ _ _. grown.0),
        )

    -- Room for the late items of a run that is cancelled, or for what may come before that.
    abbrev pub Rest : ℕ → ℕ → Bool → ℕ → Type 0
    Rest fuel late true emitted = late < fuel
    Rest fuel late false emitted = late + c.max_items + 1 < fuel + emitted

    -- The fuel that is left is enough for the run, of which `late` items still come after cancel().
    abbrev pub Suffices : ℕ → Source T → ℕ → ℕ → Visit T K → Type 0
    Suffices fuel p n late v =
        ((m : ℕ) × (n ≤ m) × (m < n + fuel) × (p.items m ≡ none))
        ⊎ ((c.key_fn ≡ none) × Rest fuel late (is_cancelled v) v.state.emitted)

    or_true : (b : Bool) → (b || true) ≡ true
    or_true true = refl
    or_true false = refl

    is_dup-none :
        (o : Option (T → K)) (visited : List K) (x : T) → o ≡ none → is_dup c fn o visited x ≡ false
    is_dup-none none visited x h = refl
    is_dup-none (some key) visited x h = absurd (cc h)

    -- Without VisitedBy an item is emitted, or it cancels the run.
    Rest-visit_item :
        (fuel late depth : ℕ) (v : Visit T K) (x : T)
        → c.key_fn ≡ none
        → v.state.emitted ≤ c.max_items
        → is_cancelled v ≡ false
        → Rest (suc fuel) late false v.state.emitted
        → Rest fuel late
            (is_cancelled (visit_item c fn depth v x))
            (visit_item c fn depth v x).state.emitted
    Rest-visit_item fuel late depth v x keyless most alive h =
        visit_item-cases c fn (λ w. Rest fuel late (is_cancelled w) w.state.emitted) depth v x
          (λ dup. absurd (cc (dup, is_dup-none c.key_fn v.state.visited x keyless)))
          (rw (or_true v.send_err) (omega arith)) (omega arith) (λ _ _. rw alive (omega arith))

    -- A run that is cancelled stays so.
    cancelled-visit_item :
        (depth : ℕ) (v : Visit T K) (x : T)
        → is_cancelled v ≡ true
        → is_cancelled (visit_item c fn depth v x) ≡ true
    cancelled-visit_item depth v x h =
        visit_item-cases c fn (λ w. is_cancelled w ≡ true) depth v x (λ _. h) (or_true v.send_err)
          refl (λ _ _. h)

    abbrev pub Ran : ℕ → Option (Visit T K) → Type 0
    Ran n none = ⊥
    Ran n (some v) = Kept n v.state

    Suffices-zero :
        (p : Source T) (n late : ℕ) (v : Visit T K) (b : Bool)
        → is_cancelled v ≡ b
        → v.state.emitted ≤ c.max_items
        → Suffices zero p n late v
        → ⊥
    Suffices-zero p n late v b is most (inl (m, le, lt, over)) = omega arith
    Suffices-zero p n late v true is most (inr (keyless, rest)) =
        let room : Rest zero late true v.state.emitted =
          subst (λ b. Rest zero late b v.state.emitted) is rest in
        omega (arith, room)
    Suffices-zero p n late v false is most (inr (keyless, rest)) =
        let room : Rest zero late false v.state.emitted =
          subst (λ b. Rest zero late b v.state.emitted) is rest in
        omega (arith, room, most)

    -- The end of the run is not before the next item.
    later-none :
        (fuel n m : ℕ) (p : Source T) (x : T)
        → p.items n ≡ some x
        → n ≤ m
        → p.items m ≡ none
        → n + 1 ≤ m
    later-none fuel n m p x e le over = elim (dec_lt n m) [
      | yes lt ↦ omega (arith, lt)
      | no ge ↦
          let same : m ≡ n = omega (arith, ge, le) in absurd (cc (sym over ∙ ap p.items same, e))
    ]

    Suffices-next :
        (fuel depth n late : ℕ) (p : Source T) (v : Visit T K) (x : T)
        → p.items n ≡ some x
        → v.state.emitted ≤ c.max_items
        → is_cancelled v ≡ false
        → Suffices (suc fuel) p n late v
        → Suffices fuel p (n + 1) late (visit_item c fn depth v x)
    Suffices-next fuel depth n late p v x e most alive (inl (m, le, lt, over)) =
        inl (m, later-none fuel n m p x e le over, omega (arith, lt), over)
    Suffices-next fuel depth n late p v x e most alive (inr (keyless, rest)) = inr (
      keyless,
      Rest-visit_item fuel late depth v x keyless most alive
          (subst (λ b. Rest (suc fuel) late b v.state.emitted) alive rest),
    )

    Suffices-late :
        (fuel depth n late : ℕ) (p : Source T) (v : Visit T K) (x : T)
        → p.items n ≡ some x
        → is_cancelled v ≡ true
        → Suffices (suc fuel) p n (suc late) v
        → Suffices fuel p (n + 1) late (visit_item c fn depth v x)
    Suffices-late fuel depth n late p v x e dead (inl (m, le, lt, over)) =
        inl (m, later-none fuel n m p x e le over, omega (arith, lt), over)
    Suffices-late fuel depth n late p v x e dead (inr (keyless, rest)) =
        let room : Rest (suc fuel) (suc late) true v.state.emitted =
          subst (λ b. Rest (suc fuel) (suc late) b v.state.emitted) dead rest in
        inr (
          keyless,
          subst (λ b. Rest fuel late b (visit_item c fn depth v x).state.emitted)
              (sym (cancelled-visit_item depth v x dead)) (omega (arith, room)),
        )

    -- One item of a run.
    Ran-take_next :
        (k fuel depth n late : ℕ) (p : Source T) (v : Visit T K) (o : Option T) (b : Bool)
        (go : ℕ → T → Option (Visit T K))
        → p.items n ≡ o
        → is_cancelled v ≡ b
        → Kept k v.state
        → Suffices (suc fuel) p n late v
        → ((late : ℕ) (x : T)
            → Suffices fuel p (n + 1) late (visit_item c fn depth v x)
            → Ran k (go late x))
        → Ran k (take_next o b late (some v) go)
    Ran-take_next k fuel depth n late p v none b go e is h r next = h
    Ran-take_next k fuel depth n late p v (some x) false go e is h r next =
        next late x (Suffices-next fuel depth n late p v x e (h.0.1 pos) is r)
    Ran-take_next k fuel depth n zero p v (some x) true go e is h r next = h
    Ran-take_next k fuel depth n (suc late) p v (some x) true go e is h r next =
        next late x (Suffices-late fuel depth n late p v x e is r)

    pub visit_from-Ran :
        (k fuel depth n late : ℕ) (p : Source T) (v : Visit T K)
        → Within c fn depth
        → Kept k v.state
        → Suffices fuel p n late v
        → Ran k (visit_from c fn fuel depth p n late v)
    unfolding visit_from
    visit_from-Ran k zero depth n late p v w h r =
        absurd (Suffices-zero p n late v (is_cancelled v) refl (h.0.1 pos) r)
    visit_from-Ran k (suc fuel) depth n late p v w h r =
        Ran-take_next k fuel depth n late p v (p.items n) (is_cancelled v)
          (λ late x. visit_from c fn fuel depth p (n + 1) late (visit_item c fn depth v x)) refl
          refl h r
          (λ late x r.
            visit_from-Ran k fuel depth (n + 1) late p (visit_item c fn depth v x) w
              (visit_item-Kept k depth v x w h) r)

    pub IsPrompt-Suffices :
        (p : Source T) (s : Expansion T K)
        → IsPrompt p
        → Suffices steps p 0 p.late (record { state = s; send_err = false; limit_hit = false })
    IsPrompt-Suffices p s (inl (n, lt, over)) = inl (n, omega arith, omega (arith, lt), over)
    IsPrompt-Suffices p s (inr (keyless, lt)) = inr (keyless, omega (arith, lt))
