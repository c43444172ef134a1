-- ===== src/Merging/Interleaved.antt =====
-- What Merge sends is an interleaving of its inputs.
use go_kitsune.Prelude.{
  ℕ, ◌<◌, ◌≡◌, refl, sym, ap, ◌∙◌, subst, Bool, true, false, List, [], ◌∷◌, ◌++◌, append_assoc,
  append-nil, Option, none, some, inl, inr, ◌⊎◌, ◌==◌, ==_iff,
}
use go_kitsune.Stage.{End, returned, ctx_err, drained}
use go_kitsune.Sharded.{update}
use go_kitsune.Sharded.Shares.{outs_of, outs_of-append, update-cases}
use go_kitsune.Merging.{
  MergePhase, selecting, waiting, ended, Forwarder, Merger, with_forwarder, ctx_end, merge_of, Step,
  receive, send, closed_input, cancelled, ctx_ends, all_done, sees_drain, sees_ctx, waited, Reach,
  here, next,
}

module _ {T : Type 0} where
  abbrev held_item : Option T → List T
  held_item none = []
  held_item (some x) = x ∷ []

  abbrev still : Forwarder T → List T
  still f = held_item f.holding ++ f.input

  -- Nothing is lost or repeated: what is sent of an input, held_item and left is the input.
  abbrev Whole : (ℕ → List T) → ℕ → List (ℕ × T) → Forwarder T → Type 0
  Whole inputs i out f = outs_of i out ++ still f ≡ inputs i

  -- A goroutine that is done has forwarded all, unless innerCtx is done.
  abbrev Through : Bool → Forwarder T → Type 0
  Through inner_done f = (f.is_done ≡ true) → (inner_done ≡ true) ⊎ (still f ≡ [])

module _ {T : Type 0} (count : ℕ) where
  -- While the stage selects, only the end of ctx ends innerCtx. It waits only after a drain or that end.
  -- Once it has ended, the goroutines are done, and have forwarded all if it returned nil.
  abbrev Calm : MergePhase → Bool → Bool → (ℕ → Forwarder T) → Type 0
  Calm selecting inner ctx fs = inner ≡ true → ctx ≡ true
  Calm (waiting end) inner ctx fs = (end ≡ drained) ⊎ (end ≡ ctx_err)
  Calm (ended end) inner ctx fs =
      (i : ℕ) → i < count → ((fs i).is_done ≡ true) × (end ≡ returned → still (fs i) ≡ [])

  record Sound (inputs : ℕ → List T) (s : Merger T) : Type 0 where
    whole : (i : ℕ) → Whole inputs i s.out (s.forwarders i)
    through : (i : ℕ) → Through s.inner_done (s.forwarders i)
    calm : Calm s.phase s.inner_done s.ctx_done s.forwarders

  -- A step of one goroutine that leaves a done one as it is.
  Calm-forwarder :
      (p : MergePhase) (inner ctx : Bool) (fs : ℕ → Forwarder T) (i : ℕ) (f : Forwarder T)
      → ((fs i).is_done ≡ true → (f.is_done ≡ true) × (still f ≡ still (fs i)))
      → Calm p inner ctx fs
      → Calm p inner ctx (update i f fs)
  Calm-forwarder selecting inner ctx fs i f keep h = h
  Calm-forwarder (waiting end) inner ctx fs i f keep h = h
  Calm-forwarder (ended end) inner ctx fs i f keep h = λ j.
      update-cases (λ j f. j < count → (f.is_done ≡ true) × (end ≡ returned → still f ≡ [])) i j f
        fs (λ lt. let (done, all) = keep (h i lt).0 in (done, λ is. all ∙ (h i lt).1 is)) (λ _. h j)

  forward :
      (inputs : ℕ → List T) (s : Merger T) (i : ℕ) (f : Forwarder T)
      → still f ≡ still (s.forwarders i)
      → Through s.inner_done f
      → ((s.forwarders i).is_done ≡ true → f.is_done ≡ true)
      → Sound inputs s
      → Sound inputs (with_forwarder i f s)
  forward inputs s i f same through keep h = record {
    whole = λ j.
        update-cases (λ j f. Whole inputs j s.out f) i j f s.forwarders
          (ap (λ zs. outs_of i s.out ++ zs) same ∙ h.whole i) (λ _. h.whole j);
    through = λ j.
        update-cases (λ j f. Through s.inner_done f) i j f s.forwarders through (λ _. h.through j);
    calm =
        Calm-forwarder s.phase s.inner_done s.ctx_done s.forwarders i f (λ d. (keep d, same))
          h.calm;
  }

  Whole-sent :
      (inputs : ℕ → List T) (i : ℕ) (x : T) (out : List (ℕ × T)) (f : Forwarder T)
      → f.holding ≡ some x
      → Whole inputs i out f
      → Whole inputs i (out ++ (i, x) ∷ []) (record f { holding = none })
  Whole-sent inputs i x out f e h =
      let mine : outs_of i ((i, x) ∷ []) ≡ x ∷ [] = rw ((==_iff i i).1 refl) refl in
      ap (λ zs. zs ++ f.input)
        (outs_of-append i out ((i, x) ∷ []) ∙ ap (λ zs. outs_of i out ++ zs) mine)
      ∙ append_assoc (outs_of i out) (x ∷ []) f.input
      ∙ ap (λ o. outs_of i out ++ (held_item o ++ f.input)) (sym e)
      ∙ h

  Whole-other :
      (inputs : ℕ → List T) (i j : ℕ) (x : T) (out : List (ℕ × T)) (f : Forwarder T)
      → (j == i) ≡ false
      → Whole inputs j out f
      → Whole inputs j (out ++ (i, x) ∷ []) f
  Whole-other inputs i j x out f other h =
      let none_new : outs_of j out ++ outs_of j ((i, x) ∷ []) ≡ outs_of j out =
        rw other (append-nil (outs_of j out)) in
      ap (λ zs. zs ++ still f) (outs_of-append j out ((i, x) ∷ []) ∙ none_new) ∙ h

  -- The end of the stage at doneCh.
  Calm-all_done :
      (inner ctx : Bool) (fs : ℕ → Forwarder T)
      → (inner ≡ true → ctx ≡ true)
      → ((i : ℕ) → Through inner (fs i))
      → ((i : ℕ) → i < count → (fs i).is_done ≡ true)
      → Calm (ended (ctx_end ctx)) true ctx fs
  Calm-all_done inner true fs calm through done i lt = (done i lt, λ is. absurd (cc is))
  Calm-all_done true false fs calm through done i lt = absurd (cc (calm refl))
  Calm-all_done false false fs calm through done i lt = (
    done i lt,
    λ is. elim (through i (done i lt)) [ inl e ↦ absurd (cc e) | inr none_left ↦ none_left ],
  )

  Calm-waited :
      (inner ctx : Bool) (fs : ℕ → Forwarder T) (end : End)
      → (end ≡ drained) ⊎ (end ≡ ctx_err)
      → ((i : ℕ) → i < count → (fs i).is_done ≡ true)
      → Calm (ended end) inner ctx fs
  Calm-waited inner ctx fs end (inl e) done i lt = (done i lt, λ is. absurd (cc (e, is)))
  Calm-waited inner ctx fs end (inr e) done i lt = (done i lt, λ is. absurd (cc (e, is)))

  Calm-ctx :
      (p : MergePhase) (inner ctx : Bool) (fs : ℕ → Forwarder T)
      → Calm p inner ctx fs
      → Calm p true true fs
  Calm-ctx selecting inner ctx fs h = λ _. refl
  Calm-ctx (waiting end) inner ctx fs h = h
  Calm-ctx (ended end) inner ctx fs h = h

  Step-Sound :
      {s t : Merger T} (inputs : ℕ → List T) → Step count s t → Sound inputs s → Sound inputs t
  Step-Sound inputs (receive s i x xs nd hn inp) h =
      forward inputs s i (record { input = xs; holding = some x; is_done = false })
        (sym (rw (hn, inp) refl)) (λ d. absurd (cc d)) (λ d. absurd (cc (nd, d))) h
  Step-Sound inputs (send s i x nd hold) h = record {
    whole = λ j.
        update-cases (λ j f. Whole inputs j (s.out ++ (i, x) ∷ []) f) i j _ s.forwarders
          (Whole-sent inputs i x s.out (s.forwarders i) hold (h.whole i))
          (λ other. Whole-other inputs i j x s.out (s.forwarders j) other (h.whole j));
    through = λ j.
        update-cases (λ j f. Through s.inner_done f) i j _ s.forwarders (λ d. absurd (cc (nd, d)))
          (λ _. h.through j);
    calm =
        Calm-forwarder s.phase s.inner_done s.ctx_done s.forwarders i _ (λ d. absurd (cc (nd, d)))
          h.calm;
  }
  Step-Sound inputs (closed_input s i hn inp) h =
      forward inputs s i (record (s.forwarders i) { is_done = true }) refl
        (λ _. inr (rw (hn, inp) refl)) (λ _. refl) h
  Step-Sound inputs (cancelled s i done) h =
      forward inputs s i (record (s.forwarders i) { is_done = true }) refl (λ _. inl done)
        (λ _. refl) h
  Step-Sound inputs (ctx_ends s) h = record {
    whole = h.whole;
    through = λ i _. inl refl;
    calm = Calm-ctx s.phase s.inner_done s.ctx_done s.forwarders h.calm;
  }
  Step-Sound inputs (all_done s e done) h = record {
    whole = h.whole;
    through = λ i _. inl refl;
    calm =
        Calm-all_done s.inner_done s.ctx_done s.forwarders
          (subst (λ p. Calm p s.inner_done s.ctx_done s.forwarders) e h.calm) h.through done;
  }
  Step-Sound inputs (sees_drain s e) h = record {
    whole = h.whole;
    through = λ i _. inl refl;
    calm = inl refl;
  }
  Step-Sound inputs (sees_ctx s e done) h = record {
    whole = h.whole;
    through = h.through;
    calm = inr refl;
  }
  Step-Sound inputs (waited s end e done) h = record {
    whole = h.whole;
    through = h.through;
    calm =
        Calm-waited s.inner_done s.ctx_done s.forwarders end
          (subst (λ p. Calm p s.inner_done s.ctx_done s.forwarders) e h.calm) done;
  }

  Reach-Sound :
      {s t : Merger T} (inputs : ℕ → List T) → Sound inputs s → Reach count s t → Sound inputs t
  Reach-Sound inputs h here = h
  Reach-Sound inputs h (next r step) = Step-Sound inputs step (Reach-Sound inputs h r)

  merge_of-Sound :
      {s : Merger T} (inputs : ℕ → List T) → Reach count (merge_of inputs) s → Sound inputs s
  merge_of-Sound inputs r =
      Reach-Sound inputs
        (record { whole = λ i. refl; through = λ i d. absurd (cc d); calm = λ e. absurd (cc e) }) r

  -- At all times, in any interleaving and whatever ends the stage, what Merge has sent of each of its
  -- inputs is a prefix of that input.
  pub merge_prefix :
      {s : Merger T} (inputs : ℕ → List T) (i : ℕ)
      → Reach count (merge_of inputs) s
      → (rest : List T) × (outs_of i s.out ++ rest ≡ inputs i)
  merge_prefix {s} inputs i r = (still (s.forwarders i), (merge_of-Sound inputs r).whole i)

  -- When Merge has returned nil at the end of its goroutines, it has sent each of its inputs whole, in its own order.
  pub merge_whole :
      {s : Merger T} (inputs : ℕ → List T) (i : ℕ)
      → Reach count (merge_of inputs) s
      → s.phase ≡ ended returned
      → i < count
      → outs_of i s.out ≡ inputs i
  merge_whole {s} inputs i r e lt =
      let sound = merge_of-Sound inputs r in
      let calm = subst (λ p. Calm p s.inner_done s.ctx_done s.forwarders) e sound.calm in
      sym (append-nil (outs_of i s.out))
      ∙ ap (λ zs. outs_of i s.out ++ zs) (sym ((calm i lt).1 refl))
      ∙ sound.whole i
