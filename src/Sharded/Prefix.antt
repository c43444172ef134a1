-- ===== src/Sharded/Prefix.antt =====
-- What each worker has sent, against the serial stage on the items of its shard.
use go_kitsune.Prelude.{
  ℕ, ◌≡◌, refl, sym, ap, ◌∙◌, subst, Bool, true, false, List, [], ◌∷◌, ◌++◌, append_assoc,
  append-nil, ◌==◌, ==_iff,
}
use go_kitsune.Stage.{Action, continue, finish}
use go_kitsune.Sharded.Shares.{update-cases, outs_of, outs_of-append, and_then, outputs, route}
use go_kitsune.Sharded.{
  Status, running, exited, stopped, Worker, State, taken, after_take, start, Step, dispatch,
  dispatched, dispatch_cancelled, drained, ctx_ended, take, send, send_cancelled, exit, Reach, here,
  next,
}

module _ {M I O : Type 0} (body : M → I → Action M O) (shard : I → ℕ) (buffer : ℕ) where
  -- What a worker has yet to send, by its status.
  abbrev Ahead : ℕ → Status → Worker M I O → Bool → List I → List O → Type 0
  Ahead i running w over input rest =
      rest ≡ w.unsent ++ outputs body w.refs (w.queue ++ route shard i input)
  Ahead i exited w over input rest =
      (rest ≡ outputs body w.refs (route shard i input)) × (over ≡ true)
  Ahead i stopped w over input rest = Unit

  abbrev Agrees : (ℕ → List O) → ℕ → Worker M I O → Bool → List I → List (ℕ × O) → Type 0
  Agrees total i w over input out =
      (rest : List O) × (outs_of i out ++ rest ≡ total i) × Ahead i w.status w over input rest

  abbrev AllAgree : (ℕ → List O) → State M I O → Type 0
  AllAgree total s = (i : ℕ) → Agrees total i (s.workers i) s.closed s.input s.out

  -- The dispatcher changes nothing but the flags.
  Ahead-closed :
      (i : ℕ) (status : Status) (w : Worker M I O) (over : Bool) (input : List I) (rest : List O)
      → Ahead i status w over input rest
      → Ahead i status w true input rest
  Ahead-closed i running w over input rest h = h
  Ahead-closed i exited w over input rest h = (h.0, refl)
  Ahead-closed i stopped w over input rest h = tt

  AllAgree-closed :
      (total : ℕ → List O) (s : State M I O) (cancelled : Bool)
      → AllAgree total s
      → AllAgree total (record s { closed = true; cancelled = cancelled })
  AllAgree-closed total s cancelled h i =
      let (rest, eq, ahead) = h i in
      (rest, eq, Ahead-closed i (s.workers i).status (s.workers i) s.closed s.input rest ahead)

  Ahead-dispatched :
      (i : ℕ) (status : Status) (w : Worker M I O) (x : I) (xs : List I) (rest : List O)
      → i ≡ shard x
      → Ahead i status w false (x ∷ xs) rest
      → Ahead i status (record w { queue = w.queue ++ x ∷ [] }) false xs rest
  Ahead-dispatched i running w x xs rest e h =
      rw ((==_iff i (shard x)).1 e) at h
      ∙ ap (λ zs. w.unsent ++ outputs body w.refs zs)
          (sym (append_assoc w.queue (x ∷ []) (route shard i xs)))
  Ahead-dispatched i exited w x xs rest e h = absurd (cc h.1)
  Ahead-dispatched i stopped w x xs rest e h = tt

  Ahead-elsewhere :
      (i : ℕ) (status : Status) (w : Worker M I O) (over : Bool) (x : I) (xs : List I)
      (rest : List O)
      → (i == shard x) ≡ false
      → Ahead i status w over (x ∷ xs) rest
      → Ahead i status w over xs rest
  Ahead-elsewhere i running w over x xs rest e h = rw e at h
  Ahead-elsewhere i exited w over x xs rest e h = rw e at h
  Ahead-elsewhere i stopped w over x xs rest e h = tt

  -- What a worker that reads an item leaves to send.
  Ahead-taken :
      (i : ℕ) (w : Worker M I O) (queue : List I) (input : List I) (over : Bool) (rest : List O)
      (a : Action M O)
      → rest ≡ and_then a (λ m. outputs body m (queue ++ route shard i input))
      → Ahead i (taken w queue a).status (taken w queue a) over input rest
  Ahead-taken i w queue input over rest (continue vs m) h = h
  Ahead-taken i w queue input over rest (finish vs end) h = tt

  Agrees-taken :
      (total : ℕ → List O) (s : State M I O) (i j : ℕ) (queue : List I) (a : Action M O)
      → Agrees total i (taken (s.workers i) queue a) s.closed s.input s.out
      → AllAgree total s
      → Agrees total j ((after_take s i queue a).workers j) s.closed s.input s.out
  Agrees-taken total s i j queue (continue vs m) at h =
      update-cases (λ k w. Agrees total k w s.closed s.input s.out) i j _ s.workers at (λ _. h j)
  Agrees-taken total s i j queue (finish vs end) at h =
      update-cases (λ k w. Agrees total k w s.closed s.input s.out) i j _ s.workers at (λ _. h j)

  AllAgree-taken :
      (total : ℕ → List O) (s : State M I O) (i : ℕ) (queue : List I) (a : Action M O)
      → ((j : ℕ) → Agrees total j ((after_take s i queue a).workers j) s.closed s.input s.out)
      → AllAgree total (after_take s i queue a)
  AllAgree-taken total s i queue (continue vs m) h = h
  AllAgree-taken total s i queue (finish vs end) h = h

  -- A running worker's facts.
  Ahead-running :
      (i : ℕ) (w : Worker M I O) (over : Bool) (input : List I) (rest : List O)
      → w.status ≡ running
      → Ahead i w.status w over input rest
      → rest ≡ w.unsent ++ outputs body w.refs (w.queue ++ route shard i input)
  Ahead-running i w over input rest e h = subst (λ st. Ahead i st w over input rest) e h

  Agrees-take :
      (total : ℕ → List O) (s : State M I O) (i : ℕ) (x : I) (queue : List I)
      → (s.workers i).status ≡ running
      → (s.workers i).unsent ≡ []
      → (s.workers i).queue ≡ x ∷ queue
      → Agrees total i (s.workers i) s.closed s.input s.out
      → Agrees total i
          (taken (s.workers i) queue (body (s.workers i).refs x))
          s.closed
          s.input
          s.out
  Agrees-take total s i x queue st un qu (rest, eq, ahead) =
      let w = s.workers i in
      let h = Ahead-running i w s.closed s.input rest st ahead in
      (rest, eq, Ahead-taken i w queue s.input s.closed rest (body w.refs x) (rw (un, qu) at h))

  Agrees-sent :
      (total : ℕ → List O) (i : ℕ) (w : Worker M I O) (over : Bool) (input : List I)
      (out : List (ℕ × O)) (v : O) (vs : List O)
      → w.status ≡ running
      → w.unsent ≡ v ∷ vs
      → Agrees total i w over input out
      → Agrees total i (record w { unsent = vs }) over input (out ++ (i, v) ∷ [])
  Agrees-sent total i w over input out v vs st un (rest, eq, ahead) =
      let later = vs ++ outputs body w.refs (w.queue ++ route shard i input) in
      let h = Ahead-running i w over input rest st ahead in
      let next : outs_of i ((i, v) ∷ []) ++ later ≡ rest =
        rw ((==_iff i i).1 refl) (
          ap (λ us. us ++ outputs body w.refs (w.queue ++ route shard i input)) (sym un) ∙ sym h) in
      (
        later,
        ap (λ zs. zs ++ later) (outs_of-append i out ((i, v) ∷ []))
            ∙ append_assoc (outs_of i out) (outs_of i ((i, v) ∷ [])) later
            ∙ ap (λ zs. outs_of i out ++ zs) next
            ∙ eq,
        subst (λ k. Ahead i k (record w { unsent = vs }) over input later) (sym st) refl,
      )

  Agrees-unsent :
      (total : ℕ → List O) (i j : ℕ) (w : Worker M I O) (over : Bool) (input : List I)
      (out : List (ℕ × O)) (v : O)
      → (j == i) ≡ false
      → Agrees total j w over input out
      → Agrees total j w over input (out ++ (i, v) ∷ [])
  Agrees-unsent total i j w over input out v other (rest, eq, ahead) =
      let none_new : outs_of j out ++ outs_of j ((i, v) ∷ []) ≡ outs_of j out =
        rw other (append-nil (outs_of j out)) in
      (rest, ap (λ zs. zs ++ rest) (outs_of-append j out ((i, v) ∷ []) ∙ none_new) ∙ eq, ahead)

  Agrees-dispatched :
      (total : ℕ → List O) (s : State M I O) (x : I) (xs : List I)
      → s.input ≡ x ∷ xs
      → s.closed ≡ false
      → Agrees total (shard x) (s.workers (shard x)) s.closed s.input s.out
      → Agrees total
          (shard x)
          (record (s.workers (shard x)) { queue = (s.workers (shard x)).queue ++ x ∷ [] })
          s.closed
          xs
          s.out
  Agrees-dispatched total s x xs e unclosed (rest, eq, ahead) =
      let w = s.workers (shard x) in
      let h = subst (λ over. Ahead (shard x) w.status w over s.input rest) unclosed ahead in
      let moved =
        Ahead-dispatched (shard x) w.status w x xs rest refl
          (subst (λ zs. Ahead (shard x) w.status w false zs rest) e h) in
      (
        rest,
        eq,
        subst
            (λ over. Ahead (shard x) w.status (record w { queue = w.queue ++ x ∷ [] }) over xs rest)
            (sym unclosed) moved,
      )

  Agrees-elsewhere :
      (total : ℕ → List O) (s : State M I O) (j : ℕ) (x : I) (xs : List I)
      → s.input ≡ x ∷ xs
      → (j == shard x) ≡ false
      → Agrees total j (s.workers j) s.closed s.input s.out
      → Agrees total j (s.workers j) s.closed xs s.out
  Agrees-elsewhere total s j x xs e other (rest, eq, ahead) =
      let w = s.workers j in
      (
        rest,
        eq,
        Ahead-elsewhere j w.status w s.closed x xs rest other
            (subst (λ zs. Ahead j w.status w s.closed zs rest) e ahead),
      )

  Agrees-exit :
      (total : ℕ → List O) (s : State M I O) (i : ℕ)
      → (s.workers i).status ≡ running
      → (s.workers i).unsent ≡ []
      → (s.workers i).queue ≡ []
      → s.closed ≡ true
      → Agrees total i (s.workers i) s.closed s.input s.out
      → Agrees total i (record (s.workers i) { status = exited }) s.closed s.input s.out
  Agrees-exit total s i st un qu over (rest, eq, ahead) =
      let h = Ahead-running i (s.workers i) s.closed s.input rest st ahead in
      (rest, eq, (rw (un, qu) at h, over))

  Step-AllAgree :
      {s t : State M I O} (total : ℕ → List O)
      → Step body shard buffer s t
      → AllAgree total s
      → AllAgree total t
  Step-AllAgree total (dispatch s x xs e unclosed le) h = λ j.
      update-cases (λ k w. Agrees total k w s.closed xs s.out) (shard x) j _ s.workers
        (Agrees-dispatched total s x xs e unclosed (h (shard x)))
        (λ other. Agrees-elsewhere total s j x xs e other (h j))
  Step-AllAgree total (dispatched s e) h = AllAgree-closed total s s.cancelled h
  Step-AllAgree total (dispatch_cancelled s e) h = AllAgree-closed total s s.cancelled h
  Step-AllAgree total (drained s) h = AllAgree-closed total s true h
  Step-AllAgree total (ctx_ended s) h = h
  Step-AllAgree total (take s i x queue st un qu) h =
      AllAgree-taken total s i queue (body (s.workers i).refs x) (λ j.
        Agrees-taken total s i j queue (body (s.workers i).refs x)
          (Agrees-take total s i x queue st un qu (h i)) h)
  Step-AllAgree total (send s i v vs st un) h = λ j.
      update-cases (λ k w. Agrees total k w s.closed s.input (s.out ++ (i, v) ∷ [])) i j _ s.workers
        (Agrees-sent total i (s.workers i) s.closed s.input s.out v vs st un (h i))
        (λ other. Agrees-unsent total i j (s.workers j) s.closed s.input s.out v other (h j))
  Step-AllAgree total (send_cancelled s i v vs e st un cancelled) h = λ j.
      update-cases (λ k w. Agrees total k w s.closed s.input s.out) i j _ s.workers
        ((h i).0, (h i).1, tt) (λ _. h j)
  Step-AllAgree total (exit s i st un qu over) h = λ j.
      update-cases (λ k w. Agrees total k w s.closed s.input s.out) i j _ s.workers
        (Agrees-exit total s i st un qu over (h i)) (λ _. h j)

  Reach-AllAgree :
      {s t : State M I O} (total : ℕ → List O)
      → AllAgree total s
      → Reach body shard buffer s t
      → AllAgree total t
  Reach-AllAgree total h here = h
  Reach-AllAgree total h (next r step) = Step-AllAgree total step (Reach-AllAgree total h r)

  -- The serial stage's outputs on the items of a shard.
  abbrev pub shard_outputs : (ℕ → M) → List I → ℕ → List O
  shard_outputs refs input i = outputs body (refs i) (route shard i input)

  -- At all times what a worker has sent is a prefix of what the serial stage sends of its items.
  pub shard_prefix :
      {s : State M I O} (refs : ℕ → M) (input : List I) (i : ℕ)
      → Reach body shard buffer (start refs input) s
      → (rest : List O) × (outs_of i s.out ++ rest ≡ shard_outputs refs input i)
  shard_prefix refs input i r =
      let (rest, eq, ahead) =
        Reach-AllAgree (shard_outputs refs input) (λ i. (shard_outputs refs input i, refl, refl)) r
          i in
      (rest, eq)

  -- A worker that has exited after the whole input was dispatched has sent all of it.
  pub shard_whole :
      {s : State M I O} (refs : ℕ → M) (input : List I) (i : ℕ)
      → Reach body shard buffer (start refs input) s
      → s.input ≡ []
      → (s.workers i).status ≡ exited
      → outs_of i s.out ≡ shard_outputs refs input i
  shard_whole {s} refs input i r none_left over =
      let (rest, eq, ahead) =
        Reach-AllAgree (shard_outputs refs input) (λ i. (shard_outputs refs input i, refl, refl)) r
          i in
      let h = subst (λ st. Ahead i st (s.workers i) s.closed s.input rest) over ahead in
      let empty : rest ≡ [] =
        h.0 ∙ ap (λ zs. outputs body (s.workers i).refs (route shard i zs)) none_left in
      sym (append-nil (outs_of i s.out)) ∙ ap (λ zs. outs_of i s.out ++ zs) (sym empty) ∙ eq
