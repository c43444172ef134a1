-- ===== src/Expand.antt =====
-- operator_filter.go: ExpandMap, with the in-memory set of visited keys.
--
-- A run of a pipeline is given by the items that it delivers to ForEach, which need not end, by the
-- number of items that ForEach still handles after cancel() before the run stops, and by the error of
-- the run. Which sends find a reader, and whether the context has ended after a run, are functions of
-- the number of sends and of runs before; a send that finds no reader ends with the context. Each output
-- comes with the depth at which it was emitted, which only the model keeps. A run takes fuel, one unit
-- for an item, and the loop over the queue too, one unit for a pipeline; `none` says that it is spent.
pub mod Capped
pub mod Prompt
pub mod Ending
use go_kitsune.Prelude.{
  ℕ, zero, suc, ◌+◌, Bool, true, false, ◌&&◌, ◌||◌, List, [], ◌∷◌, ◌++◌, Option, none, some, ltb,
  leb, if◌then◌else◌,
}
use go_kitsune.Keys.{Eq, member}
use go_kitsune.Errors.{Error}
use go_kitsune.Stage.{End, returned, ctx_err, failed}

pub record Source (T : Type 0) : Type 0 where
  -- `none` from where the run is over
  pub items : ℕ → Option T
  pub late : ℕ
  pub run_err : Option Error

pub record ExpandConfig (T K : Type 0) : Type 0 where
  pub key_fn : Option (T → K)
  pub max_depth : Option ℕ
  -- zero is unlimited
  pub max_items : ℕ
  pub finds_reader : ℕ → Bool
  pub ctx_ended : ℕ → Bool

pub record Expansion (T K : Type 0) : Type 0 where
  pub visited : List K
  pub emitted : ℕ
  pub sends : ℕ
  pub runs : ℕ
  pub queue : List (Source T × ℕ)
  pub out : List (T × ℕ)

-- The variables that the callback of ForEach writes: those of the loop, `sendErr != nil` and `limitHit`.
pub record Visit (T K : Type 0) : Type 0 where
  pub state : Expansion T K
  pub send_err : Bool
  pub limit_hit : Bool

-- cancel() was called.
abbrev pub is_cancelled : {T K : Type 0} → Visit T K → Bool
is_cancelled v = v.send_err || v.limit_hit

-- The next item of a run: none, one that comes before the run is cancelled, or a late one.
abbrev pub take_next : {T R : Type 0} → Option T → Bool → ℕ → R → (ℕ → T → R) → R
take_next none cancelled late over go = over
take_next (some x) false late over go = go late x
take_next (some x) true zero over go = over
take_next (some x) true (suc late) over go = go late x

-- `maxDepthSet && childDepth > maxDepth`
abbrev pub too_deep : Option ℕ → ℕ → Bool
too_deep none depth = false
too_deep (some max) depth = ltb max depth

module _ {T K : Type 0} ⦃e : Eq K⦄ (c : ExpandConfig T K) (fn : T → Option (Source T)) where
  abbrev pub is_dup : Option (T → K) → List K → T → Bool
  is_dup none visited x = false
  is_dup (some key) visited x = member (key x) visited

  abbrev pub add_key : Option (T → K) → List K → T → List K
  add_key none visited x = visited
  add_key (some key) visited x = key x ∷ visited

  abbrev pub enqueue : List (Source T × ℕ) → Option (Source T) → ℕ → List (Source T × ℕ)
  enqueue queue none depth = queue
  enqueue queue (some child) depth =
      if too_deep c.max_depth depth then queue else queue ++ (child, depth) ∷ []

  abbrev pub emit_item : ℕ → Expansion T K → T → Expansion T K
  emit_item depth s x = record {
    visited = add_key c.key_fn s.visited x;
    emitted = s.emitted + 1;
    sends = s.sends + 1;
    runs = s.runs;
    queue = enqueue s.queue (fn x) (depth + 1);
    out = s.out ++ (x, depth) ∷ [];
  }

  unfoldable pub visit_item : ℕ → Visit T K → T → Visit T K
  visit_item depth v x =
      let s = v.state in
      let added = record s { visited = add_key c.key_fn s.visited x } in
      if is_dup c.key_fn s.visited x
      then v
      else if ltb 0 c.max_items && leb c.max_items s.emitted
      then record v { state = added; limit_hit = true }
      else if c.finds_reader s.sends
      then record v { state = emit_item depth s x }
      else record v { state = record added { sends = s.sends + 1 }; send_err = true }

  -- ForEach of a pipeline from its n-th item on, when `late` items still come after cancel().
  unfoldable pub visit_from : ℕ → ℕ → Source T → ℕ → ℕ → Visit T K → Option (Visit T K)
  unfolding visit_item
  visit_from zero depth p n late v = none
  visit_from (suc fuel) depth p n late v =
      take_next (p.items n) (is_cancelled v) late (some v)
        (λ late x. visit_from fuel depth p (n + 1) late (visit_item depth v x))

  -- The tests after the run of one pipeline.
  abbrev pub after_run_err :
      Expansion T K
      → Option Error
      → (Expansion T K → Option (Expansion T K × End))
      → Option (Expansion T K × End)
  after_run_err s none again = again s
  after_run_err s (some x) again = some (s, failed x)

  abbrev pub after_source :
      Option (Visit T K)
      → Option Error
      → (Expansion T K → Option (Expansion T K × End))
      → Option (Expansion T K × End)
  after_source none x again = none
  after_source (some v) x again =
      let s = record (v.state) { runs = v.state.runs + 1 } in
      let rest = after_run_err s x again in
      if v.send_err
      then some (s, ctx_err)
      else if v.limit_hit
      then some (s, returned)
      else if c.ctx_ended v.state.runs
      then some (s, ctx_err)
      else rest

  unfoldable pub next_source :
      ℕ
      → Expansion T K
      → List (Source T × ℕ)
      → (Expansion T K → Option (Expansion T K × End))
      → Option (Expansion T K × End)
  unfolding visit_from
  next_source steps s [] again = some (s, returned)
  next_source steps s ((p, depth) ∷ queue) again =
      after_source
        (visit_from steps depth p 0 p.late
          (record { state = record s { queue = queue }; send_err = false; limit_hit = false }))
        p.run_err again

  unfoldable pub expand_from : ℕ → ℕ → Expansion T K → Option (Expansion T K × End)
  unfolding next_source
  expand_from steps zero s = none
  expand_from steps (suc fuel) s = next_source steps s s.queue (λ s. expand_from steps fuel s)

-- ExpandMap of a pipeline, with fuel for the items of a run and for the pipelines
unfoldable pub expand_map :
    {T K : Type 0} ⦃e : Eq K⦄
    → ExpandConfig T K
    → (T → Option (Source T))
    → ℕ
    → ℕ
    → Source T
    → Option (Expansion T K × End)
unfolding expand_from
expand_map c fn steps fuel p =
    expand_from c fn steps fuel
      (record { visited = []; emitted = 0; sends = 0; runs = 0; queue = (p, 0) ∷ []; out = [] })
