-- ===== src/Merging.antt =====
-- fan_out.go: Merge of any number of inputs, as steps of its forwarding goroutines and of the stage.
--
-- A send of an item comes with the number of its input, which only the model keeps.
pub mod Interleaved
use go_kitsune.Prelude.{
  ℕ, ◌<◌, ◌≡◌, Bool, true, false, List, [], ◌∷◌, ◌++◌, Option, none, some, if◌then◌else◌, ◌==◌,
}
use go_kitsune.Stage.{End, returned, ctx_err, drained}
use go_kitsune.Sharded.{update}

-- What the stage does: it selects on doneCh, drainCh and ctx.Done; it waits for the goroutines to
-- return what it then returns; or it has returned.
pub data MergePhase : Type 0 where
  selecting : MergePhase
  waiting : End → MergePhase
  ended : End → MergePhase

pub record Forwarder (T : Type 0) : Type 0 where
  pub input : List T
  -- the item that is received and not yet sent
  pub holding : Option T
  pub is_done : Bool

pub record Merger (T : Type 0) : Type 0 where
  pub forwarders : ℕ → Forwarder T
  -- innerCtx and ctx
  pub inner_done : Bool
  pub ctx_done : Bool
  pub phase : MergePhase
  pub out : List (ℕ × T)

-- `return ctx.Err()`
abbrev pub ctx_end : Bool → End
ctx_end true = ctx_err
ctx_end false = returned

module _ {T : Type 0} where
  abbrev pub with_forwarder : ℕ → Forwarder T → Merger T → Merger T
  with_forwarder i f s = record s { forwarders = update i f s.forwarders }

  abbrev pub merge_of : (ℕ → List T) → Merger T
  merge_of inputs = record {
    forwarders = λ i. record { input = inputs i; holding = none; is_done = false };
    inner_done = false;
    ctx_done = false;
    phase = selecting;
    out = [];
  }

module _ {T : Type 0} (count : ℕ) where
  abbrev pub AllDone : Merger T → Type 0
  AllDone s = (i : ℕ) → i < count → (s.forwarders i).is_done ≡ true

  pub data Step : Merger T → Merger T → Type 0 where
    receive :
        (s : Merger T) (i : ℕ) (x : T) (xs : List T)
        → (s.forwarders i).is_done ≡ false
        → (s.forwarders i).holding ≡ none
        → (s.forwarders i).input ≡ x ∷ xs
        → Step s (with_forwarder i (record { input = xs; holding = some x; is_done = false }) s)
    send :
        (s : Merger T) (i : ℕ) (x : T)
        → (s.forwarders i).is_done ≡ false
        → (s.forwarders i).holding ≡ some x
        → Step s (record (with_forwarder i (record (s.forwarders i) { holding = none }) s) {
          out = s.out ++ (i, x) ∷ [];
        })
    -- its input is closed
    closed_input :
        (s : Merger T) (i : ℕ)
        → (s.forwarders i).holding ≡ none
        → (s.forwarders i).input ≡ []
        → Step s (with_forwarder i (record (s.forwarders i) { is_done = true }) s)
    -- innerCtx is done, at its select or in its send
    cancelled :
        (s : Merger T) (i : ℕ)
        → s.inner_done ≡ true
        → Step s (with_forwarder i (record (s.forwarders i) { is_done = true }) s)
    ctx_ends : (s : Merger T) → Step s (record s { inner_done = true; ctx_done = true })
    -- the cases of the stage's select
    all_done :
        (s : Merger T)
        → s.phase ≡ selecting
        → AllDone s
        → Step s (record s { phase = ended (ctx_end s.ctx_done); inner_done = true })
    sees_drain :
        (s : Merger T)
        → s.phase ≡ selecting
        → Step s (record s { phase = waiting drained; inner_done = true })
    sees_ctx :
        (s : Merger T)
        → s.phase ≡ selecting
        → s.ctx_done ≡ true
        → Step s (record s { phase = waiting ctx_err })
    waited :
        (s : Merger T) (end : End)
        → s.phase ≡ waiting end
        → AllDone s
        → Step s (record s { phase = ended end })

  pub data Reach (s : Merger T) : Merger T → Type 0 where
    here : Reach s s
    next : {t u : Merger T} → Reach s t → Step t u → Reach s u
