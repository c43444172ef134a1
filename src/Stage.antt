-- ===== src/Stage.antt =====
-- The loop that every operator of the repository's root package runs in its stage goroutine:
-- `for { select { case item, ok := <-inCh: … case <-ctx.Done(): … case <-drainCh: … } }`, with
-- the sends of blockingOutbox.Send (internal/outbox.go).
--
-- What `select` picks is given by a list of events, so a theorem over every list is a theorem
-- over every interleaving. `signal` and `signal_closed` stand for the second channel that some
-- stages wait on: a timer, a ticker, a boundary or a closing selector. A send is a second choice
-- of the environment: `Room` says how many sends find a reader, and what ends the next one.
pub mod Bursts
pub mod Cut
pub mod Rules
use go_kitsune.Prelude.{
  ℕ, ◌-◌, Bool, true, false, List, [], ◌∷◌, ◌++◌, map, length, take, leb, if◌then◌else◌, Option,
  none, some,
}
use go_kitsune.Errors.{Error}

pub data Event {ℓ} (T : Type ℓ) : Type ℓ where
  item : T → Event T
  closed signal signal_closed ctx_done drain : Event T

-- How a stage function stands at the end of the events. `returned` is `return nil`, `ctx_err` is
-- `return ctx.Err()`, `drained` is `cooperativeDrain = true; return nil`, and `blocked` says that
-- the goroutine still waits, in its `select` or in a send.
pub data End : Type 0 where
  returned ctx_err drained blocked : End
  failed : Error → End

-- What one iteration does: it sends the items in order, and then loops or returns.
pub data Action {ℓ κ} (S : Type ℓ) (O : Type κ) : Type (ℓ ⊔ κ) where
  continue : List O → S → Action S O
  finish : List O → End → Action S O

-- What stops a send that finds no reader.
pub data Stop : Type 0 where
  at_ctx_done at_drain : Stop

pub record Room : Type 0 where
  pub sends : ℕ
  pub stop : Stop

-- blockingOutbox.Send: `select { case o.ch <- item: case <-ctx.Done(): return ctx.Err() }`. It does
-- not look at drainCh, so a cooperative drain leaves it waiting.
abbrev pub outbox_send : Stop → End
outbox_send at_ctx_done = ctx_err
outbox_send at_drain = blocked

-- The three-way send of Take and Drop, which also selects on drainCh.
abbrev pub select_send : Stop → End
select_send at_ctx_done = ctx_err
select_send at_drain = drained

pub record Loop {ℓ κ μ} (S : Type ℓ) (T : Type κ) (O : Type μ) : Type (ℓ ⊔ κ ⊔ μ) where
  -- the test at the top of the loop that returns nil
  pub finished : S → Bool
  pub on_item : S → T → Action S O
  pub on_closed : S → Action S O
  pub on_signal : S → Action S O
  pub on_signal_closed : S → Action S O
  pub interrupted : Stop → End

pub record Trace {ℓ} (O : Type ℓ) : Type ℓ where
  pub out : List O
  pub ending : End

abbrev pub after {ℓ} : {O : Type ℓ} → List O → Trace O → Trace O
after xs t = record { out = xs ++ t.out; ending = t.ending }

abbrev pub perform_all {ℓ κ} : {S : Type ℓ} {O : Type κ} → Action S O → (S → Trace O) → Trace O
perform_all (finish xs end) again = record { out = xs; ending = end }
perform_all (continue xs s) again = after xs (again s)

module _ {ℓ κ μ} {S : Type ℓ} {T : Type κ} {O : Type μ} where
  -- Which case of the `select` the event picks.
  abbrev pub react : Loop S T O → S → Event T → Action S O
  react l s (item x) = l.on_item s x
  react l s closed = l.on_closed s
  react l s signal = l.on_signal s
  react l s signal_closed = l.on_signal_closed s
  react l s ctx_done = finish [] ctx_err
  react l s drain = finish [] drained

  -- One action: its sends, and the loop again in the room that they leave.
  perform : Loop S T O → Room → Action S O → (Room → S → Trace O) → Trace O
  perform l r (finish xs end) again =
      if leb (length xs) r.sends
      then record { out = xs; ending = end }
      else record { out = take r.sends xs; ending = l.interrupted r.stop }
  perform l r (continue xs s) again =
      if leb (length xs) r.sends
      then after xs (again (record r { sends = r.sends - length xs }) s)
      else record { out = take r.sends xs; ending = l.interrupted r.stop }

  -- The loop, with `r.sends` sends that find a reader.
  unfoldable pub run : Loop S T O → Room → S → List (Event T) → Trace O
  unfolding perform
  run l r s [] = record { out = []; ending = if l.finished s then returned else blocked }
  run l r s (e ∷ es) = elim (l.finished s) [
    | true ↦ record { out = []; ending = returned }
    | false ↦ perform l r (react l s e) (λ r' s'. run l r' s' es)
  ]

  -- The loop when every send finds a reader.
  unfoldable pub ideal : Loop S T O → S → List (Event T) → Trace O
  ideal l s [] = record { out = []; ending = if l.finished s then returned else blocked }
  ideal l s (e ∷ es) = elim (l.finished s) [
    | true ↦ record { out = []; ending = returned }
    | false ↦ perform_all (react l s e) (λ s'. ideal l s' es)
  ]

  -- What is left of a trace when the sends end after `r.sends` of them.
  unfoldable pub cut : Loop S T O → Room → Trace O → Trace O
  cut l r t =
      if leb (length t.out) r.sends
      then t
      else record { out = take r.sends t.out; ending = l.interrupted r.stop }

-- A source that sends the items and closes its channel.
abbrev pub items {ℓ} : {T : Type ℓ} → List T → List (Event T)
items = map item

-- A stage that has no second channel: the case of a nil channel is never picked.
abbrev pub never {ℓ κ} : {S : Type ℓ} {O : Type κ} → S → Action S O
never s = continue [] s

abbrev pub endless {ℓ} : {S : Type ℓ} → S → Bool
endless s = false

-- A source and a second channel that interleave: `none` is a signal.
abbrev pub feed {ℓ} : {T : Type ℓ} → List (Option T) → List (Event T)
feed [] = []
feed (some x ∷ fs) = item x ∷ feed fs
feed (none ∷ fs) = signal ∷ feed fs

-- The items of such a sequence.
abbrev pub contents {ℓ} : {T : Type ℓ} → List (Option T) → List T
contents [] = []
contents (some x ∷ fs) = x ∷ contents fs
contents (none ∷ fs) = contents fs
