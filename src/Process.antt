-- ===== src/Process.antt =====
-- internal/process.go: ProcessItem and ProcessFlatMapItem.
--
-- The callback is not part of the engine: what its successive calls give is a function of the attempt,
-- and so is what ends the wait of a backoff (`none` the timer, `some e` the context, with ctx.Err()).
-- `for attempt := 0; ; attempt++` has no bound of its own; it runs on fuel.
pub mod Attempts
pub mod Atomic
use go_kitsune.Prelude.{ℕ, zero, suc, ◌+◌, List, [], ◌∷◌, Option, none, some}
use go_kitsune.Errors.{Error, skipped, Result, ok, err}
use go_kitsune.Handlers.{
  ErrorAction, action_halt, action_skip, action_retry, action_return, AnyValue, of_type, other_type,
  Handler, default_handler, handle, Backoff, backoff, return_value,
}

-- `if h == nil { h = DefaultHandler{} }`
abbrev pub or_default {ℓ} : {O : Type ℓ} → Option (Handler O) → Handler O
or_default none = default_handler
or_default (some h) = h

pub record Outcome {ℓ} (O : Type ℓ) : Type ℓ where
  pub result : Result O
  pub attempt : ℕ

-- The wait before the next attempt.
abbrev pub await_retry {ℓ} : {R : Type ℓ} → Option Backoff → Option Error → R → (Error → R) → R → R
await_retry none stop nil_backoff interrupted again = nil_backoff
await_retry (some bo) none nil_backoff interrupted again = again
await_retry (some bo) (some e) nil_backoff interrupted again = interrupted e

module _ {ℓ} {O : Type ℓ} where
  -- The replacement value of ActionReturn, or the error when there is none of type O.
  abbrev pub replaced : Option (AnyValue O) → Error → Result O
  replaced (some (of_type v)) e = ok v
  replaced (some other_type) e = err e
  replaced none e = err e

  abbrev settle :
      Handler O → ErrorAction → Error → Option Error → ℕ → Option (Outcome O) → Option (Outcome O)
  settle h action_skip e stop n again = some (record { result = err skipped; attempt = n })
  settle h action_return e stop n again =
      some (record { result = replaced (return_value h) e; attempt = n })
  settle h action_retry e stop n again =
      await_retry (backoff h) stop (some (record { result = err e; attempt = n }))
        (λ c. some (record { result = err c; attempt = n })) again
  settle h action_halt e stop n again = some (record { result = err e; attempt = n })

  abbrev pub conclude :
      Handler O → Result O → Option Error → ℕ → Option (Outcome O) → Option (Outcome O)
  conclude h (ok v) stop n again = some (record { result = ok v; attempt = n })
  conclude h (err e) stop n again = settle h (handle h e n) e stop n again

  -- ProcessItem from an attempt on; `none` says that the fuel is spent.
  unfoldable pub attempts_from :
      Handler O → (ℕ → Result O) → (ℕ → Option Error) → ℕ → ℕ → Option (Outcome O)
  unfolding handle backoff return_value
  attempts_from h fn stop zero n = none
  attempts_from h fn stop (suc fuel) n =
      let again = attempts_from h fn stop fuel (n + 1) in conclude h (fn n) (stop n) n again

  unfoldable pub process_item :
      Option (Handler O) → (ℕ → Result O) → (ℕ → Option Error) → ℕ → Option (Outcome O)
  unfolding attempts_from
  process_item h fn stop fuel = attempts_from (or_default h) fn stop fuel 0

-- One call of a FlatMap function: what it yields, and its error.
pub record FlatCall {ℓ} (O : Type ℓ) : Type ℓ where
  pub yielded : List O
  pub error : Option Error

pub record FlatOutcome {ℓ} (O : Type ℓ) : Type ℓ where
  pub sent : List O
  pub error : Option Error
  pub attempt : ℕ

module _ {ℓ} {O : Type ℓ} where
  -- `for _, v := range buf { if sendErr := send(v); … }`: the room says how many sends succeed, and
  -- with what error the next one fails.
  unfoldable pub send_all : ℕ → Error → List O → List O × Option Error
  send_all room fault [] = ([], none)
  send_all zero fault (x ∷ xs) = ([], some fault)
  send_all (suc room) fault (x ∷ xs) = let (sent, e) = send_all room fault xs in (x ∷ sent, e)

  abbrev flat_settle :
      Handler O
      → ErrorAction
      → Error
      → Option Error
      → ℕ
      → Option (FlatOutcome O)
      → Option (FlatOutcome O)
  flat_settle h action_skip e stop n again =
      some (record { sent = []; error = some skipped; attempt = n })
  flat_settle h action_return e stop n again =
      some (record { sent = []; error = some skipped; attempt = n })
  flat_settle h action_retry e stop n again =
      await_retry (backoff h) stop (some (record { sent = []; error = some e; attempt = n }))
        (λ c. some (record { sent = []; error = some c; attempt = n })) again
  flat_settle h action_halt e stop n again =
      some (record { sent = []; error = some e; attempt = n })

  abbrev flush_buffer : List O × Option Error → ℕ → FlatOutcome O
  flush_buffer (sent, e) n = record { sent = sent; error = e; attempt = n }

  abbrev pub flat_conclude :
      Handler O
      → Option Error
      → List O × Option Error
      → Option Error
      → ℕ
      → Option (FlatOutcome O)
      → Option (FlatOutcome O)
  flat_conclude h none flushed stop n again = some (flush_buffer flushed n)
  flat_conclude h (some e) flushed stop n again = flat_settle h (handle h e n) e stop n again

  -- ProcessFlatMapItem from an attempt on.
  unfoldable pub flat_attempts_from :
      Handler O → (ℕ → FlatCall O) → ℕ → Error → (ℕ → Option Error) → ℕ → ℕ → Option (FlatOutcome O)
  unfolding handle backoff send_all
  flat_attempts_from h fn room fault stop zero n = none
  flat_attempts_from h fn room fault stop (suc fuel) n =
      let again = flat_attempts_from h fn room fault stop fuel (n + 1) in
      flat_conclude h (fn n).error (send_all room fault (fn n).yielded) (stop n) n again
