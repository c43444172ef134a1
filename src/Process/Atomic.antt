-- ===== src/Process/Atomic.antt =====
-- ProcessFlatMapItem sends nothing of an attempt that fails.
use go_kitsune.Prelude.{
  ℕ, ◌≤◌, ◌<◌, zero, suc, ◌+◌, ◌≡◌, refl, ap, List, [], ◌∷◌, take, Option, none, some, inl, inr,
  Option-cases, arith, ◌⊎◌,
}
use go_kitsune.Errors.{Error, skipped}
use go_kitsune.Handlers.{
  Handler, default_handler, skip_handler, return_handler, typed_return_handler, retry_then,
  retry_handler, retry_if_handler, handle, backoff, Backoff,
}
use go_kitsune.Process.Attempts.{Settles}
use go_kitsune.Process.{FlatCall, FlatOutcome, flat_attempts_from, flat_conclude, send_all}

module _ {ℓ} {O : Type ℓ} where
  -- An outcome that sends nothing, or the first `room` items of its own attempt, which had no error.
  abbrev pub Atomic : (ℕ → FlatCall O) → ℕ → FlatOutcome O → Type ℓ
  Atomic fn room o =
      (o.sent ≡ []) ⊎ (((fn o.attempt).error ≡ none) × (o.sent ≡ take room (fn o.attempt).yielded))

  send_all-take :
      (room : ℕ) (fault : Error) (xs : List O) → (send_all room fault xs).0 ≡ take room xs
  unfolding send_all
  send_all-take zero fault [] = refl
  send_all-take (suc room) fault [] = refl
  send_all-take zero fault (x ∷ xs) = refl
  send_all-take (suc room) fault (x ∷ xs) = ap (λ ys. x ∷ ys) (send_all-take room fault xs)

  -- The handlers that ActionRetry cannot come from.
  flat_settled :
      (fb : Handler O) (fn : ℕ → FlatCall O) (room : ℕ) (flushed : List O × Option Error)
      (e : Error) (stop : Option Error) (max n : ℕ) (bo : Option Backoff)
      (again : Option (FlatOutcome O))
      → Settles fb
      → n ≡ max
      → (o : FlatOutcome O) × (flat_conclude (retry_handler max bo fb) (some e) flushed stop n again
          ≡ some o)
        × Atomic fn room o
        × (o.attempt ≤ max)
  unfolding handle
  flat_settled default_handler fn room flushed e stop max n bo again h g =
      (record { sent = []; error = some e; attempt = n }, ground arith, inl refl, omega arith)
  flat_settled skip_handler fn room flushed e stop max n bo again h g =
      (record { sent = []; error = some skipped; attempt = n }, ground arith, inl refl, omega arith)
  flat_settled (return_handler x) fn room flushed e stop max n bo again h g =
      (record { sent = []; error = some skipped; attempt = n }, ground arith, inl refl, omega arith)
  flat_settled (typed_return_handler x) fn room flushed e stop max n bo again h g =
      (record { sent = []; error = some skipped; attempt = n }, ground arith, inl refl, omega arith)
  flat_settled (retry_handler m b f) fn room flushed e stop max n bo again h g = absurd (cc h)
  flat_settled (retry_if_handler p b f) fn room flushed e stop max n bo again h g = absurd (cc h)

  flat_retried :
      (fb : Handler O) (fn : ℕ → FlatCall O) (room : ℕ) (flushed : List O × Option Error)
      (e : Error) (stop : Option Error) (max n : ℕ) (bo : Option Backoff) (later : FlatOutcome O)
      → n < max
      → Atomic fn room later × (later.attempt ≤ max)
      → (o : FlatOutcome O) × (flat_conclude
            (retry_handler max bo fb)
            (some e)
            flushed
            stop
            n
            (some later)
          ≡ some o)
        × Atomic fn room o
        × (o.attempt ≤ max)
  unfolding handle backoff
  flat_retried fb fn room flushed e stop max n none later g h =
      (record { sent = []; error = some e; attempt = n }, ground arith, inl refl, omega arith)
  flat_retried fb fn room flushed e (some c) max n (some bo) later g h =
      (record { sent = []; error = some c; attempt = n }, ground arith, inl refl, omega arith)
  flat_retried fb fn room flushed e none max n (some bo) later g h = (later, ground arith, h.0, h.1)

  flat_sent :
      (hd : Handler O) (fn : ℕ → FlatCall O) (room : ℕ) (fault : Error) (stop : Option Error)
      (n : ℕ) (again : Option (FlatOutcome O))
      → (fn n).error ≡ none
      → (o : FlatOutcome O) × (flat_conclude hd none
            (send_all room fault (fn n).yielded)
            stop
            n
            again
          ≡ some o)
        × Atomic fn room o
        × (o.attempt ≡ n)
  flat_sent hd fn room fault stop n again h =
      let xs = (fn n).yielded in
      (
        record {
          sent = (send_all room fault xs).0;
          error = (send_all room fault xs).1;
          attempt = n;
        },
        refl,
        inr (h, send_all-take room fault xs),
        refl,
      )

  flat-Atomic :
      (fb : Handler O) (fn : ℕ → FlatCall O) (room : ℕ) (fault : Error) (stop : ℕ → Option Error)
      (max n k fuel : ℕ) (bo : Option Backoff)
      → Settles fb
      → k + n ≡ max
      → k < fuel
      → (o : FlatOutcome O) × (flat_attempts_from
            (retry_handler max bo fb)
            fn
            room
            fault
            stop
            fuel
            n
          ≡ some o)
        × Atomic fn room o
        × (o.attempt ≤ max)
  unfolding flat_attempts_from
  flat-Atomic fb fn room fault stop max n k zero bo h g l = absurd (omega arith)
  flat-Atomic fb fn room fault stop max n zero (suc fuel) bo h g l =
      elim (Option-cases (fn n).error) [
        | inl fine ↦
            let (o, eq, at, same) =
              flat_sent (retry_handler max bo fb) fn room fault (stop n) n
                (flat_attempts_from (retry_handler max bo fb) fn room fault stop fuel (n + 1))
                fine in
            (o, rw (fine) eq, at, omega arith)
        | inr (e, bad) ↦ rw (bad) (
            flat_settled fb fn room (send_all room fault (fn n).yielded) e (stop n) max n bo _ h
              (omega arith))
      ]
  flat-Atomic fb fn room fault stop max n (suc k) (suc fuel) bo h g l =
      elim (Option-cases (fn n).error) [
        | inl fine ↦
            let (o, eq, at, same) =
              flat_sent (retry_handler max bo fb) fn room fault (stop n) n
                (flat_attempts_from (retry_handler max bo fb) fn room fault stop fuel (n + 1))
                fine in
            (o, rw (fine) eq, at, omega arith)
        | inr (e, bad) ↦
            let (o, eq, at, le) =
              flat-Atomic fb fn room fault stop max (n + 1) k fuel bo h (omega arith)
                (omega arith) in
            rw (bad, eq)
              (flat_retried fb fn room (send_all room fault (fn n).yielded) e (stop n) max n bo o
                (omega arith) (at, le))
      ]

  -- ProcessFlatMapItem with a RetryThen whose fallback does not retry: fuel for max + 1 attempts is
  -- enough, whatever the waits, the function and the sends do. It sends nothing at all, or what it
  -- sends is from one attempt alone, which had no error: all that attempt yielded, up to the first
  -- send that fails. No attempt above max is made.
  pub flat_attempts_from-Atomic :
      (fb : Handler O) (fn : ℕ → FlatCall O) (room : ℕ) (fault : Error) (stop : ℕ → Option Error)
      (max extra : ℕ) (bo : Option Backoff)
      → Settles fb
      → (o : FlatOutcome O) × (flat_attempts_from
            (retry_then max bo fb)
            fn
            room
            fault
            stop
            (suc (max + extra))
            0
          ≡ some o)
        × Atomic fn room o
        × (o.attempt ≤ max)
  flat_attempts_from-Atomic fb fn room fault stop max extra bo h =
      flat-Atomic fb fn room fault stop max 0 max (suc (max + extra)) bo h (omega arith)
        (omega arith)
