-- ===== src/Timed.antt =====
-- time_op.go: Throttle, Sample and Debounce, each as the loop of its stage function.
--
-- The clock is read once for an item, so an item comes with that time, which `at` gives. The ticker of
-- Sample and the timer of Debounce are the second channel of the loop. lastEmit is zero only
-- before the first item is sent. In Debounce timerActive and hasPending are set and reset together,
-- and a timer that is not active does not fire.
pub mod Thinned
pub mod Quiet
use go_kitsune.Prelude.{
  ℕ, ◌+◌, ◌-◌, Bool, true, List, [], ◌∷◌, Option, none, some, leb, if◌then◌else◌,
}
use go_kitsune.Stage.{Action, continue, finish, returned, Loop, endless, never, outbox_send}
use go_kitsune.Transform.{per_item, return_nil}

-- `lastEmit.IsZero() || now.Sub(lastEmit) >= window`
abbrev pub is_due : ℕ → Option ℕ → ℕ → Bool
is_due window none now = true
is_due window (some last) now = leb (last + window) now

module _ {ℓ} {T : Type ℓ} where
  unfoldable pub throttle_loop : ℕ → (T → ℕ) → Loop (Option ℕ) T T
  throttle_loop window at =
      per_item
        (λ last x.
          if is_due window last (at x) then continue (x ∷ []) (some (at x)) else continue [] last)
        return_nil

  -- The case of the ticker, and that of the timer.
  abbrev pub send_latest : Option T → Action (Option T) T
  send_latest none = continue [] none
  send_latest (some x) = continue (x ∷ []) none

  -- The state is `latest`, when hasLatest.
  unfoldable pub sample_loop : Loop (Option T) T T
  sample_loop = record {
    finished = endless;
    on_item = λ latest x. continue [] (some x);
    on_closed = return_nil;
    on_signal = send_latest;
    on_signal_closed = never;
    interrupted = outbox_send;
  }

  abbrev pub flush_pending : Option T → Action (Option T) T
  flush_pending none = finish [] returned
  flush_pending (some x) = finish (x ∷ []) returned

  -- The state is `pending`, when hasPending.
  unfoldable pub debounce_loop : Loop (Option T) T T
  debounce_loop = record {
    finished = endless;
    on_item = λ pending x. continue [] (some x);
    on_closed = flush_pending;
    on_signal = send_latest;
    on_signal_closed = never;
    interrupted = outbox_send;
  }
