-- ===== src/Examples/Concurrency.antt =====
-- Runs of the ordered map and of the drain signals.
use go_kitsune.Prelude.{ℕ, ◌*◌, ◌<◌, ◌≡◌, refl, [], ◌∷◌, none, some, arith}
use go_kitsune.Errors.{ok}
use go_kitsune.Process.{Outcome}
use go_kitsune.Stage.{returned}
use go_kitsune.Ordered.{
  filled, pending, ranging, done, reading, returning, live, State, state, here, read_item,
  read_closed, acquire, queue_slot, join, close_slots, return_verdict, fill, release, take_slot,
  slots_end, receive_result, send_value, Reach, start, later,
}
use go_kitsune.Ordered.Ahead.{serial}
use go_kitsune.Ordered.Agreement.{ordered-serial}
use go_kitsune.Ordered.Progress.{Next, ordered_progress, ordered-terminates, left}
use go_kitsune.Drain.{DrainEntry, init_multi_output_drain_notify, drain_ch, signals, empty_ctx}
use go_kitsune.Drain.Closing.{drain_ch-signals}

abbrev tenfold : ℕ → Outcome ℕ
tenfold x = record { result = ok (10 * x); attempt = 0 }

abbrev dispatched : State ℕ ℕ
dispatched = state reading [] (pending 5 ∷ []) ranging 1 0 live []

Reach-dispatched : Reach tenfold 7 1 (5 ∷ []) dispatched
Reach-dispatched =
    later (later (later start read_item) (acquire (omega arith))) (queue_slot (omega arith))

Reach-sent : Reach tenfold 7 1 (5 ∷ []) (state reading [] [] ranging 0 0 live (50 ∷ []))
Reach-sent =
    later
      (later (later (later (later Reach-dispatched (fill here)) release) take_slot) receive_result)
      send_value

abbrev over : State ℕ ℕ
over = state (returning none) [] [] (done none) 1 0 live (50 ∷ [])

Reach-over : Reach tenfold 7 1 (5 ∷ []) over
Reach-over =
    later
      (later
        (later (later (later Reach-sent read_closed) (join (omega arith) (omega arith)))
          (close_slots refl))
        (slots_end refl))
      (return_verdict refl)

ordered-serial_example : record { out = 50 ∷ []; ending = returned } ≡ serial tenfold 7 (5 ∷ [])
ordered-serial_example =
    ordered-serial tenfold 7 1 (5 ∷ []) [] none [] (done none) 1 0 live (50 ∷ []) refl Reach-over

ordered_progress_example : Next tenfold 7 1 dispatched
ordered_progress_example =
    ordered_progress tenfold 7 1 (5 ∷ []) dispatched (omega arith) refl Reach-dispatched

abbrev answered : State ℕ ℕ
answered = state reading [] (filled (tenfold 5) ∷ []) ranging 1 1 live []

ordered-terminates_example : left 1 answered < left 1 dispatched
ordered-terminates_example = ordered-terminates tenfold 7 1 dispatched answered (fill here)

-- Two outputs with two consumers, and a signal for an output of no stage.
drain_ch-signals_example :
    (e : DrainEntry) × (drain_ch
        (signals (init_multi_output_drain_notify empty_ctx (4 ∷ 5 ∷ []) 2) (4 ∷ 9 ∷ 5 ∷ []))
        5
      ≡ some e)
    × (e.closes ≡ 1)
drain_ch-signals_example =
    drain_ch-signals empty_ctx (4 ∷ 5 ∷ []) (4 ∷ 9 ∷ 5 ∷ []) 2 5 (λ id at h. absurd (cc h))
      (omega arith) (omega arith) refl
