-- ===== src/Supervisor.antt =====
-- internal/process.go: Supervise, over the successive runs of a stage function.
pub mod Restarting
use go_kitsune.Prelude.{
  ◌⊎◌, inl, inr, ℕ, ◌+◌, ◌-◌, Bool, true, false, List, [], ◌∷◌, Option, none, some, ltb, leb, ◌&&◌,
  not, if◌then◌else◌,
}
use go_kitsune.Errors.{Error, panicked}
use go_kitsune.Handlers.{Backoff}

-- PanicAction and SupervisionPolicy of internal/hooks.go.
pub data PanicAction : Type 0 where
  panic_propagate panic_restart panic_skip : PanicAction

pub record SupervisionPolicy : Type 0 where
  pub max_restarts : ℕ
  pub window : ℕ
  pub backoff_of : Option Backoff
  pub on_panic : PanicAction
  pub panic_only : Bool

abbrev pub propagates : PanicAction → Bool
propagates panic_propagate = true
propagates panic_restart = false
propagates panic_skip = false

unfoldable pub has_supervision : SupervisionPolicy → Bool
has_supervision p = if ltb 0 p.max_restarts then true else not (propagates p.on_panic)

-- One run of the stage function, and what the clock and the context say after it.
pub data RunEnd : Type 0 where
  run_ok : RunEnd
  run_err : Error → RunEnd
  run_panic : ℕ → RunEnd

pub record Try : Type 0 where
  pub run_end : RunEnd
  pub ctx_err : Option Error
  pub since : ℕ
  pub now : ℕ
  pub stop : Option Error

pub data Supervised : Type 0 where
  returned_nil : Supervised
  returned_err : Error → Supervised
  repanicked : ℕ → Supervised

pub record Restarts : Type 0 where
  pub restarts : ℕ
  pub window_start : Option ℕ

-- What the run's end asks for: to stop with a result, or to restart after an error.
abbrev pub judge : SupervisionPolicy → RunEnd → Supervised ⊎ Error
judge p run_ok = inl returned_nil
judge p (run_err e) = if p.panic_only then inl (returned_err e) else inr e
judge p (run_panic v) = elim p.on_panic [
  | panic_propagate ↦ inl (repanicked v)
  | panic_skip ↦ inl returned_nil
  | panic_restart ↦ inr (panicked v)
]

-- `policy.Window > 0 && !windowStart.IsZero() && time.Since(windowStart) > policy.Window`
abbrev pub expire : ℕ → ℕ → Restarts → Restarts
expire window since s = elim s.window_start [
  | none ↦ s
  | some start ↦
      if ltb 0 window && ltb window (since - start)
      then record { restarts = 0; window_start = none }
      else s
]

abbrev pub open_window : Option ℕ → ℕ → Option ℕ
open_window none now = some now
open_window (some start) now = some start

-- The wait of the backoff, which is skipped when it is nil or 0.
abbrev pub pause : Option Backoff → ℕ → Option Error → Option Error
pause none n stop = none
pause (some bo) n stop = if ltb 0 (bo n) then stop else none

-- What follows a run, by the code's tests in order: ctx.Err(), the budget, the wait of the backoff.
abbrev pub after_run :
    Supervised ⊎ Error → Option Error → Bool → Option Error → Option Supervised → Option Supervised
after_run (inl r) ctx spent cut again = some r
after_run (inr e) (some c) spent cut again = some (returned_err c)
after_run (inr e) none true cut again = some (returned_err e)
after_run (inr e) none false (some c) again = some (returned_err c)
after_run (inr e) none false none again = again

abbrev pub restarted : Restarts → ℕ → Restarts
restarted s now = record {
  restarts = s.restarts + 1;
  window_start = open_window s.window_start now;
}

-- The `for` loop of Supervise over the successive runs; `none` says that it goes on after them.
unfoldable pub supervise_from : SupervisionPolicy → Restarts → List Try → Option Supervised
supervise_from p s [] = none
supervise_from p s (t ∷ ts) =
    let s' = expire p.window t.since s in
    after_run (judge p t.run_end) t.ctx_err (leb p.max_restarts s'.restarts)
      (pause p.backoff_of s'.restarts t.stop) (supervise_from p (restarted s' t.now) ts)

abbrev pub no_restarts : Restarts
no_restarts = record { restarts = 0; window_start = none }

abbrev pub pass_through : RunEnd → Supervised
pass_through run_ok = returned_nil
pass_through (run_err e) = returned_err e
pass_through (run_panic v) = repanicked v

unfoldable pub supervise : SupervisionPolicy → List Try → Option Supervised
unfolding supervise_from has_supervision
supervise p [] = none
supervise p (t ∷ ts) =
    if has_supervision p
    then supervise_from p no_restarts (t ∷ ts)
    else some (pass_through t.run_end)
