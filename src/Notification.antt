-- ===== src/Notification.antt =====
-- notification.go: Notification, Materialize and the stage of Dematerialize.
--
-- The pipeline that Materialize runs is given by the items that it delivers and by the error of its
-- Run; `room` is how many times yield is called before it returns false.
pub mod Roundtrip
use go_kitsune.Prelude.{
  ℕ, Bool, true, false, not, ◌&&◌, List, [], ◌∷◌, ◌++◌, map, length, take, ltb, Option, none, some,
  is_some, if◌then◌else◌,
}
use go_kitsune.Errors.{Error, wrap_stage_err}
use go_kitsune.Stage.{Action, continue, finish, returned, failed, Loop}
use go_kitsune.Transform.{per_item, return_nil}

pub record Notification {ℓ} (T : Type ℓ) : Type ℓ where
  pub value : T
  pub error : Option Error
  pub done : Bool

-- What a source of Generate has sent, and the error that it returns.
pub record Emission {ℓ} (T : Type ℓ) : Type ℓ where
  pub sent : List T
  pub result : Option Error

module _ {ℓ} {T : Type ℓ} where
  abbrev pub is_value : Notification T → Bool
  is_value n = not n.done && not (is_some n.error)

  abbrev pub is_error : Notification T → Bool
  is_error n = n.done && is_some n.error

  abbrev pub is_complete : Notification T → Bool
  is_complete n = n.done && not (is_some n.error)

  abbrev pub next_notification : T → Notification T
  next_notification v = record { value = v; error = none; done = false }

  -- `zero` is the zero value of T.
  abbrev pub error_notification : T → Error → Notification T
  error_notification zero e = record { value = zero; error = some e; done = true }

  abbrev pub complete_notification : T → Notification T
  complete_notification zero = record { value = zero; error = none; done = true }

  -- The notification of how the run ended.
  abbrev pub terminal : T → Option Error → Notification T
  terminal zero none = complete_notification zero
  terminal zero (some e) = error_notification zero e

  -- Materialize: `ctx_err` is ctx.Err() after the run.
  abbrev after_upstream :
      T → ℕ → List (Notification T) → Option Error → Option Error → Emission (Notification T)
  after_upstream zero room sent run_err none = record {
    sent = take room (sent ++ terminal zero run_err ∷ []);
    result = none;
  }
  after_upstream zero room sent run_err (some e) = record { sent = sent; result = some e }

  unfoldable pub materialize :
      T → ℕ → List T → Option Error → Option Error → Emission (Notification T)
  materialize zero room xs run_err ctx_err =
      let stopped = ltb room (length xs) in
      if stopped
      then record { sent = take room (map next_notification xs); result = none }
      else after_upstream zero room (map next_notification xs) run_err ctx_err

  -- Dematerialize: an error comes before the test of Done.
  abbrev pub unwrap : ℕ → T → Option Error → Bool → Action (Unit {0}) T
  unwrap name v (some e) done = finish [] (failed (wrap_stage_err name e 0))
  unwrap name v none true = finish [] returned
  unwrap name v none false = continue (v ∷ []) tt

  unfoldable pub dematerialize_loop : ℕ → Loop (Unit {0}) (Notification T) T
  unfolding wrap_stage_err
  dematerialize_loop name = per_item (λ s n. unwrap name n.value n.error n.done) return_nil
