-- ===== src/Notification/Roundtrip.antt =====
-- Dematerialize undoes Materialize.
use go_kitsune.Prelude.{
  ℕ, ◌<◌, ◌≡◌, refl, ap, false, List, [], ◌∷◌, ◌++◌, map, length, ltb, Option, none, some, arith,
  take_of_length-le, length-append, length-map,
}
use go_kitsune.Errors.{Error, wrap_stage_err}
use go_kitsune.Stage.{Event, item, items, End, returned, failed, Room, after, run, ideal, cut}
use go_kitsune.Stage.Cut.{run_of_ideal}
use go_kitsune.Notification.{
  Notification, next_notification, terminal, materialize, dematerialize_loop,
}

-- How the stage of Dematerialize with this name ends for a run that ended with this error.
abbrev pub end_of_run : ℕ → Option Error → End
end_of_run name none = returned
end_of_run name (some e) = failed (wrap_stage_err name e 0)

module _ {ℓ} {T : Type ℓ} (zero : T) (name : ℕ) where
  ideal-terminal :
      (run_err : Option Error) (es : List (Event (Notification T)))
      → ideal (dematerialize_loop name) tt (item (terminal zero run_err) ∷ es)
        ≡ record { out = []; ending = end_of_run name run_err }
  unfolding ideal dematerialize_loop
  ideal-terminal none es = refl
  ideal-terminal (some e) es = refl

  ideal-notifications :
      (xs : List T) (run_err : Option Error) (es : List (Event (Notification T)))
      → ideal
          (dematerialize_loop name)
          tt
          (items (map next_notification xs ++ terminal zero run_err ∷ []) ++ es)
        ≡ record { out = xs; ending = end_of_run name run_err }
  unfolding ideal dematerialize_loop
  ideal-notifications [] run_err es = ideal-terminal run_err es
  ideal-notifications (x ∷ xs) run_err es = ap (after (x ∷ [])) (ideal-notifications xs run_err es)

  sent-materialize :
      (room : ℕ) (xs : List T) (run_err : Option Error)
      → length xs < room
      → (materialize zero room xs run_err none).sent
        ≡ map next_notification xs ++ terminal zero run_err ∷ []
  unfolding materialize
  sent-materialize room xs run_err fits =
      let e : ltb room (length xs) ≡ false = ground (arith, fits) in
      rw e (
        take_of_length-le room (map next_notification xs ++ terminal zero run_err ∷ []) (
          omega (
            arith,
            fits,
            length-append (map next_notification xs) (terminal zero run_err ∷ []),
            length-map xs (next_notification {T = T}),
          )))

  -- Materialize and then Dematerialize, when the run context is not cancelled and every yield is
  -- accepted: whatever follows, the stage delivers the items of the pipeline, in order, and ends as
  -- its run ended, with nil or with its error wrapped with the stage's name; all that up to where its
  -- sends are interrupted.
  pub run-dematerialize_loop :
      (r : Room) (room : ℕ) (xs : List T) (run_err : Option Error)
      (es : List (Event (Notification T)))
      → length xs < room
      → run
          (dematerialize_loop name)
          r
          tt
          (items (materialize zero room xs run_err none).sent ++ es)
        ≡ cut (dematerialize_loop name) r (record { out = xs; ending = end_of_run name run_err })
  run-dematerialize_loop r room xs run_err es fits =
      rw (sent-materialize room xs run_err fits)
        (run_of_ideal (dematerialize_loop name) r tt _ (ideal-notifications xs run_err es))
