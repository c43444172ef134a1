-- ===== src/FlatMap/Fast.antt =====
-- flatMapSerialFastPath against flatMapSerial with the default handler.
use go_kitsune.Prelude.{
  ℕ, suc, ◌≡◌, ◌≢◌, ◌≤◌, refl, ap, ◌∙◌, List, [], ◌∷◌, ◌++◌, length, Option, none, some, arith,
  append_assoc, zero,
}
use go_kitsune.Errors.{
  canceled, deadline_exceeded, circuit_open, user, panicked, wrapped, stage_error, Error, skipped,
  wrap_stage_err,
}
use go_kitsune.Handlers.{default_handler, handle}
use go_kitsune.Process.{FlatCall, FlatOutcome, flat_attempts_from, flat_conclude, send_all}
use go_kitsune.Stage.{Event, closed, items, End, returned, failed, Trace, ideal, after, perform_all}
use go_kitsune.Stage.Bursts.{burst, pass_from-burst}
use go_kitsune.FlatMap.{
  flat_map_result, flat_map_fast_item, flat_map_loop, flat_map_fast_one, flat_map_fast_from,
}

-- What a stage reports when an item fails.
abbrev pub ended_by : ℕ → Option Error → End
ended_by name none = returned
ended_by name (some e) = failed (wrap_stage_err name e 0)

-- What goes on with a call that has no error, and what comes of one that has.
abbrev pub or_failure {κ} : {A : Type κ} → Option Error → A → A → A
or_failure none go stop = go
or_failure (some e) go stop = stop

module _ {ℓ} {O : Type ℓ} where
  abbrev pub yielded_if : Option Error → List O → List O
  yielded_if none ys = ys
  yielded_if (some e) ys = []

  -- What ProcessFlatMapItem returns without a handler.
  abbrev pub plain_outcome : FlatCall O → FlatOutcome O
  plain_outcome c = record { sent = yielded_if c.error c.yielded; error = c.error; attempt = 0 }

  send_all-whole :
      (room : ℕ) (fault : Error) (xs : List O)
      → length xs ≤ room
      → send_all room fault xs ≡ (xs, none)
  unfolding send_all
  send_all-whole zero fault [] h = refl
  send_all-whole (suc room) fault [] h = refl
  send_all-whole zero fault (x ∷ xs) h = absurd (omega arith)
  send_all-whole (suc room) fault (x ∷ xs) h = rw (send_all-whole room fault xs (omega arith)) refl

  plain_result :
      (yielded : List O) (error : Option Error) (room : ℕ) (fault : Error) (stop : Option Error)
      → length yielded ≤ room
      → flat_conclude default_handler error (send_all room fault yielded) stop 0 none
        ≡ some (record { sent = yielded_if error yielded; error = error; attempt = 0 })
  unfolding handle
  plain_result yielded none room fault stop h = rw (send_all-whole room fault yielded h) refl
  plain_result yielded (some e) room fault stop h = refl

  perform-flat_map_result :
      (name : ℕ) (yielded : List O) (error : Option Error) (again : Unit {0} → Trace O)
      (ys : List O) (later : Option Error)
      → error ≢ some skipped
      → again tt ≡ record { out = ys; ending = ended_by name later }
      → perform_all (flat_map_result name 0 (yielded_if error yielded) error) again ≡ record {
        out = or_failure error (yielded ++ ys) [];
        ending = ended_by name (or_failure error later error);
      }
  perform-flat_map_result name yielded none again ys later h eq = ap (after yielded) eq
  perform-flat_map_result name yielded (some skipped) again ys later h eq = absurd (h refl)
  perform-flat_map_result name yielded (some canceled) again ys later h eq = refl
  perform-flat_map_result name yielded (some deadline_exceeded) again ys later h eq = refl
  perform-flat_map_result name yielded (some circuit_open) again ys later h eq = refl
  perform-flat_map_result name yielded (some (user n)) again ys later h eq = refl
  perform-flat_map_result name yielded (some (panicked n)) again ys later h eq = refl
  perform-flat_map_result name yielded (some (wrapped c)) again ys later h eq = refl
  perform-flat_map_result name yielded (some (stage_error n k c)) again ys later h eq = refl

  fast_item-or_failure :
      (name : ℕ) (yielded : List O) (error : Option Error) (ys zs : List O) (later : Option Error)
      → flat_map_fast_item name yielded error
          (record { out = ys ++ zs; ending = ended_by name later })
        ≡ record {
          out = or_failure error (yielded ++ ys) [] ++ or_failure error zs yielded;
          ending = ended_by name (or_failure error later error);
        }
  fast_item-or_failure name yielded none ys zs later = rw (append_assoc) refl
  fast_item-or_failure name yielded (some e) ys zs later = refl

module _ {ℓ κ} {T : Type ℓ} {O : Type κ} (fn : T → FlatCall O) where
  -- What the calls before the first one that fails yield, what that one yields, and its error.
  abbrev pub yielded_before : List T → List O
  yielded_before [] = []
  yielded_before (x ∷ xs) = or_failure (fn x).error ((fn x).yielded ++ yielded_before xs) []

  abbrev pub yielded_failing : List T → List O
  yielded_failing [] = []
  yielded_failing (x ∷ xs) = or_failure (fn x).error (yielded_failing xs) (fn x).yielded

  abbrev pub first_failure : List T → Option Error
  first_failure [] = none
  first_failure (x ∷ xs) = or_failure (fn x).error (first_failure xs) (fn x).error

  burst-flat_map :
      (name size : ℕ) (xs : List T)
      → burst size (flat_map_fast_one name fn) xs (record { out = []; ending = returned })
        ≡ record {
          out = yielded_before xs ++ yielded_failing xs;
          ending = ended_by name (first_failure xs);
        }
  burst-flat_map name size [] = refl
  burst-flat_map name size (x ∷ xs) =
      ap (flat_map_fast_one name fn x) (burst-flat_map name size xs)
      ∙ fast_item-or_failure name (fn x).yielded (fn x).error (yielded_before xs)
          (yielded_failing xs) (first_failure xs)

  ideal-flat_map_loop :
      (name : ℕ) (xs : List T) (es : List (Event T))
      → ((x : T) → (fn x).error ≢ some skipped)
      → ideal (flat_map_loop name (λ x. plain_outcome (fn x))) tt (items xs ++ closed ∷ es)
        ≡ record { out = yielded_before xs; ending = ended_by name (first_failure xs) }
  unfolding ideal flat_map_loop
  ideal-flat_map_loop name [] es h = refl
  ideal-flat_map_loop name (x ∷ xs) es h =
      perform-flat_map_result name (fn x).yielded (fn x).error _ (yielded_before xs)
        (first_failure xs) (h x) (ideal-flat_map_loop name xs es h)

  -- A serial FlatMap without a handler, when every send finds a reader and fn does not return
  -- ErrSkipped, which is internal to the engine. When as many sends succeed as an item yields,
  -- ProcessFlatMapItem sends what a call without an error yields, and nothing of a call with one. So the loop sends what the calls before the first failing
  -- one yield, and ends with that error, or at the close of its input if there is none. The fast path,
  -- with any size of its buffer and any bursts, ends alike, but it has also sent what the failing
  -- call yielded. Fuel for one pass more than there are items is enough.
  pub flat_map_fast_from-loop :
      (name size : ℕ) (ready : List ℕ) (xs : List T) (es : List (Event T)) (y : T) (room : ℕ)
      (fault : Error) (stop : ℕ → Option Error)
      → ((x : T) → (fn x).error ≢ some skipped)
      → length (fn y).yielded ≤ room
      → (flat_attempts_from default_handler (λ k. fn y) room fault stop 1 0
          ≡ some (plain_outcome (fn y)))
        × (ideal (flat_map_loop name (λ x. plain_outcome (fn x))) tt (items xs ++ closed ∷ es)
            ≡ record { out = yielded_before xs; ending = ended_by name (first_failure xs) })
        × (flat_map_fast_from name size fn (suc (length xs)) ready xs ≡ record {
          out = yielded_before xs ++ yielded_failing xs;
          ending = ended_by name (first_failure xs);
        })
  unfolding flat_attempts_from flat_map_fast_from
  flat_map_fast_from-loop name size ready xs es y room fault stop h le = (
    plain_result (fn y).yielded (fn y).error room fault (stop 0) le,
    ideal-flat_map_loop name xs es h,
    pass_from-burst size (flat_map_fast_one name fn) (suc (length xs)) ready xs (omega arith)
        ∙ burst-flat_map name size xs,
  )
