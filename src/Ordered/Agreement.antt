-- ===== src/Ordered/Agreement.antt =====
-- The ordered map sends what the serial map sends.
use go_kitsune.Prelude.{
  ℕ, ◌≡◌, refl, sym, ap, ◌∙◌, subst, true, false, List, [], ◌∷◌, ◌++◌, append-nil, append_assoc,
  Option, none, some,
}
use go_kitsune.Errors.{
  Error, canceled, deadline_exceeded, skipped, circuit_open, user, panicked, wrapped, stage_error,
  Result, ok, err, wrap_stage_err,
}
use go_kitsune.Process.{Outcome}
use go_kitsune.Stage.{End, returned, failed, Trace, after, perform_all}
use go_kitsune.Transform.{map_result}
use go_kitsune.Ordered.Ahead.{to_end, serial, to_come, ahead, serial_nil, ahead-append, ahead-Fill}
use go_kitsune.Ordered.Contexts.{
  undisturbed, by_itself, live_of, is_joined, closed-is_joined, result_of, cancel-by_itself,
  undisturbed-cancel, ctx_error-cancel, cancel_on-live,
}
use go_kitsune.Ordered.{
  Slot, pending, Drainer, ranging, receiving, sending, discarding, dropping, done, Dispatcher,
  returning, Cancel, live, by_drainer, from_outside, ctx_error, cancel, is_closed, hear, cancel_on,
  verdict, State, state, initial, Step, read_item, read_closed, drain_signal, read_done, acquire,
  acquire_done, queue_slot, queue_done, join, close_slots, return_verdict, cancel_outside, fill,
  fill_received, fill_dropped, release, take_slot, discard_slot, slots_end, discard_end,
  receive_result, drop_result, send_value, send_done, Reach, start, later,
}

module _ {ℓ κ} {I : Type ℓ} {O : Type κ} (process : I → Outcome O) (name : ℕ) where
  module _ (total : Trace O) where
    -- What has been sent begins the serial run, and is all of it where nothing disturbed the stage.
    abbrev Settled : Cancel → List O → Option Error → Type κ
    Settled k out v =
        ((rest : List O) × (out ++ rest ≡ total.out))
        × (undisturbed k ≡ true → record { out = out; ending = to_end v } ≡ total)

    -- The drainer is as far as the serial run would be.
    abbrev Agrees : List (Slot I O) → List I → Drainer I O → Cancel → List O → Type κ
    Agrees q xs ranging k out =
        (after out (ahead process name q xs) ≡ total) × (by_itself k ≡ false)
    Agrees q xs (receiving s) k out =
        (after out (ahead process name (s ∷ q) xs) ≡ total) × (by_itself k ≡ false)
    Agrees q xs (sending v) k out =
        (after (out ++ v ∷ []) (ahead process name q xs) ≡ total) × (by_itself k ≡ false)
    Agrees q xs (discarding v) k out = Settled k out v
    Agrees q xs (dropping v s) k out = Settled k out v
    Agrees q xs (done v) k out = Settled k out v

    -- A dispatcher that stopped reading had the last item, unless the context is cancelled.
    abbrev Exhausted : Dispatcher → List I → Cancel → Type ℓ
    Exhausted d xs k = is_joined d ≡ true → ctx_error k ≡ none → xs ≡ []

    -- The value that the stage returns is the drainer's.
    abbrev Heard : Dispatcher → Drainer I O → Type 0
    Heard d r = (v : Option Error) → result_of d ≡ some v → verdict r ≡ some v

    abbrev Inv : State I O → Type (ℓ ⊔ κ)
    Inv (state d xs q r n l k out) = Agrees q xs r k out × Exhausted d xs k × Heard d r

    -- What a context that is cancelled twice keeps.
    Agrees-ahead :
        (q p : List (Slot I O)) (xs ys : List I) (r : Drainer I O) (k : Cancel) (out : List O)
        → ahead process name q xs ≡ ahead process name p ys
        → Agrees q xs r k out
        → Agrees p ys r k out
    Agrees-ahead q p xs ys ranging k out e a = (subst (λ t. after out t ≡ total) e a.0, a.1)
    Agrees-ahead q p xs ys (receiving s) k out e a = (
      subst
          (λ t.
            after out (
              perform_all
                (map_result name (to_come process name s).attempt (to_come process name s).result)
                (λ u. t))
            ≡ total)
          e a.0,
      a.1,
    )
    Agrees-ahead q p xs ys (sending v) k out e a =
        (subst (λ t. after (out ++ v ∷ []) t ≡ total) e a.0, a.1)
    Agrees-ahead q p xs ys (discarding v) k out e a = a
    Agrees-ahead q p xs ys (dropping v s) k out e a = a
    Agrees-ahead q p xs ys (done v) k out e a = a

    Agrees-cancel :
        (q : List (Slot I O)) (xs : List I) (r : Drainer I O) (e : Error) (k : Cancel)
        (out : List O)
        → Agrees q xs r k out
        → Agrees q xs r (cancel (from_outside e) k) out
    Agrees-cancel q xs ranging e k out a = (a.0, cancel-by_itself e k a.1)
    Agrees-cancel q xs (receiving s) e k out a = (a.0, cancel-by_itself e k a.1)
    Agrees-cancel q xs (sending v) e k out a = (a.0, cancel-by_itself e k a.1)
    Agrees-cancel q xs (discarding v) e k out a = (a.0, λ u. a.1 (undisturbed-cancel e k u))
    Agrees-cancel q xs (dropping v s) e k out a = (a.0, λ u. a.1 (undisturbed-cancel e k u))
    Agrees-cancel q xs (done v) e k out a = (a.0, λ u. a.1 (undisturbed-cancel e k u))

    after-append :
        (out more : List O) (t : Trace O) → after (out ++ more) t ≡ after out (after more t)
    after-append out more t =
        ap (λ ys. record { out = ys; ending = t.ending }) (append_assoc out more t.out)

    after_nil :
        (out : List O) (end : End)
        → after out (record { out = []; ending = end }) ≡ record { out = out; ending = end }
    after_nil out end = ap (λ ys. record { out = ys; ending = end }) (append-nil out)

    -- A run that ends here.
    Settled-self :
        (k : Cancel) (out : List O) (v : Option Error)
        → record { out = out; ending = to_end v } ≡ total
        → Settled k out v
    Settled-self k out v e = (([], append-nil out ∙ ap (λ t. t.out) e), λ u. e)

    Settled-failed :
        {out : List O} {e : Error} (k : Cancel)
        → after out (record { out = []; ending = failed e }) ≡ total
        → Settled k out (some e)
    Settled-failed {out} {e} k a = Settled-self k out (some e) (sym (after_nil out (failed e)) ∙ a)

    -- The result that the drainer receives is what the serial map handles.
    Agrees-hear :
        (q : List (Slot I O)) (xs : List I) (attempt : ℕ) (r : Result O) (k : Cancel) (out : List O)
        → after out (perform_all (map_result name attempt r) (λ u. ahead process name q xs)) ≡ total
        → by_itself k ≡ false
        → Agrees q xs (hear name attempt r) (cancel_on r k) out
    unfolding wrap_stage_err
    Agrees-hear q xs att (ok v) k out a b =
        (after-append out (v ∷ []) (ahead process name q xs) ∙ a, b)
    Agrees-hear q xs att (err skipped) k out a b = (a, b)
    Agrees-hear q xs att (err canceled) k out a b = Settled-failed (cancel by_drainer k) a
    Agrees-hear q xs att (err deadline_exceeded) k out a b = Settled-failed (cancel by_drainer k) a
    Agrees-hear q xs att (err circuit_open) k out a b = Settled-failed (cancel by_drainer k) a
    Agrees-hear q xs att (err (user c)) k out a b = Settled-failed (cancel by_drainer k) a
    Agrees-hear q xs att (err (panicked c)) k out a b = Settled-failed (cancel by_drainer k) a
    Agrees-hear q xs att (err (wrapped c)) k out a b = Settled-failed (cancel by_drainer k) a
    Agrees-hear q xs att (err (stage_error m n c)) k out a b =
        Settled-failed (cancel by_drainer k) a

    Settled-end :
        (d : Dispatcher) (xs : List I) (k : Cancel) (out : List O)
        → is_closed d ≡ true
        → Exhausted d xs k
        → after out (serial process name xs) ≡ total
        → by_itself k ≡ false
        → Settled k out none
    Settled-end d xs k out c h a b = (
      ((serial process name xs).out, ap (λ t. t.out) a),
      λ u.
          let e = h (closed-is_joined d c) (live_of k b u) in
          sym (after_nil out returned)
          ∙ subst (λ t. after out t ≡ total) (ap (serial process name) e ∙ serial_nil process name)
              a,
    )

    -- A Send that the context ends: the context was cancelled from outside.
    Settled-give_up :
        {e : Error} (v : O) (t : Trace O) (k : Cancel) (out : List O)
        → ctx_error k ≡ some e
        → after (out ++ v ∷ []) t ≡ total
        → by_itself k ≡ false
        → Settled (cancel by_drainer k) out (some e)
    Settled-give_up v t live out c a b = absurd (cc c)
    Settled-give_up v t by_drainer out c a b = absurd (cc b)
    Settled-give_up v t (from_outside e) out c a b =
        ((v ∷ t.out, sym (append_assoc out (v ∷ []) t.out) ∙ ap (λ t. t.out) a), λ u. absurd (cc u))

    Step-Inv : {c : ℕ} {s t : State I O} → Step process name c s t → Inv s → Inv t
    Step-Inv (read_item) (a, x, h) = (a, λ j. absurd (cc j), h)
    Step-Inv (read_closed) (a, x, h) = (a, λ j e. refl, λ v r. absurd (cc r))
    Step-Inv (drain_signal {xs} {q} {r} {k} {out}) (a, x, h) = (
      Agrees-cancel q xs r canceled k out a,
      λ j n. absurd (cc (n, (ctx_error-cancel (from_outside canceled) k refl).1)),
      λ v r. absurd (cc r),
    )
    Step-Inv (read_done e) (a, x, h) = (a, λ j n. absurd (cc (e, n)), λ v r. absurd (cc r))
    Step-Inv (acquire n) (a, x, h) = (a, λ j. absurd (cc j), h)
    Step-Inv (acquire_done e) (a, x, h) = (a, λ j n. absurd (cc (e, n)), λ v r. absurd (cc r))
    Step-Inv (queue_slot {x} {xs} {q} {r} {k} {out} n) (a, y, h) = (
      Agrees-ahead q (q ++ pending x ∷ []) (x ∷ xs) xs r k out
          (sym (ahead-append process name q x xs)) a,
      λ j. absurd (cc j),
      λ v r. absurd (cc r),
    )
    Step-Inv (queue_done e) (a, x, h) = (a, λ j n. absurd (cc (e, n)), λ v r. absurd (cc r))
    Step-Inv (join m n) (a, x, h) = (a, x, λ v r. absurd (cc r))
    Step-Inv (close_slots e) (a, x, h) = (a, x, λ v r. absurd (cc r))
    Step-Inv (return_verdict e) (a, x, h) = (a, x, λ v r. cc (e, r))
    Step-Inv (cancel_outside {xs} {q} {r} {out} e) (a, x, h) =
        (Agrees-cancel q xs r e live out a, λ j n. absurd (cc n), h)
    Step-Inv (fill {xs} {q} {p} {r} {k} {out} f) (a, x, h) =
        (Agrees-ahead q p xs xs r k out (ahead-Fill process name f xs) a, x, h)
    Step-Inv (fill_received) (a, x, h) = (a, x, λ v r. absurd (cc (h v r)))
    Step-Inv (fill_dropped) (a, x, h) = (a, x, h)
    Step-Inv (release) (a, x, h) = (a, x, h)
    Step-Inv (take_slot) (a, x, h) = (a, x, λ v r. absurd (cc (h v r)))
    Step-Inv (discard_slot) (a, x, h) = (a, x, h)
    Step-Inv (slots_end {d} {xs} {k} {out} c) (a, x, h) =
        (Settled-end d xs k out c x a.0 a.1, x, λ v r. absurd (cc (h v r)))
    Step-Inv (discard_end c) (a, x, h) = (a, x, h)
    Step-Inv (receive_result {xs} {q} {o} {k} {out}) (a, x, h) = (
      Agrees-hear q xs o.attempt o.result k out a.0 a.1,
      λ j e. x j (cancel_on-live o.result k e),
      λ v r. absurd (cc (h v r)),
    )
    Step-Inv (drop_result) (a, x, h) = (a, x, h)
    Step-Inv (send_value) (a, x, h) = (a, x, λ v r. absurd (cc (h v r)))
    Step-Inv (send_done {xs} {q} {v} {k} {out} e) (a, x, h) = (
      Settled-give_up v (ahead process name q xs) k out e a.0 a.1,
      λ j n. absurd (cc (n, (ctx_error-cancel by_drainer k refl).1)),
      λ w r. absurd (cc (h w r)),
    )

    Inv-initial : (xs : List I) → serial process name xs ≡ total → Inv (initial xs)
    Inv-initial xs e = ((e, refl), λ j. absurd (cc j), λ v r. absurd (cc r))

  Reach-Inv :
      {c : ℕ} {all : List I} {s : State I O}
      → Reach process name c all s
      → Inv (serial process name all) s
  Reach-Inv {all} start = Inv-initial (serial process name all) all refl
  Reach-Inv {all} (later r t) = Step-Inv (serial process name all) t (Reach-Inv r)

  Agrees-verdict :
      (total : Trace O) (q : List (Slot I O)) (xs : List I) (r : Drainer I O) (k : Cancel)
      (out : List O) (v : Option Error)
      → verdict r ≡ some v
      → Agrees total q xs r k out
      → undisturbed k ≡ true
      → record { out = out; ending = to_end v } ≡ total
  Agrees-verdict total q xs ranging k out v e a u = absurd (cc e)
  Agrees-verdict total q xs (receiving s) k out v e a u = absurd (cc e)
  Agrees-verdict total q xs (sending w) k out v e a u = absurd (cc e)
  Agrees-verdict total q xs (discarding w) k out v e a u =
      let i : w ≡ v = cc e in subst (λ w. record { out = out; ending = to_end w } ≡ total) i (a.1 u)
  Agrees-verdict total q xs (dropping w s) k out v e a u =
      let i : w ≡ v = cc e in subst (λ w. record { out = out; ending = to_end w } ≡ total) i (a.1 u)
  Agrees-verdict total q xs (done w) k out v e a u =
      let i : w ≡ v = cc e in subst (λ w. record { out = out; ending = to_end w } ≡ total) i (a.1 u)

  -- The ordered Map, for any concurrency and any interleaving, when it returns and neither its context
  -- was cancelled nor a drain signal came before its own end: it has delivered exactly what mapSerial
  -- delivers for the same items, in that order, and it returns the same error, or nil.
  pub ordered-serial :
      (c : ℕ) (all xs : List I) (v : Option Error) (q : List (Slot I O)) (r : Drainer I O) (n l : ℕ)
      (k : Cancel) (out : List O)
      → undisturbed k ≡ true
      → Reach process name c all (state (returning v) xs q r n l k out)
      → record { out = out; ending = to_end v } ≡ serial process name all
  ordered-serial c all xs v q r n l k out u reach =
      let (a, x, h) = Reach-Inv reach in
      Agrees-verdict (serial process name all) q xs r k out v (h v refl) a u
