-- ===== src/Ordered/Contexts.antt =====
-- The context and the dispatcher of the ordered map.
use go_kitsune.Prelude.{◌≡◌, refl, Bool, true, false, Option, none, some, arith}
use go_kitsune.Errors.{Error, canceled, Result, ok, err}
use go_kitsune.Ordered.{
  Dispatcher, reading, acquiring, queueing, joining, closing, returning, Cancel, live, by_drainer,
  from_outside, ctx_error, cancel, is_closed, cancel_on,
}

-- No outer cancellation and no drain signal came before the stage's own end.
abbrev pub undisturbed : Cancel → Bool
undisturbed live = true
undisturbed by_drainer = true
undisturbed (from_outside e) = false

abbrev pub by_itself : Cancel → Bool
by_itself live = false
by_itself by_drainer = true
by_itself (from_outside e) = false

pub live_of : (k : Cancel) → by_itself k ≡ false → undisturbed k ≡ true → ctx_error k ≡ none
live_of live b u = refl
live_of by_drainer b u = absurd (cc b)
live_of (from_outside e) b u = absurd (cc u)

abbrev pub is_joined : Dispatcher → Bool
is_joined reading = false
is_joined acquiring = false
is_joined queueing = false
is_joined (joining i) = true
is_joined closing = true
is_joined (returning v) = true

pub closed-is_joined : (d : Dispatcher) → is_closed d ≡ true → is_joined d ≡ true
closed-is_joined reading c = absurd (cc c)
closed-is_joined acquiring c = absurd (cc c)
closed-is_joined queueing c = absurd (cc c)
closed-is_joined (joining i) c = refl
closed-is_joined closing c = refl
closed-is_joined (returning v) c = refl

abbrev pub result_of : Dispatcher → Option (Option Error)
result_of reading = none
result_of acquiring = none
result_of queueing = none
result_of (joining i) = none
result_of closing = none
result_of (returning v) = some v

pub cancel-by_itself :
    (e : Error) (k : Cancel) → by_itself k ≡ false → by_itself (cancel (from_outside e) k) ≡ false
cancel-by_itself e live h = refl
cancel-by_itself e by_drainer h = h
cancel-by_itself e (from_outside c) h = refl

pub undisturbed-cancel :
    (e : Error) (k : Cancel) → undisturbed (cancel (from_outside e) k) ≡ true → undisturbed k ≡ true
undisturbed-cancel e live h = refl
undisturbed-cancel e by_drainer h = refl
undisturbed-cancel e (from_outside c) h = h

pub ctx_error-cancel :
    (why : Cancel) {e : Error} (k : Cancel)
    → ctx_error why ≡ some e
    → (c : Error) × (ctx_error (cancel why k) ≡ some c)
ctx_error-cancel why {e} live h = (e, h)
ctx_error-cancel why by_drainer h = (canceled, refl)
ctx_error-cancel why (from_outside c) h = (c, refl)

pub cancel_on-live {ℓ} :
    {O : Type ℓ} (r : Result O) (k : Cancel) → ctx_error (cancel_on r k) ≡ none → ctx_error k ≡ none
cancel_on-live (ok v) k h = h
cancel_on-live (err e) live h = refl
cancel_on-live (err e) by_drainer h = ground arith
cancel_on-live (err e) (from_outside c) h = ground arith
