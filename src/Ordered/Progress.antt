-- ===== src/Ordered/Progress.antt =====
-- The ordered map never gets stuck, and cannot go on for ever.
use go_kitsune.Prelude.{
  ℕ, zero, suc, ◌+◌, ◌*◌, ◌-◌, ◌≤◌, ◌<◌, ◌≡◌, refl, Bool, true, false, List, [], ◌∷◌, ◌++◌, length,
  Option, ◌⊎◌, inl, inr, arith, dec_lt, leb→le, Bool-cases,
}
use go_kitsune.Errors.{Error, canceled, Result, ok, err}
use go_kitsune.Process.{Outcome}
use go_kitsune.Ordered.{
  Slot, pending, filled, Drainer, ranging, receiving, sending, discarding, dropping, done,
  Dispatcher, reading, acquiring, queueing, joining, closing, returning, Cancel, live, by_drainer,
  from_outside, cancel, is_closed, is_skipped, hear, cancel_on, State, state, Fill, here, there,
  Step, read_item, read_closed, drain_signal, read_done, acquire, acquire_done, queue_slot,
  queue_done, join, close_slots, return_verdict, cancel_outside, fill, fill_received, fill_dropped,
  release, take_slot, discard_slot, slots_end, discard_end, receive_result, drop_result, send_value,
  send_done, Reach,
}
use go_kitsune.Ordered.Bounds.{all_working, Sound, Reach-Sound, within, has_item, tokens}

-- The work that is left, in the parts of the stage.
abbrev left_dispatcher : ℕ → Dispatcher → ℕ
left_dispatcher c reading = c + 5
left_dispatcher c acquiring = c + 4
left_dispatcher c queueing = c + 3
left_dispatcher c (joining i) = 2 + (c - i)
left_dispatcher c closing = 1
left_dispatcher c (returning v) = 0

abbrev left_context : Cancel → ℕ
left_context live = 1
left_context by_drainer = 0
left_context (from_outside e) = 0

module _ {ℓ κ} {I : Type ℓ} {O : Type κ} where
  abbrev left_slot : Slot I O → ℕ
  left_slot (pending x) = 10
  left_slot (filled o) = 8

  abbrev left_slots : List (Slot I O) → ℕ
  left_slots [] = 0
  left_slots (s ∷ q) = left_slot s + left_slots q

  abbrev left_drainer : Drainer I O → ℕ
  left_drainer ranging = 1
  left_drainer (receiving s) = left_slot s
  left_drainer (sending v) = 4
  left_drainer (discarding v) = 1
  left_drainer (dropping v s) = left_slot s
  left_drainer (done v) = 0

  abbrev pub left : ℕ → State I O → ℕ
  left c (state d xs q r n l k out) =
      20 * length xs + left_dispatcher c d + left_slots q + left_drainer r + l + left_context k

  left_slots-append :
      (q : List (Slot I O)) (x : I) → left_slots (q ++ pending x ∷ []) ≡ left_slots q + 10
  left_slots-append [] x = refl
  left_slots-append (s ∷ q) x = omega (arith, left_slots-append q x)

left-cancel : (why k : Cancel) → left_context why ≡ 0 → left_context (cancel why k) ≤ left_context k
left-cancel why live h = omega (arith, h)
left-cancel why by_drainer h = omega arith
left-cancel why (from_outside e) h = omega arith

left-hear {ℓ κ} :
    (I : Type ℓ) {O : Type κ} (name attempt : ℕ) (r : Result O) (k : Cancel)
    → left_drainer (hear {I = I} name attempt r) + left_context (cancel_on r k) ≤ 4 + left_context k
left-hear I name attempt (ok v) k = omega arith
left-hear I name attempt (err e) k = elim (Bool-cases (is_skipped e)) [
  | inl y ↦ rw y (omega arith)
  | inr n ↦ rw n (omega (arith, left-cancel by_drainer k refl))
]

module _ {ℓ κ} {I : Type ℓ} {O : Type κ} (process : I → Outcome O) (name c : ℕ) where
  left-Fill : {q p : List (Slot I O)} → Fill process q p → left_slots q ≡ left_slots p + 2
  left-Fill here = omega arith
  left-Fill (there f) = omega (arith, left-Fill f)

  left-Step : {s t : State I O} → Step process name c s t → left c t < left c s
  left-Step read_item = omega arith
  left-Step read_closed = omega arith
  left-Step (drain_signal {k}) = omega (arith, left-cancel (from_outside canceled) k refl)
  left-Step (read_done x) = omega arith
  left-Step (acquire n) = omega arith
  left-Step (acquire_done x) = omega arith
  left-Step (queue_slot {x} {q} n) = omega (arith, left_slots-append q x)
  left-Step (queue_done x) = omega arith
  left-Step (join m n) = omega (arith, m)
  left-Step (close_slots x) = omega (arith, x)
  left-Step (return_verdict x) = omega arith
  left-Step (cancel_outside x) = omega arith
  left-Step (fill g) = omega (arith, left-Fill g)
  left-Step fill_received = omega arith
  left-Step fill_dropped = omega arith
  left-Step release = omega arith
  left-Step (take_slot {s}) = omega arith
  left-Step (discard_slot {s}) = omega arith
  left-Step (slots_end x) = omega arith
  left-Step (discard_end x) = omega arith
  left-Step (receive_result {o} {k}) = omega (arith, left-hear I name o.attempt o.result k)
  left-Step drop_result = omega arith
  left-Step send_value = omega arith
  left-Step (send_done {k} x) = omega (arith, left-cancel by_drainer k refl)

  -- A step that a goroutine of the stage makes: not the end of the outer context, nor a drain signal.
  abbrev pub is_own : {s t : State I O} → Step process name c s t → Bool
  is_own read_item = true
  is_own read_closed = true
  is_own drain_signal = false
  is_own (read_done x) = true
  is_own (acquire x) = true
  is_own (acquire_done x) = true
  is_own (queue_slot x) = true
  is_own (queue_done x) = true
  is_own (join x y) = true
  is_own (close_slots x) = true
  is_own (return_verdict x) = true
  is_own (cancel_outside x) = false
  is_own (fill x) = true
  is_own fill_received = true
  is_own fill_dropped = true
  is_own release = true
  is_own take_slot = true
  is_own discard_slot = true
  is_own (slots_end x) = true
  is_own (discard_end x) = true
  is_own receive_result = true
  is_own drop_result = true
  is_own send_value = true
  is_own (send_done x) = true

  abbrev pub Next : State I O → Type (ℓ ⊔ κ)
  Next s = (t : State I O) × (m : Step process name c s t) × (is_own m ≡ true)

  abbrev has_returned : Dispatcher → Bool
  has_returned reading = false
  has_returned acquiring = false
  has_returned queueing = false
  has_returned (joining i) = false
  has_returned closing = false
  has_returned (returning v) = true

  -- A goroutine that works can send its result.
  next-Fill :
      (q : List (Slot I O)) → (all_working q ≡ 0) ⊎ ((p : List (Slot I O)) × Fill process q p)
  next-Fill [] = inl refl
  next-Fill (pending x ∷ q) = inr (_, here)
  next-Fill (filled o ∷ q) = elim (next-Fill q) [
    | inl e ↦ inl (omega (arith, e))
    | inr (p, f) ↦ inr (_, there f)
  ]

  -- With nothing in flight and no slot, the dispatcher goes on until it has closed the slots.
  next_join :
      (i n : ℕ) (xs : List I) (q : List (Slot I O)) (r : Drainer I O) (l : ℕ) (k : Cancel)
      (out : List O)
      → i ≤ c
      → n ≡ i
      → Next (state (joining i) xs q r n l k out)
  next_join i n xs q r l k out few e = elim (dec_lt i c) [
    | yes lt ↦ (_, join lt (omega (arith, lt, e)), refl)
    | no ge ↦ (_, close_slots (omega (arith, ge, few)), refl)
  ]

  next_dispatch :
      (d : Dispatcher) (xs : List I) (r : Drainer I O) (n : ℕ) (k : Cancel) (out : List O)
      → 0 < c
      → is_closed d ≡ false
      → n ≡ tokens c d
      → has_item d xs ≡ true
      → within c d ≡ true
      → Next (state d xs [] r n 0 k out)
  next_dispatch reading [] r n k out pos cl h y z = (_, read_closed, refl)
  next_dispatch reading (x ∷ xs) r n k out pos cl h y z = (_, read_item, refl)
  next_dispatch acquiring xs r n k out pos cl h y z = (_, acquire (omega (arith, pos, h)), refl)
  next_dispatch queueing [] r n k out pos cl h y z = absurd (cc y)
  next_dispatch queueing (x ∷ xs) r n k out pos cl h y z =
      (_, queue_slot (omega (arith, pos)), refl)
  next_dispatch (joining i) xs r n k out pos cl h y z =
      next_join i n xs [] r 0 k out (leb→le i c z) h
  next_dispatch closing xs r n k out pos cl h y z = absurd (cc cl)
  next_dispatch (returning v) xs r n k out pos cl h y z = absurd (cc cl)

  next_done :
      (d : Dispatcher) (xs : List I) (q : List (Slot I O)) (v : Option Error) (n l : ℕ) (k : Cancel)
      (out : List O)
      → is_closed d ≡ true
      → has_returned d ≡ false
      → Next (state d xs q (done v) n l k out)
  next_done closing xs q v n l k out cl nr = (_, return_verdict refl, refl)
  next_done reading xs q v n l k out cl nr = absurd (cc cl)
  next_done acquiring xs q v n l k out cl nr = absurd (cc cl)
  next_done queueing xs q v n l k out cl nr = absurd (cc cl)
  next_done (joining i) xs q v n l k out cl nr = absurd (cc cl)
  next_done (returning w) xs q v n l k out cl nr = absurd (cc nr)

  -- No goroutine of an item is left: the drainer or the dispatcher goes on.
  next_calm :
      (d : Dispatcher) (xs : List I) (q : List (Slot I O)) (r : Drainer I O) (n : ℕ) (k : Cancel)
      (out : List O)
      → 0 < c
      → has_returned d ≡ false
      → all_working q ≡ 0
      → Sound c (state d xs q r n 0 k out)
      → Next (state d xs q r n 0 k out)
  next_calm d xs (s ∷ q) ranging n k out pos nr w sound = (_, take_slot, refl)
  next_calm d xs (s ∷ q) (discarding v) n k out pos nr w sound = (_, discard_slot, refl)
  next_calm d xs [] ranging n k out pos nr w (h, b, f, y, z, e) = elim (Bool-cases (is_closed d)) [
    | inl cl ↦ (_, slots_end cl, refl)
    | inr op ↦ next_dispatch d xs ranging n k out pos op (omega (arith, h)) y z
  ]
  next_calm d xs [] (discarding v) n k out pos nr w (h, b, f, y, z, e) =
      elim (Bool-cases (is_closed d)) [
        | inl cl ↦ (_, discard_end cl, refl)
        | inr op ↦ next_dispatch d xs (discarding v) n k out pos op (omega (arith, h)) y z
      ]
  next_calm d xs q (receiving (pending x)) n k out pos nr w sound = (_, fill_received, refl)
  next_calm d xs q (receiving (filled o)) n k out pos nr w sound = (_, receive_result, refl)
  next_calm d xs q (sending v) n k out pos nr w sound = (_, send_value, refl)
  next_calm d xs q (dropping v (pending x)) n k out pos nr w sound = (_, fill_dropped, refl)
  next_calm d xs q (dropping v (filled o)) n k out pos nr w sound = (_, drop_result, refl)
  next_calm d xs q (done v) n k out pos nr w (h, b, f, y, z, e) =
      next_done d xs q v n 0 k out (e refl) nr

  next_release :
      (d : Dispatcher) (xs : List I) (q : List (Slot I O)) (r : Drainer I O) (n l : ℕ) (k : Cancel)
      (out : List O)
      → suc l ≤ n
      → Next (state d xs q r n (suc l) k out)
  next_release d xs q r zero l k out h = absurd (omega (arith, h))
  next_release d xs q r (suc n) l k out h = (_, release, refl)

  next :
      (d : Dispatcher) (xs : List I) (q : List (Slot I O)) (r : Drainer I O) (n l : ℕ) (k : Cancel)
      (out : List O)
      → 0 < c
      → has_returned d ≡ false
      → Sound c (state d xs q r n l k out)
      → Next (state d xs q r n l k out)
  next d xs q r n (suc l) k out pos nr (h, b, f, y, z, e) =
      next_release d xs q r n l k out (omega (arith, h))
  next d xs q r n zero k out pos nr sound = elim (next-Fill q) [
    | inl w ↦ next_calm d xs q r n k out pos nr w sound
    | inr (p, f) ↦ (_, fill f, refl)
  ]

  abbrev pub is_over : State I O → Bool
  is_over (state d xs q r n l k out) = has_returned d

  next_of : (s : State I O) → 0 < c → is_over s ≡ false → Sound c s → Next s
  next_of (state d xs q r n l k out) pos nr sound = next d xs q r n l k out pos nr sound

  -- The ordered Map with a concurrency of at least one, at every moment that any interleaving can come
  -- to, when ProcessItem returns, the upstream sends or closes and what is sent is received: as long as
  -- the stage has not returned, some goroutine of it has a step to make, other than the end of the
  -- outer context or a drain signal, so there is no deadlock.
  pub ordered_progress :
      (all : List I) (s : State I O)
      → 0 < c
      → is_over s ≡ false
      → Reach process name c all s
      → Next s
  ordered_progress all s pos nr reach = next_of s pos nr (Reach-Sound process name c reach)

  -- Every step of the ordered Map lowers the measure of the work to do, whichever goroutine makes it: so
  -- no order of the steps goes on for ever.
  pub ordered-terminates : (s t : State I O) → Step process name c s t → left c t < left c s
  ordered-terminates s t move = left-Step move
