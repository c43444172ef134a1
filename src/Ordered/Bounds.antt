-- ===== src/Ordered/Bounds.antt =====
-- The tokens and the channels of the ordered map.
use go_kitsune.Prelude.{
  ℕ, suc, ◌+◌, ◌*◌, ◌≤◌, ◌≡◌, refl, ap, Bool, true, false, List, [], ◌∷◌, ◌++◌, length, inl, inr,
  arith, Bool-cases, leb, length-append,
}
use go_kitsune.Errors.{Result, ok, err}
use go_kitsune.Process.{Outcome}
use go_kitsune.Ordered.{
  Slot, pending, filled, Drainer, ranging, receiving, sending, discarding, dropping, done,
  Dispatcher, reading, acquiring, queueing, joining, closing, returning, Cancel, is_closed,
  is_skipped, hear, State, state, Fill, here, there, Step, read_item, read_closed, drain_signal,
  read_done, acquire, acquire_done, queue_slot, queue_done, join, close_slots, return_verdict,
  cancel_outside, fill, fill_received, fill_dropped, release, take_slot, discard_slot, slots_end,
  discard_end, receive_result, drop_result, send_value, send_done, Reach, start, later,
}

-- The tokens that the dispatcher holds, with concurrency c.
abbrev pub tokens : ℕ → Dispatcher → ℕ
tokens c reading = 0
tokens c acquiring = 0
tokens c queueing = 1
tokens c (joining i) = i
tokens c closing = c
tokens c (returning v) = c

abbrev pub within : ℕ → Dispatcher → Bool
within c reading = true
within c acquiring = true
within c queueing = true
within c (joining i) = leb i c
within c closing = true
within c (returning v) = true

abbrev pub is_nonempty {ℓ} : {A : Type ℓ} → List A → Bool
is_nonempty [] = false
is_nonempty (x ∷ xs) = true

-- The dispatcher holds an item only if there is one.
abbrev pub has_item {ℓ} : {I : Type ℓ} → Dispatcher → List I → Bool
has_item reading xs = true
has_item acquiring xs = is_nonempty xs
has_item queueing xs = is_nonempty xs
has_item (joining i) xs = true
has_item closing xs = true
has_item (returning v) xs = true

abbrev pub is_done {ℓ κ} : {I : Type ℓ} {O : Type κ} → Drainer I O → Bool
is_done ranging = false
is_done (receiving s) = false
is_done (sending v) = false
is_done (discarding v) = false
is_done (dropping v s) = false
is_done (done v) = true

module _ {ℓ κ} {I : Type ℓ} {O : Type κ} where
  -- A goroutine that works on an item.
  abbrev pub working : Slot I O → ℕ
  working (pending x) = 1
  working (filled o) = 0

  abbrev pub all_working : List (Slot I O) → ℕ
  all_working [] = 0
  all_working (s ∷ q) = working s + all_working q

  abbrev pub held_working : Drainer I O → ℕ
  held_working ranging = 0
  held_working (receiving s) = working s
  held_working (sending v) = 0
  held_working (discarding v) = 0
  held_working (dropping v s) = working s
  held_working (done v) = 0

  -- Every token of `sem` has its holder, the channels keep to their capacities, and `done` comes
  -- after the close.
  abbrev pub Sound : ℕ → State I O → Type 0
  Sound c (state d xs q r n l k out) =
      (n ≡ all_working q + held_working r + l + tokens c d)
      × (n ≤ c)
      × (length q ≤ 2 * c)
      × (has_item d xs ≡ true)
      × (within c d ≡ true)
      × (is_done r ≡ true → is_closed d ≡ true)

  all_working-append :
      (q : List (Slot I O)) (x : I) → all_working (q ++ pending x ∷ []) ≡ all_working q + 1
  all_working-append [] x = refl
  all_working-append (s ∷ q) x = omega (arith, all_working-append q x)

hear-held_working {ℓ κ} :
    (I : Type ℓ) {O : Type κ} (name attempt : ℕ) (r : Result O)
    → (held_working (hear {I = I} name attempt r) ≡ 0)
      × (is_done (hear {I = I} name attempt r) ≡ false)
hear-held_working I name attempt (ok v) = (refl, refl)
hear-held_working I name attempt (err e) = elim (Bool-cases (is_skipped e)) [
  | inl y ↦ rw y (refl, refl)
  | inr n ↦ rw n (refl, refl)
]

module _ {ℓ κ} {I : Type ℓ} {O : Type κ} where
  module _ (process : I → Outcome O) (name c : ℕ) where
    Fill-working : {q p : List (Slot I O)} → Fill process q p → all_working q ≡ all_working p + 1
    Fill-working here = omega arith
    Fill-working (there f) = omega (arith, Fill-working f)

    length-Fill : {q p : List (Slot I O)} → Fill process q p → length q ≡ length p
    length-Fill here = refl
    length-Fill (there f) = ap suc (length-Fill f)

    Step-Sound : {s t : State I O} → Step process name c s t → Sound c s → Sound c t
    Step-Sound read_item h = h
    Step-Sound read_closed (h, b, f, y, z, e) = (h, b, f, refl, ground arith, e)
    Step-Sound drain_signal (h, b, f, y, z, e) = (h, b, f, refl, ground arith, e)
    Step-Sound (read_done x) (h, b, f, y, z, e) = (h, b, f, refl, ground arith, e)
    Step-Sound (acquire n) (h, b, f, y, z, e) = (omega (arith, h), n, f, y, refl, e)
    Step-Sound (acquire_done x) (h, b, f, y, z, e) = (h, b, f, refl, ground arith, e)
    Step-Sound (queue_slot {x} {q} n) (h, b, f, y, z, e) = (
      omega (arith, h, all_working-append q x),
      b,
      omega (arith, n, length-append q (pending x ∷ [])),
      refl,
      refl,
      e,
    )
    Step-Sound (queue_done x) (h, b, f, y, z, e) =
        (omega (arith, h), omega (arith, b), f, refl, ground arith, e)
    Step-Sound (join m n) (h, b, f, y, z, e) = (omega (arith, h), n, f, refl, ground (arith, m), e)
    Step-Sound (close_slots x) (h, b, f, y, z, e) =
        (omega (arith, h, x), b, f, refl, refl, λ v. refl)
    Step-Sound (return_verdict x) (h, b, f, y, z, e) = (h, b, f, refl, refl, λ v. refl)
    Step-Sound (cancel_outside x) h = h
    Step-Sound (fill g) (h, b, f, y, z, e) =
        (omega (arith, h, Fill-working g), b, omega (arith, f, length-Fill g), y, z, e)
    Step-Sound fill_received (h, b, f, y, z, e) = (omega (arith, h), b, f, y, z, e)
    Step-Sound fill_dropped (h, b, f, y, z, e) = (omega (arith, h), b, f, y, z, e)
    Step-Sound release (h, b, f, y, z, e) = (omega (arith, h), omega (arith, b), f, y, z, e)
    Step-Sound take_slot (h, b, f, y, z, e) = (omega (arith, h), b, omega (arith, f), y, z, e)
    Step-Sound discard_slot (h, b, f, y, z, e) = (omega (arith, h), b, omega (arith, f), y, z, e)
    Step-Sound (slots_end x) (h, b, f, y, z, e) = (h, b, f, y, z, λ v. x)
    Step-Sound (discard_end x) (h, b, f, y, z, e) = (h, b, f, y, z, λ v. x)
    Step-Sound (receive_result {o}) (h, b, f, y, z, e) =
        let (w, u) = hear-held_working I name o.attempt o.result in
        (omega (arith, h, w), b, f, y, z, λ v. absurd (cc (u, v)))
    Step-Sound drop_result h = h
    Step-Sound send_value h = h
    Step-Sound (send_done x) (h, b, f, y, z, e) = (h, b, f, y, z, λ v. absurd (cc v))

    pub Reach-Sound : {all : List I} {s : State I O} → Reach process name c all s → Sound c s
    Reach-Sound start = (omega arith, omega arith, omega arith, refl, refl, λ v. absurd (cc v))
    Reach-Sound (later r t) = Step-Sound t (Reach-Sound r)

    -- The ordered Map with concurrency c, at every moment of any interleaving: no more than c
    -- goroutines of items exist, `sem` holds no more than c tokens, and `slots` no more than 2 * c slots.
    pub ordered-bounds :
        (all xs : List I) (d : Dispatcher) (q : List (Slot I O)) (r : Drainer I O) (n l : ℕ)
        (k : Cancel) (out : List O)
        → Reach process name c all (state d xs q r n l k out)
        → (all_working q + held_working r + l ≤ c) × (n ≤ c) × (length q ≤ 2 * c)
    ordered-bounds all xs d q r n l k out reach =
        let (h, b, f, y, z, e) = Reach-Sound reach in (omega (arith, h, b), b, f)
