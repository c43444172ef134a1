-- ===== src/Stage/Bursts.antt =====
-- The loop of a fast path (mapSerialFastPath, filterFastPath), whose receives come in bursts.
--
-- Each pass of its loop waits for one item and then takes more without waiting, until a receive would
-- wait, the buffer of ReceiveBatchSize is full or the input is closed. `ready` says for each pass how
-- many receives do not wait. The passes run on fuel.
use go_kitsune.Prelude.{
  ℕ, zero, suc, ◌-◌, ◌<◌, ◌≡◌, refl, ap, List, [], ◌∷◌, ◌++◌, length, length-drop, take, drop,
  take-append-drop, min, ltb, inl, inr, Bool-cases, if◌then◌else◌, arith,
}
use go_kitsune.Stage.{Trace, returned, blocked}

abbrev pub first_or_zero : List ℕ → ℕ
first_or_zero [] = 0
first_or_zero (n ∷ ns) = n

-- `one` is what the loop over the buffer does with an item before it goes on.
module _ {ℓ κ} {T : Type ℓ} {O : Type κ} (size : ℕ) (one : T → Trace O → Trace O) where
  abbrev pub burst : List T → Trace O → Trace O
  burst [] rest = rest
  burst (x ∷ xs) rest = one x (burst xs rest)

  -- The loop; a fill that would read past the last item finds the input closed.
  unfoldable pub pass_from : ℕ → List ℕ → List T → Trace O
  pass_from zero ready xs = record { out = []; ending = blocked }
  pass_from (suc fuel) ready [] = record { out = []; ending = returned }
  pass_from (suc fuel) ready (x ∷ xs) =
      let n = min (size - 1) (first_or_zero ready) in
      let rest = pass_from fuel (drop 1 ready) (drop n xs) in
      if ltb (length xs) n
      then burst (x ∷ xs) (record { out = []; ending = returned })
      else burst (x ∷ take n xs) rest

  burst-append : (xs ys : List T) (t : Trace O) → burst (xs ++ ys) t ≡ burst xs (burst ys t)
  burst-append [] ys t = refl
  burst-append (x ∷ xs) ys t = ap (one x) (burst-append xs ys t)

  -- The sizes of the bursts make no difference; fuel for one pass more than there are items is enough.
  pub pass_from-burst :
      (fuel : ℕ) (ready : List ℕ) (xs : List T)
      → length xs < fuel
      → pass_from fuel ready xs ≡ burst xs (record { out = []; ending = returned })
  unfolding pass_from
  pass_from-burst zero ready xs l = absurd (omega arith)
  pass_from-burst (suc fuel) ready [] l = refl
  pass_from-burst (suc fuel) ready (x ∷ xs) l =
      let n = min (size - 1) (first_or_zero ready) in
      elim (Bool-cases (ltb (length xs) n)) [
        | inl closes ↦ rw (closes) refl
        | inr waits ↦
            rw
              (
                waits,
                pass_from-burst fuel (drop 1 ready) (drop n xs)
                    (rw (length-drop n xs) (omega arith)),
                ← burst-append (x ∷ take n xs) (drop n xs) (record { out = []; ending = returned }),
                take-append-drop n xs,
              )
              refl
      ]
