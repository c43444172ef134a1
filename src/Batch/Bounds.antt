-- ===== src/Batch/Bounds.antt =====
-- A batch goes out with the item that reaches a trigger, and not later.
use go_kitsune.Prelude.{
  ℕ, ◌+◌, ◌<◌, ◌≡◌, refl, false, List, [], ◌∷◌, ◌++◌, some, length, All, length-append, snoc_view,
  subst, arith, Bool-cases, inl, inr, if◌then◌else◌,
}
use go_kitsune.Stage.{Event, continue, finish, Room, run, never, returned}
use go_kitsune.Stage.Rules.{Maintains, Good, run_good}
use go_kitsune.Batch.{
  BatchConfig, Buffered, no_items, batch_loop, accept, should_flush, flush, flush_of,
  flush_and_return, measured,
}

module _ {ℓ} {T : Type ℓ} where
  abbrev pub sum_by : (T → ℕ) → List T → ℕ
  sum_by f [] = 0
  sum_by f (x ∷ xs) = f x + sum_by f xs

  sum_by-append : (f : T → ℕ) (xs ys : List T) → sum_by f (xs ++ ys) ≡ sum_by f xs + sum_by f ys
  sum_by-append f [] ys = omega arith
  sum_by-append f (x ∷ xs) ys = omega (arith, sum_by-append f xs ys)

  -- No trigger of the configuration has been reached by the items.
  pub record Below (c : BatchConfig T) (xs : List T) : Type ℓ where
    pub count_below : 0 < c.batch_count → length xs < c.batch_count
    pub measure_below :
        (f : T → ℕ)
        → c.batch_measure_fn ≡ some f
        → 0 < c.batch_measure_max
        → sum_by f xs < c.batch_measure_max

  -- A batch is one item more than a list of items that reach no trigger.
  pub record IsTimely (c : BatchConfig T) (batch : List T) : Type ℓ where
    pub before : List T
    pub last : T
    pub parts : batch ≡ before ++ last ∷ []
    pub below : Below c before

  record Inv (c : BatchConfig T) (s : Buffered T) : Type ℓ where
    buf_below : Below c s.buf
    measure_exact : (f : T → ℕ) → c.batch_measure_fn ≡ some f → s.measure ≡ sum_by f s.buf

  Below-append : (c : BatchConfig T) (xs ys : List T) → Below c (xs ++ ys) → Below c xs
  Below-append c xs ys b = record {
    count_below = λ h. omega (arith, b.count_below h, length-append xs ys);
    measure_below = λ f e h. omega (arith, b.measure_below f e h, sum_by-append f xs ys);
  }

  no_items-Inv : (c : BatchConfig T) → Inv c no_items
  no_items-Inv c = record {
    buf_below = record { count_below = λ h. h; measure_below = λ f e h. h };
    measure_exact = λ f e. refl;
  }

  flush_of-snoc :
      (xs : List T) (x : T) (s : Buffered T)
      → flush_of (xs ++ x ∷ []) s ≡ continue ((xs ++ x ∷ []) ∷ []) no_items
  flush_of-snoc [] x s = refl
  flush_of-snoc (y ∷ xs) x s = refl

  IsTimely-of_Below :
      (c : BatchConfig T) (x : T) (xs : List T) → Below c (x ∷ xs) → IsTimely c (x ∷ xs)
  IsTimely-of_Below c x xs b =
      let (init, last, e) = snoc_view x xs in
      record {
        before = init;
        last = last;
        parts = e;
        below = Below-append c init (last ∷ []) (subst (Below c) e b);
      }

  flush_of-Good :
      (c : BatchConfig T) (xs : List T) (s : Buffered T)
      → s.buf ≡ xs
      → Inv c s
      → Good (Inv c) (IsTimely c) (flush_of xs s)
  flush_of-Good c [] s e v = (tt, v)
  flush_of-Good c (x ∷ xs) s e v =
      ((IsTimely-of_Below c x xs (subst (Below c) e v.buf_below), tt), no_items-Inv c)

  flush_and_return-Good :
      (c : BatchConfig T) (xs : List T)
      → Below c xs
      → Good (Inv c) (IsTimely c) (flush_and_return xs)
  flush_and_return-Good c [] b = (tt, tt)
  flush_and_return-Good c (x ∷ xs) b = ((IsTimely-of_Below c x xs b, tt), tt)

  closed-Good :
      (c : BatchConfig T) (s : Buffered T)
      → Inv c s
      → Good
          (Inv c)
          (IsTimely c)
          (if c.drop_partial then finish [] returned else flush_and_return s.buf)
  closed-Good c s v = elim (Bool-cases c.drop_partial) [
    | inl drops ↦ simp drops (tt, tt)
    | inr keeps ↦ simp keeps (flush_and_return-Good c s.buf v.buf_below)
  ]

  signal-Good :
      (c : BatchConfig T) (s : Buffered T)
      → Inv c s
      → Good (Inv c) (IsTimely c) (if c.timed then flush s else never s)
  signal-Good c s v = elim (Bool-cases c.timed) [
    | inl timed ↦ simp timed (flush_of-Good c s.buf s refl v)
    | inr untimed ↦ simp untimed (tt, v)
  ]

  -- A buffer that sets off no trigger stays below them all.
  Inv-of_should_flush :
      (c : BatchConfig T) (s : Buffered T)
      → should_flush c s ≡ false
      → ((f : T → ℕ) → c.batch_measure_fn ≡ some f → s.measure ≡ sum_by f s.buf)
      → Inv c s
  unfolding should_flush
  Inv-of_should_flush c s h m = record {
    buf_below = record {
      count_below = λ pos. ground arith;
      measure_below = λ f e pos. ground (arith, m f e);
    };
    measure_exact = m;
  }

  measured_exact :
      (c : BatchConfig T) (s : Buffered T) (x : T) (f : T → ℕ)
      → Inv c s
      → c.batch_measure_fn ≡ some f
      → measured c s x ≡ sum_by f (s.buf ++ x ∷ [])
  measured_exact c s x f v e =
      rw e (omega (arith, v.measure_exact f e, sum_by-append f s.buf (x ∷ [])))

  accept-Good :
      (c : BatchConfig T) (s : Buffered T) (x : T)
      → Inv c s
      → Good (Inv c) (IsTimely c) (accept c s x)
  unfolding accept
  accept-Good c s x v =
      let s' : Buffered T = record { buf = s.buf ++ x ∷ []; measure = measured c s x } in
      elim (Bool-cases (should_flush c s')) [
        | inl full ↦
            rw (full, flush_of-snoc s.buf x s')
              (
                (record { before = s.buf; last = x; parts = refl; below = v.buf_below }, tt),
                no_items-Inv c,
              )
        | inr room ↦ rw room (tt, Inv-of_should_flush c s' room (λ f e. measured_exact c s x f v e))
      ]

  batch-Maintains : (c : BatchConfig T) → Maintains (batch_loop c) (Inv c) (IsTimely c)
  unfolding batch_loop
  batch-Maintains c = record {
    item_good = accept-Good c;
    closed_good = closed-Good c;
    signal_good = signal-Good c;
    signal_closed_good = λ s v. (tt, v);
  }

  -- Whatever the events, every batch that Batch delivers is one item more than a list that reaches
  -- no trigger: it is not empty, with a count trigger n > 0 it has at most n items, and with a
  -- measure trigger m > 0 its items but the last measure less than m.
  pub run-batch_loop-IsTimely :
      (c : BatchConfig T) (r : Room) (es : List (Event T))
      → All (IsTimely c) (run (batch_loop c) r no_items es).out
  run-batch_loop-IsTimely c r es = run_good (batch-Maintains c) r no_items es (no_items-Inv c)
