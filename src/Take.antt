-- ===== src/Take.antt =====
-- operator_take.go: Take, Drop, TakeWhile, DropWhile, DropLast, TakeUntil and DropUntil, each as
-- the loop of its stage function. A negative n behaves as 0 in every one of them.
pub mod Counted
pub mod While
pub mod Last
pub mod Boundary
use go_kitsune.Prelude.{
  ℕ, ◌+◌, ◌%◌, Bool, true, false, List, [], ◌∷◌, ltb, leb, ◌&&◌, if◌then◌else◌, get_or, set,
  replicate,
}
use go_kitsune.Stage.{
  Action, continue, finish, returned, Loop, never, endless, outbox_send, select_send,
}

-- The ring buffer of DropLast; `head` is the index of the oldest item.
pub record Ring {ℓ} (T : Type ℓ) : Type ℓ where
  pub buf : List T
  pub head : ℕ
  pub count : ℕ

module _ {ℓ} {T : Type ℓ} where
  -- Take: the state is `count`.
  unfoldable pub take_loop : ℕ → Loop ℕ T T
  take_loop n = record {
    finished = λ count. leb n count;
    on_item = λ count x. continue (x ∷ []) (count + 1);
    on_closed = λ count. finish [] returned;
    on_signal = never;
    on_signal_closed = never;
    interrupted = select_send;
  }

  -- Drop: the state is `count`.
  unfoldable pub drop_loop : ℕ → Loop ℕ T T
  drop_loop n = record {
    finished = endless;
    on_item = λ count x. if ltb count n then continue [] (count + 1) else continue (x ∷ []) count;
    on_closed = λ count. finish [] returned;
    on_signal = never;
    on_signal_closed = never;
    interrupted = select_send;
  }

  unfoldable pub take_while_loop : (T → Bool) → Loop (Unit {0}) T T
  take_while_loop pred = record {
    finished = endless;
    on_item = λ s x. if pred x then continue (x ∷ []) s else finish [] returned;
    on_closed = λ s. finish [] returned;
    on_signal = never;
    on_signal_closed = never;
    interrupted = select_send;
  }

  -- DropWhile: the state is `dropping`.
  unfoldable pub drop_while_loop : (T → Bool) → Loop Bool T T
  drop_while_loop pred = record {
    finished = endless;
    on_item =
        λ dropping x. if dropping && pred x then continue [] dropping else continue (x ∷ []) false;
    on_closed = λ dropping. finish [] returned;
    on_signal = never;
    on_signal_closed = never;
    interrupted = select_send;
  }

  -- `buf := make([]T, n)`, filled with the zero value of T.
  unfoldable pub new_ring : T → ℕ → Ring T
  new_ring zero_value n = record { buf = replicate n zero_value; head = 0; count = 0 }

  -- One item: it fills a free slot, or displaces the oldest item, which is sent.
  unfoldable pub displace : T → ℕ → Ring T → T → Action (Ring T) T
  displace zero_value n s x =
      if ltb s.count n
      then continue [] (record s { buf = set s.buf s.count x; count = s.count + 1 })
      else continue (get_or s.buf s.head zero_value ∷ [])
          (record s { buf = set s.buf s.head x; head = (s.head + 1) % n })

  -- DropLast for 0 < n; for n ≤ 0 the code returns its input pipeline.
  unfoldable pub drop_last_loop : T → ℕ → Loop (Ring T) T T
  unfolding displace
  drop_last_loop zero_value n = record {
    finished = endless;
    on_item = displace zero_value n;
    on_closed = λ s. finish [] returned;
    on_signal = never;
    on_signal_closed = never;
    interrupted = select_send;
  }

  -- TakeUntil: `signal` is the case of stopCh, which the boundary's first item or its close closes.
  unfoldable pub take_until_loop : Loop (Unit {0}) T T
  take_until_loop = record {
    finished = endless;
    on_item = λ s x. continue (x ∷ []) s;
    on_closed = λ s. finish [] returned;
    on_signal = λ s. finish [] returned;
    on_signal_closed = never;
    interrupted = outbox_send;
  }

  -- DropUntil: `signal` is the close of gateCh. The state is `gateOpen`, which the next pass of the
  -- loop sets, be it by the case of gateChRef or by the check before an item.
  unfoldable pub drop_until_loop : Loop Bool T T
  drop_until_loop = record {
    finished = endless;
    on_item = λ open_gate x. if open_gate then continue (x ∷ []) true else continue [] false;
    on_closed = λ open_gate. finish [] returned;
    on_signal = λ open_gate. continue [] true;
    on_signal_closed = never;
    interrupted = outbox_send;
  }
