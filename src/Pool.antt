-- ===== src/Pool.antt =====
-- pool.go: Pool, Pooled, Warmup and the slot of MapPooled.
--
-- A *Pooled is a number, and `objects` says what it points to; all have this pool. The calls of the pool's
-- methods are taken one after the other, as its mutex and the compare-and-swap of Release order them.
-- The top of the stack is the head of the list. `new_fn n` is what the n-th call of newFn returns.
-- `none` stands for a panic.
pub mod Programs
pub mod Exclusive
pub mod Rewarmed
use go_kitsune.Prelude.{
  ℕ, zero, suc, ◌+◌, Bool, true, false, List, [], ◌∷◌, Option, none, some, ◌==◌, if◌then◌else◌,
}
use go_kitsune.Errors.{Result, ok, err, Error}

pub record Pooled (T : Type 0) : Type 0 where
  pub value : T
  pub released : Bool

pub record Pool (T : Type 0) : Type 0 where
  pub stack : List ℕ
  pub objects : ℕ → Pooled T
  -- how often newFn was called
  pub made : ℕ

module _ {T : Type 0} where
  abbrev pub assign : ℕ → Pooled T → (ℕ → Pooled T) → ℕ → Pooled T
  assign i x objects j = if j == i then x else objects j

  -- `w.released.Store(b)`
  abbrev pub store_released : ℕ → Bool → (ℕ → Pooled T) → ℕ → Pooled T
  store_released i b objects = assign i (record (objects i) { released = b }) objects

  -- put
  abbrev pub put : ℕ → Pool T → Pool T
  put i p = record p { stack = i ∷ p.stack }

  abbrev pub release_if : Bool → ℕ → Pool T → Option (Pool T)
  release_if true i p = none
  release_if false i p = some (put i (record p { objects = store_released i true p.objects }))

  -- Release, and Put of the pool
  unfoldable pub release : ℕ → Pool T → Option (Pool T)
  release i p = release_if (p.objects i).released i p

  -- MustValue
  unfoldable pub must_value : ℕ → Pool T → Option T
  must_value i p = if (p.objects i).released then none else some (p.objects i).value

module _ {T : Type 0} (new_fn : ℕ → T) where
  abbrev pub get_from : List ℕ → Pool T → Pool T × ℕ
  get_from (i ∷ rest) p = (record p { stack = rest; objects = store_released i false p.objects }, i)
  get_from [] p = (
    record p {
      objects = assign p.made (record { value = new_fn p.made; released = false }) p.objects;
      made = p.made + 1;
    },
    p.made,
  )

  unfoldable pub get : Pool T → Pool T × ℕ
  get p = get_from p.stack p

  -- The two loops of Warmup: the gets, and then the puts in the order of the gets.
  abbrev pub get_all : ℕ → Pool T → Pool T × List ℕ
  unfolding get
  get_all zero p = (p, [])
  get_all (suc n) p = let (q, i) = get p in let (r, is) = get_all n q in (r, i ∷ is)

  abbrev pub put_all : List ℕ → Pool T → Pool T
  put_all [] p = p
  put_all (i ∷ is) p = put_all is (put i p)

  unfoldable pub warmup : ℕ → Pool T → Pool T
  unfolding get get_all
  warmup n p = let (q, is) = get_all n p in put_all is q

  -- `slot.Release()` and `return nil, err`
  abbrev pub failed_slot : Option (Pool T) → Error → Option (Pool T × Result ℕ)
  failed_slot none e = none
  failed_slot (some q) e = some (q, err e)

  -- MapPooled for one item: fn fills the slot, or fails and the slot is released.
  abbrev pub filled : Result T → Pool T × ℕ → Option (Pool T × Result ℕ)
  unfolding release
  filled (ok v) (p, i) =
      some (record p { objects = assign i (record (p.objects i) { value = v }) p.objects }, ok i)
  filled (err e) (p, i) = failed_slot (release i p) e

  unfoldable pub map_pooled : Result T → Pool T → Option (Pool T × Result ℕ)
  unfolding get filled
  map_pooled r p = filled r (get p)
