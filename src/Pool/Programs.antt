-- ===== src/Pool/Programs.antt =====
-- Programs that use a pool, as lists of calls.
use go_kitsune.Prelude.{
  ℕ, zero, suc, List, [], ◌∷◌, Option, none, some, ◌==◌, if◌then◌else◌, get_elem?,
}
use go_kitsune.Errors.{Result, ok, err}
use go_kitsune.Pool.{Pool, Pooled, release, get, warmup, map_pooled}

-- How often a number is in a list.
abbrev pub count : ℕ → List ℕ → ℕ
count i [] = 0
count i (j ∷ js) = if i == j then suc (count i js) else count i js

abbrev pub remove_at : ℕ → List ℕ → List ℕ
remove_at k [] = []
remove_at zero (i ∷ is) = is
remove_at (suc k) (i ∷ is) = i ∷ remove_at k is

-- What a program does with the pool. It releases only objects that it holds.
pub data Op (T : Type 0) : Type 0 where
  get_one : Op T
  -- the k-th of the held objects
  release_held : ℕ → Op T
  warm_up : ℕ → Op T
  map_one : Result T → Op T

pub record Holding (T : Type 0) : Type 0 where
  pub pool : Pool T
  pub held : List ℕ

module _ {T : Type 0} (new_fn : ℕ → T) where
  abbrev pub and_hold : Option (Pool T) → List ℕ → Option (Holding T)
  and_hold none held = none
  and_hold (some q) held = some (record { pool = q; held = held })

  unfoldable pub released_from : Option ℕ → ℕ → Holding T → Option (Holding T)
  unfolding release
  released_from none k s = some s
  released_from (some i) k s = and_hold (release i s.pool) (remove_at k s.held)

  abbrev pub mapped_to : Option (Pool T × Result ℕ) → Holding T → Option (Holding T)
  mapped_to none s = none
  mapped_to (some (q, ok i)) s = some (record { pool = q; held = i ∷ s.held })
  mapped_to (some (q, err e)) s = some (record s { pool = q })

  unfoldable pub perform : Op T → Holding T → Option (Holding T)
  unfolding get warmup map_pooled released_from
  perform get_one s =
      let (q, i) = get new_fn s.pool in some (record { pool = q; held = i ∷ s.held })
  perform (release_held k) s = released_from (get_elem? s.held k) k s
  perform (warm_up n) s = some (record s { pool = warmup new_fn n s.pool })
  perform (map_one r) s = mapped_to (map_pooled new_fn r s.pool) s

  -- The program's calls in order; a panic ends it.
  unfoldable pub perform_all : List (Op T) → Holding T → Option (Holding T)
  unfolding perform
  perform_all [] s = some s
  perform_all (op ∷ ops) s = elim (perform op s) [ none ↦ none | some t ↦ perform_all ops t ]

  -- NewPool, which no one holds an object of.
  abbrev pub new_pool : (ℕ → Pooled T) → Holding T
  new_pool objects = record { pool = record { stack = []; objects = objects; made = 0 }; held = [] }
