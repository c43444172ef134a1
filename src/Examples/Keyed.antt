-- ===== src/Examples/Keyed.antt =====
-- Runs of MapWithKey, serial and with workers.
use go_kitsune.Prelude.{
  ℕ, ◌+◌, ◌%◌, ◌≡◌, refl, sym, ap, List, [], ◌∷◌, ◌++◌, map, Option, none, some, arith,
}
use go_kitsune.Errors.{Result, ok, err}
use go_kitsune.Keys.{nat_key}
use go_kitsune.Process.{Outcome}
use go_kitsune.Ref.{MemoryRef}
use go_kitsune.Stage.{items, closed, ideal, Action}
use go_kitsune.Keyed.{KeyedRefMap, KeyedConfig, map_with_key_loop, get_ref, put_ref}
use go_kitsune.Keyed.Isolated.{passed, of_key, item_key, map_with_key_loop-of_key}
use go_kitsune.Sharded.{
  State, Reach, here, next, start, dispatch, take, send, dispatched, exit, exited,
}
use go_kitsune.Sharded.PerKey.{body, keyed_prefix, keyed_whole}

abbrev counter : KeyedConfig ℕ
counter = record { initial = 0; ttl = 0; key_ttl = 0 }

abbrev no_refs : KeyedRefMap ℕ ℕ
no_refs = record { refs = λ k. none; next_sweep = 0 }

abbrev parity : ℕ → ℕ
parity x = x % 2

-- It counts the items of a key, and sends the key with the count.
abbrev count_item : MemoryRef ℕ → ℕ → MemoryRef ℕ × Outcome (ℕ × ℕ)
count_item r x =
    (record r { value = r.value + 1 }, record { result = ok (parity x, r.value + 1); attempt = 0 })

abbrev key_of : ℕ × ℕ → ℕ
key_of v = v.0

count_item-goes :
    (r : MemoryRef ℕ) (x : ℕ) → (o : Option (ℕ × ℕ)) × ((count_item r x).1.result ≡ passed o)
count_item-goes r x = (some (parity x, r.value + 1), refl)

abbrev key_in : Result (ℕ × ℕ) → ℕ
key_in (ok v) = v.0
key_in (err e) = 0

count_item-labelled :
    (r : MemoryRef ℕ) (x : ℕ) (v : ℕ × ℕ) → (count_item r x).1.result ≡ ok v → key_of v ≡ parity x
count_item-labelled r x v h = ap key_in (sym h)

abbrev timed : List (ℕ × ℕ)
timed = (1, 3) ∷ (2, 4) ∷ (4, 5) ∷ []

map_with_key_loop-of_key_example :
    of_key key_of 1
      (ideal
        (map_with_key_loop counter 1 parity count_item)
        no_refs
        (items timed ++ closed ∷ [])).out
    ≡ (ideal
        (map_with_key_loop counter 1 parity count_item)
        no_refs
        (items (of_key (item_key parity) 1 timed) ++ closed ∷ [])).out
map_with_key_loop-of_key_example =
    map_with_key_loop-of_key counter 1 parity count_item key_of count_item-goes count_item-labelled
      1 0 no_refs timed [] (omega arith)

-- The workers are numbered by the keys themselves.
abbrev worker_body : KeyedRefMap ℕ ℕ → ℕ × ℕ → Action (KeyedRefMap ℕ ℕ) (ℕ × ℕ)
worker_body =
    body counter 1 parity count_item key_of count_item-goes count_item-labelled (λ k. k) 0 no_refs

abbrev worker_of : ℕ × ℕ → ℕ
worker_of it = parity it.1

abbrev begun : State (KeyedRefMap ℕ ℕ) (ℕ × ℕ) (ℕ × ℕ)
begun = start (λ i. no_refs) ((1, 3) ∷ [])

run_whole :
    (s : State (KeyedRefMap ℕ ℕ) (ℕ × ℕ) (ℕ × ℕ)) × Reach worker_body worker_of 0 begun s
    × (s.input ≡ [])
    × ((s.workers 1).status ≡ exited)
unfolding get_ref put_ref
run_whole = (
  _,
  next
      (next
        (next
          (next (next here (dispatch _ (1, 3) [] refl refl (omega arith)))
            (take _ 1 (1, 3) [] refl refl refl))
          (send _ 1 (1, 1) [] refl refl))
        (dispatched _ refl))
      (exit _ 1 refl refl refl refl),
  refl,
  refl,
)

keyed_prefix_example :
    (rest : List (ℕ × ℕ)) × (of_key key_of 1 (map (λ o. o.1) (run_whole.0).out) ++ rest
      ≡ of_key key_of 1
          (ideal
            (map_with_key_loop counter 1 parity count_item)
            no_refs
            (items ((1, 3) ∷ []) ++ closed ∷ [])).out)
keyed_prefix_example =
    keyed_prefix counter 1 parity count_item key_of count_item-goes count_item-labelled (λ k. k) 0
      no_refs 1 0 ((1, 3) ∷ []) (omega arith) (run_whole.1)

keyed_whole_example :
    of_key key_of 1 (map (λ o. o.1) (run_whole.0).out)
    ≡ of_key key_of 1
        (ideal
          (map_with_key_loop counter 1 parity count_item)
          no_refs
          (items ((1, 3) ∷ []) ++ closed ∷ [])).out
keyed_whole_example =
    keyed_whole counter 1 parity count_item key_of count_item-goes count_item-labelled (λ k. k) 0
      no_refs 1 0 ((1, 3) ∷ []) (omega arith) (run_whole.1) (run_whole.2) (run_whole.3)
