-- ===== src/Examples/Sets.antt =====
-- Runs of the deduplication sets and stages.
use go_kitsune.Prelude.{ℕ, ◌+◌, ◌≡◌, refl, List, [], ◌∷◌, ◌++◌, some, true, arith}
use go_kitsune.Keys.{nat_key}
use go_kitsune.Stage.{Room, at_ctx_done}
use go_kitsune.Dedup.Ttl.{TtlDedupSet, ttl_dedup_set, contains}
use go_kitsune.Dedup.Ttl.Refines.{Call, adds, after, last_added, contains-after}
use go_kitsune.Dedup.Bloom.{bloom_dedup_set, contains as bloom_contains}
use go_kitsune.Dedup.Bloom.Found.{add_all, contains-add_all}

abbrev new_set : TtlDedupSet ℕ
new_set = record { ttl = 10; entries = []; queue = []; head = 0 }

-- Key 1 is added at 3 and again at 8.
abbrev history : List (Call ℕ)
history = adds 3 1 ∷ adds 4 2 ∷ adds 8 1 ∷ []

new_set_lem : ttl_dedup_set 10 ≡ some new_set
unfolding ttl_dedup_set
new_set_lem = refl

contains-after_example : (contains (after new_set history) 15 1).1 ≡ true
unfolding last_added
contains-after_example =
    contains-after 10 15 new_set history 1 new_set_lem
      (omega arith, (omega arith, (omega arith, tt))) (omega arith)

abbrev shifted : ℕ → ℕ
shifted x = x + 5

abbrev same : ℕ → ℕ
same x = x

contains-add_all_example :
    bloom_contains same shifted
      (add_all same shifted (bloom_dedup_set 100 3) ((4 ∷ []) ++ 70 ∷ 8 ∷ []))
      70
    ≡ true
contains-add_all_example = contains-add_all same shifted 100 3 (4 ∷ []) (8 ∷ []) 70 (omega arith)

abbrev roomy : Room
roomy = record { sends = 9; stop = at_ctx_done }

abbrev repeating : List ℕ
repeating = 1 ∷ 1 ∷ 2 ∷ 3 ∷ 1 ∷ []
