-- ===== src/Examples/Stores.antt =====
-- Runs of the cache and of Retry.
use go_kitsune.Prelude.{
  ℕ, ◌≤◌, ◌≡◌, inr, List, [], ◌∷◌, Option, none, some, false, length, take, arith,
}
use go_kitsune.Keys.{nat_key}
use go_kitsune.Errors.{Error, user}
use go_kitsune.Cache.{memory_cache, set_entry, get}
use go_kitsune.Cache.Bounded.{Write, set_all, set_all-bounded}
use go_kitsune.Resubscribe.{RetryStrategy, Attempt, retry}
use go_kitsune.Resubscribe.Budget.{all_yielded, retry-budget}

abbrev writes : List (Write ℕ ℕ)
writes =
    record { now = 1; key = 4; value = 40; ttl = 0 }
    ∷ record { now = 2; key = 5; value = 50; ttl = 9 }
    ∷ []

set_all-bounded_example :
    let c = set_entry (set_all (memory_cache 1) writes) 3 6 60 10 in
    (length c.entries ≤ 1) × (get c 13 6 ≡ some 60)
set_all-bounded_example = set_all-bounded 1 writes 3 13 10 6 60 (omega arith) (inr (omega arith))

abbrev twice : RetryStrategy
twice = record { max_attempts = 2; backoff = none; retryable = none }

-- An upstream that fails after one item.
abbrev failing : ℕ → Attempt ℕ
failing x = record {
  before = none;
  yielded = x ∷ [];
  stopped = false;
  after = none;
  run_err = some (user x);
  wait = none;
}

abbrev failures : List (Attempt ℕ)
failures = failing 1 ∷ failing 2 ∷ failing 3 ∷ []

retry-budget_example :
    (k : ℕ) × (k ≤ 2)
    × ((retry twice failures).out ≡ all_yielded (take k failures))
    × (2 ≤ 3 → (e : Option Error) × ((retry twice failures).ending ≡ some e))
retry-budget_example = retry-budget twice failures (omega arith)
