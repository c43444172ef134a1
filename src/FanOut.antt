-- ===== src/FanOut.antt =====
-- fan_out.go: the stages of Partition, Broadcast, Balance and KeyedBalance, and fnv32str of state_with.go.
--
-- Such a stage has one output channel for each branch and sends to one of them at a time, each by a
-- blocking outbox; what it sends is a pair of the branch and the item. Partition's branches are 0, for
-- the items that satisfy the predicate, and 1. A string is the list of its bytes.
pub mod Branches
pub mod Level
pub mod Dealt
use go_kitsune.Prelude.{ℕ, zero, suc, ◌+◌, ◌*◌, ◌%◌, ◌^◌, Bool, List, [], ◌∷◌, if◌then◌else◌}
use go_kitsune.Stage.{Action, continue, Loop}
use go_kitsune.Transform.{per_item, return_nil}

-- `h ^= uint32(s[i])` and `h *= 16777619`; the exclusive or of two 32-bit words is a parameter.
abbrev pub fnv32_from : (ℕ → ℕ → ℕ) → ℕ → List ℕ → ℕ
fnv32_from xor h [] = h
fnv32_from xor h (b ∷ s) = fnv32_from xor (xor h b * 16777619 % 2 ^ 32) s

unfoldable pub fnv32str : (ℕ → ℕ → ℕ) → List ℕ → ℕ
fnv32str xor s = fnv32_from xor 2166136261 s

module _ {ℓ} {T : Type ℓ} where
  unfoldable pub partition_loop : (T → Bool) → Loop (Unit {0}) T (ℕ × T)
  partition_loop pred =
      per_item (λ s x. if pred x then continue ((0, x) ∷ []) tt else continue ((1, x) ∷ []) tt)
        return_nil

  -- `for _, ob := range outboxes { ob.Send(ctx, item) }`, from the branch i on, for m branches.
  abbrev pub to_each : ℕ → ℕ → T → List (ℕ × T)
  to_each i zero x = []
  to_each i (suc m) x = (i, x) ∷ to_each (i + 1) m x

  unfoldable pub broadcast_loop : ℕ → Loop (Unit {0}) T (ℕ × T)
  broadcast_loop n = per_item (λ s x. continue (to_each 0 n x) tt) return_nil

  -- Balance: the state is `idx`.
  unfoldable pub balance_loop : ℕ → Loop ℕ T (ℕ × T)
  balance_loop n = per_item (λ idx x. continue ((idx % n, x) ∷ []) (idx + 1)) return_nil

  unfoldable pub keyed_balance_loop : (ℕ → ℕ → ℕ) → ℕ → (T → List ℕ) → Loop (Unit {0}) T (ℕ × T)
  unfolding fnv32str
  keyed_balance_loop xor n key_fn =
      per_item (λ s x. continue ((fnv32str xor (key_fn x) % n, x) ∷ []) tt) return_nil
