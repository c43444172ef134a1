-- ===== src/Dedup/Bloom.antt =====
-- internal/bloom.go: the Bloom filter. `bits` is a list of 64-bit words; the two hashes of a key come
-- from hash/maphash and are parameters, and so is the pair (m, k) that optimalBloomParams computes
-- in floating point.
pub mod Found
use go_kitsune.Prelude.{
  ℕ, zero, suc, ◌+◌, ◌*◌, ◌/◌, ◌%◌, Bool, true, false, List, get_or, set, replicate, ◌==◌,
  if◌then◌else◌,
}

abbrev pub two_64 : ℕ
two_64 = 18446744073709551616

-- `w & (1<<b) != 0` and `w | 1<<b`, by the binary digits of w.
unfoldable pub test_bit : ℕ → ℕ → Bool
test_bit w zero = w % 2 == 1
test_bit w (suc b) = test_bit (w / 2) b

unfoldable pub set_bit : ℕ → ℕ → ℕ
set_bit w zero = 2 * (w / 2) + 1
set_bit w (suc b) = 2 * set_bit (w / 2) b + w % 2

pub record BloomDedupSet : Type 0 where
  pub bits : List ℕ
  pub m : ℕ
  pub k : ℕ

-- bloomHash, after maphash: `v2 |= 1`.
unfoldable pub odd : ℕ → ℕ
unfolding set_bit
odd v = set_bit v 0

-- `b.bits[pos/64]&(1<<(pos%64)) != 0` and `b.bits[pos/64] |= 1 << (pos % 64)`.
unfoldable pub is_marked : BloomDedupSet → ℕ → Bool
unfolding test_bit
is_marked s pos = test_bit (get_or s.bits (pos / 64) 0) (pos % 64)

unfoldable pub mark : BloomDedupSet → ℕ → BloomDedupSet
unfolding set_bit
mark s pos = record s {
  bits = set s.bits (pos / 64) (set_bit (get_or s.bits (pos / 64) 0) (pos % 64));
}

module _ {K : Type 0} (hash1 hash2 : K → ℕ) where
  -- `(h1 + uint64(i)*h2) % b.m`, in 64 bits.
  unfoldable pub position : ℕ → K → ℕ → ℕ
  unfolding odd
  position m key i = ((hash1 key + i * odd (hash2 key)) % two_64) % m

  -- The loops, with the number of rounds left and the index i.
  unfoldable pub contains_from : ℕ → ℕ → BloomDedupSet → K → Bool
  contains_from zero i s key = true
  contains_from (suc n) i s key =
      let rest = contains_from n (i + 1) s key in
      if is_marked s (position s.m key i) then rest else false

  unfoldable pub add_from : ℕ → ℕ → BloomDedupSet → K → BloomDedupSet
  add_from zero i s key = s
  add_from (suc n) i s key = add_from n (i + 1) (mark s (position s.m key i)) key

  unfoldable pub contains : BloomDedupSet → K → Bool
  unfolding contains_from is_marked position
  contains s key = contains_from s.k 0 s key

  unfoldable pub add : BloomDedupSet → K → BloomDedupSet
  unfolding add_from mark position
  add s key = add_from s.k 0 s key

-- BloomDedupSet, once m and k are computed: (m + 63) / 64 zero words.
unfoldable pub bloom_dedup_set : ℕ → ℕ → BloomDedupSet
bloom_dedup_set m k = record { bits = replicate ((m + 63) / 64) 0; m = m; k = k }
