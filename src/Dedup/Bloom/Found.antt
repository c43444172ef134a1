-- ===== src/Dedup/Bloom/Found.antt =====
-- The filter never misses a key that was added, and never reads outside of its words.
use go_kitsune.Prelude.{
  ==_iff, ◌++◌, ℕ, zero, suc, ◌+◌, ◌*◌, ◌/◌, ◌%◌, ◌<◌, ◌≡◌, refl, ap, ◌∙◌, true, false, ◌||◌, List,
  [], ◌∷◌, length, get_or, set, length-set, length-replicate, ◌==◌, Bool-cases, inl, inr, arith,
  if◌then◌else◌,
}
use go_kitsune.Dedup.Bloom.{
  BloomDedupSet, test_bit, set_bit, is_marked, mark, position, contains_from, add_from, contains,
  add, bloom_dedup_set,
}

halve : (w : ℕ) → (2 * (w / 2) + 1) / 2 ≡ w / 2
halve w = omega arith

unhalve : (v w : ℕ) → (2 * v + w % 2) / 2 ≡ v
unhalve v w = omega arith

test_bit-set_bit : (w b d : ℕ) → test_bit (set_bit w b) d ≡ (b == d || test_bit w d)
unfolding test_bit set_bit
test_bit-set_bit w zero zero = ground arith
test_bit-set_bit w zero (suc d) = rw (halve w) (ground arith)
test_bit-set_bit w (suc b) zero = ground arith
test_bit-set_bit w (suc b) (suc d) =
    rw (unhalve (set_bit (w / 2) b) w, test_bit-set_bit (w / 2) b d) (ground arith)

get_or-set :
    (xs : List ℕ) (i j v d : ℕ)
    → i < length xs
    → get_or (set xs i v) j d ≡ (if i == j then v else get_or xs j d)
get_or-set [] i j v d h = absurd (omega arith)
get_or-set (x ∷ xs) zero zero v d h = ground arith
get_or-set (x ∷ xs) zero (suc j) v d h = ground arith
get_or-set (x ∷ xs) (suc i) zero v d h = ground arith
get_or-set (x ∷ xs) (suc i) (suc j) v d h = ground (arith, get_or-set xs i j v d)

-- The words cover the m bits.
pub record IsSized (s : BloomDedupSet) : Type 0 where
  pub m_pos : 0 < s.m
  pub covered : length s.bits ≡ (s.m + 63) / 64

in_words : (s : BloomDedupSet) (pos : ℕ) → IsSized s → pos < s.m → pos / 64 < length s.bits
in_words s pos h l = omega arith

same_word : (p q : ℕ) → p / 64 ≡ q / 64 → (p % 64 == q % 64) ≡ (p == q)
same_word p q h = ground arith

differ : (p q : ℕ) → (p / 64 == q / 64) ≡ false → (p == q) ≡ false
differ p q h = ground arith

is_marked-mark :
    (s : BloomDedupSet) (p q : ℕ)
    → IsSized s
    → p < s.m
    → is_marked (mark s p) q ≡ (p == q || is_marked s q)
unfolding is_marked mark
is_marked-mark s p q h l =
    rw
      (get_or-set s.bits (p / 64) (q / 64) (set_bit (get_or s.bits (p / 64) 0) (p % 64)) 0
        (in_words s p h l))
      (elim (Bool-cases (p / 64 == q / 64)) [
        | inl same ↦
            let eq = (==_iff (p / 64) (q / 64)).0 same in
            rw
              (
                same,
                test_bit-set_bit (get_or s.bits (p / 64) 0) (p % 64) (q % 64),
                eq,
                same_word p q eq,
              )
              refl
        | inr other ↦ rw (other, differ p q other) refl
      ])

mark-IsSized : (s : BloomDedupSet) (p : ℕ) → IsSized s → IsSized (mark s p)
unfolding mark
mark-IsSized s p h = record { m_pos = h.m_pos; covered = length-set s.bits (p / 64) _ ∙ h.covered }

-- `t` is `s` after some marks.
record Extends (s t : BloomDedupSet) : Type 0 where
  pub same_m : t.m ≡ s.m
  pub same_k : t.k ≡ s.k
  pub sized : IsSized t
  pub kept : (q : ℕ) → is_marked s q ≡ true → is_marked t q ≡ true

Extends-trans : {s t u : BloomDedupSet} → Extends s t → Extends t u → Extends s u
Extends-trans a b = record {
  same_m = b.same_m ∙ a.same_m;
  same_k = b.same_k ∙ a.same_k;
  sized = b.sized;
  kept = λ q h. b.kept q (a.kept q h);
}

mark-same : (s : BloomDedupSet) (p : ℕ) → ((mark s p).m ≡ s.m) × ((mark s p).k ≡ s.k)
unfolding mark
mark-same s p = (refl, refl)

mark-Extends : (s : BloomDedupSet) (p : ℕ) → IsSized s → p < s.m → Extends s (mark s p)
mark-Extends s p h l = record {
  same_m = (mark-same s p).0;
  same_k = (mark-same s p).1;
  sized = mark-IsSized s p h;
  kept = λ q marked. is_marked-mark s p q h l ∙ ground (arith, marked);
}

is_marked-mark_self :
    (s : BloomDedupSet) (p : ℕ) → IsSized s → p < s.m → is_marked (mark s p) p ≡ true
is_marked-mark_self s p h l = is_marked-mark s p p h l ∙ ground arith

module _ {K : Type 0} (hash1 hash2 : K → ℕ) where
  position_lt : (m : ℕ) (key : K) (i : ℕ) → 0 < m → position hash1 hash2 m key i < m
  unfolding position
  position_lt m key i h = ground arith

  -- The key's positions are marked from the i-th on, n of them.
  abbrev Marked : ℕ → ℕ → BloomDedupSet → K → Type 0
  Marked zero i s key = Unit
  Marked (suc n) i s key =
      (is_marked s (position hash1 hash2 s.m key i) ≡ true) × Marked n (i + 1) s key

  Marked-contains_from :
      (n i : ℕ) (s : BloomDedupSet) (key : K)
      → Marked n i s key
      → contains_from hash1 hash2 n i s key ≡ true
  unfolding contains_from
  Marked-contains_from zero i s key h = refl
  Marked-contains_from (suc n) i s key h = rw (h.0, Marked-contains_from n (i + 1) s key h.1) refl

  Marked-kept :
      (n i : ℕ) (s t : BloomDedupSet) (key : K) → Extends s t → Marked n i s key → Marked n i t key
  Marked-kept zero i s t key e h = tt
  Marked-kept (suc n) i s t key e h = (
    ap (λ m. is_marked t (position hash1 hash2 m key i)) e.same_m ∙ e.kept _ h.0,
    Marked-kept n (i + 1) s t key e h.1,
  )

  add_from-Extends :
      (n i : ℕ) (s : BloomDedupSet) (key : K)
      → IsSized s
      → Extends s (add_from hash1 hash2 n i s key)
  unfolding add_from
  add_from-Extends zero i s key h = record {
    same_m = refl;
    same_k = refl;
    sized = h;
    kept = λ q marked. marked;
  }
  add_from-Extends (suc n) i s key h =
      let p = position hash1 hash2 s.m key i in
      let e = mark-Extends s p h (position_lt s.m key i h.m_pos) in
      Extends-trans e (add_from-Extends n (i + 1) (mark s p) key e.sized)

  add_from-Marked :
      (n i : ℕ) (s : BloomDedupSet) (key : K)
      → IsSized s
      → Marked n i (add_from hash1 hash2 n i s key) key
  unfolding add_from
  add_from-Marked zero i s key h = tt
  add_from-Marked (suc n) i s key h =
      let p = position hash1 hash2 s.m key i in
      let l = position_lt s.m key i h.m_pos in
      let e = mark-Extends s p h l in
      let f = add_from-Extends n (i + 1) (mark s p) key e.sized in
      (
        ap
              (λ m.
                is_marked (add_from hash1 hash2 n (i + 1) (mark s p) key)
                  (position hash1 hash2 m key i))
              (f.same_m ∙ e.same_m)
            ∙ f.kept p (is_marked-mark_self s p h l),
        add_from-Marked n (i + 1) (mark s p) key e.sized,
      )

  -- The calls of Add on a list of keys, in order.
  unfoldable pub add_all : BloomDedupSet → List K → BloomDedupSet
  unfolding add
  add_all s [] = s
  add_all s (key ∷ keys) = add_all (add hash1 hash2 s key) keys

  add-Extends : (s : BloomDedupSet) (key : K) → IsSized s → Extends s (add hash1 hash2 s key)
  unfolding add
  add-Extends s key h = add_from-Extends s.k 0 s key h

  add_all-Extends : (s : BloomDedupSet) (keys : List K) → IsSized s → Extends s (add_all s keys)
  unfolding add_all
  add_all-Extends s [] h = record {
    same_m = refl;
    same_k = refl;
    sized = h;
    kept = λ q marked. marked;
  }
  add_all-Extends s (key ∷ keys) h =
      let e = add-Extends s key h in
      Extends-trans e (add_all-Extends (add hash1 hash2 s key) keys e.sized)

  add-Marked : (s : BloomDedupSet) (key : K) → IsSized s → Marked s.k 0 (add hash1 hash2 s key) key
  unfolding add
  add-Marked s key h = add_from-Marked s.k 0 s key h

  contains-Marked :
      (s : BloomDedupSet) (key : K) → Marked s.k 0 s key → contains hash1 hash2 s key ≡ true
  unfolding contains
  contains-Marked s key h = Marked-contains_from s.k 0 s key h

  found :
      (s : BloomDedupSet) (earlier later : List K) (key : K)
      → IsSized s
      → contains hash1 hash2 (add_all s (earlier ++ key ∷ later)) key ≡ true
  unfolding add_all
  found s [] later key h =
      let e = add-Extends s key h in
      let t = add hash1 hash2 s key in
      let f = add_all-Extends t later e.sized in
      contains-Marked (add_all t later) key
        (rw (f.same_k, e.same_k) (Marked-kept s.k 0 t (add_all t later) key f (add-Marked s key h)))
  found s (k ∷ earlier) later key h =
      found (add hash1 hash2 s k) earlier later key (add-Extends s k h).sized

  bloom_dedup_set-IsSized : (m k : ℕ) → 0 < m → IsSized (bloom_dedup_set m k)
  unfolding bloom_dedup_set
  bloom_dedup_set-IsSized m k h = record { m_pos = h; covered = length-replicate ((m + 63) / 64) 0 }

  -- No false negatives: in a filter of m > 0 bits and any number k of hash positions, a key that was
  -- added is found, whatever keys were added before it and after it and whatever the hashes are.
  pub contains-add_all :
      (m k : ℕ) (earlier later : List K) (key : K)
      → 0 < m
      → contains hash1 hash2 (add_all (bloom_dedup_set m k) (earlier ++ key ∷ later)) key ≡ true
  contains-add_all m k earlier later key h =
      found (bloom_dedup_set m k) earlier later key (bloom_dedup_set-IsSized m k h)
