-- ===== src/Breaker/Trips.antt =====
-- When a breaker that is used by one worker opens, and when it closes again.
use go_kitsune.Prelude.{
  ℕ, zero, suc, ◌+◌, ◌≤◌, ◌<◌, ◌≡◌, refl, ◌⊎◌, inl, inr, List, [], ◌∷◌, length, All, arith,
}
use go_kitsune.Errors.{Error, Result, ok, err}
use go_kitsune.Breaker.{
  BreakerConfig, Breaker, cb_closed, cb_open, cb_half_open, allow, record_success, record_failure,
  wrapped,
}

-- One call: when it is made, what fn returns, and when.
pub record Call {ℓ} (O : Type ℓ) : Type ℓ where
  pub now : ℕ
  pub result : Result O
  pub later : ℕ

module _ {ℓ} {O : Type ℓ} (c : BreakerConfig) where
  pub calls : Breaker → List (Call O) → Breaker
  calls cb [] = cb
  calls cb (k ∷ ks) = calls (wrapped c cb k.now k.result k.later).0 ks

  abbrev pub Failed : Call O → Type ℓ
  Failed k = (e : Error) × (k.result ≡ err e)

  abbrev pub Succeeded : Call O → Type ℓ
  Succeeded k = (x : O) × (k.result ≡ ok x)

  wrapped_counts :
      (cb : Breaker) (k : Call O)
      → Failed k
      → cb.state ≡ cb_closed
      → cb.failures + 1 < c.failure_threshold
      → (wrapped c cb k.now k.result k.later).0 ≡ record cb { failures = cb.failures + 1 }
  unfolding wrapped allow record_failure
  wrapped_counts cb k (e, f) h l = ground arith

  wrapped_trips :
      (cb : Breaker) (k : Call O)
      → Failed k
      → cb.state ≡ cb_closed
      → cb.failures + 1 ≡ c.failure_threshold
      → (wrapped c cb k.now k.result k.later).0
        ≡ record cb { state = cb_open; open_until = k.later + c.cooldown; failures = 0 }
  unfolding wrapped allow record_failure
  wrapped_trips cb k (e, f) h l = ground arith

  -- A closed breaker that has counted some failures stays closed, and counts on, while the
  -- failures in a row stay below the threshold; the failure that reaches the threshold opens it
  -- for the cooldown, counted from when that call returned.
  pub calls_trip :
      (cb : Breaker) (ks : List (Call O)) (last : Call O)
      → cb.state ≡ cb_closed
      → All Failed ks
      → Failed last
      → cb.failures + length ks + 1 ≡ c.failure_threshold
      → (calls cb ks ≡ record cb { failures = cb.failures + length ks })
        × ((wrapped c (calls cb ks) last.now last.result last.later).0
            ≡ record cb { state = cb_open; open_until = last.later + c.cooldown; failures = 0 })
  unfolding calls
  calls_trip cb [] last h fs f e = (ground arith, wrapped_trips cb last f h (omega arith))
  calls_trip cb (k ∷ ks) last h fs f e =
      let n : cb.failures + 1 + length ks ≡ cb.failures + suc (length ks) = omega arith in
      rw (wrapped_counts cb k fs.0 h (omega arith), ← n)
        (calls_trip (record cb { failures = cb.failures + 1 }) ks last h fs.1 f (omega arith))

  -- A call in the half-open state, before its deadline.
  abbrev InTime : Breaker → Call O → Type 0
  InTime cb k = (c.half_open_timeout ≡ 0) ⊎ (k.now ≤ cb.half_open_deadline)

  wrapped_probes :
      (cb : Breaker) (k : Call O) (n : ℕ)
      → Succeeded k
      → cb.state ≡ cb_half_open
      → cb.successes_needed ≡ suc (suc n)
      → InTime cb k
      → (wrapped c cb k.now k.result k.later).0 ≡ record cb { successes_needed = suc n }
  unfolding wrapped allow record_success
  wrapped_probes cb k n (x, f) h m t = ground arith

  wrapped_closes :
      (cb : Breaker) (k : Call O)
      → Succeeded k
      → cb.state ≡ cb_half_open
      → cb.successes_needed ≡ 1
      → InTime cb k
      → (wrapped c cb k.now k.result k.later).0 ≡ record cb {
        state = cb_closed;
        successes_needed = 0;
        failures = 0;
        half_open_deadline = 0;
      }
  unfolding wrapped allow record_success
  wrapped_closes cb k (x, f) h m t = ground arith

  -- A half-open breaker that needs n + 1 more successes: the calls that succeed before the
  -- deadline leave it half-open for the first n of them, and the last one closes it with no
  -- failures counted.
  pub calls_recover :
      (cb : Breaker) (n : ℕ) (ks : List (Call O)) (last : Call O)
      → cb.state ≡ cb_half_open
      → cb.successes_needed ≡ suc n
      → length ks ≡ n
      → All Succeeded ks
      → Succeeded last
      → All (InTime cb) ks
      → InTime cb last
      → (calls cb ks ≡ record cb { successes_needed = 1 })
        × ((wrapped c (calls cb ks) last.now last.result last.later).0 ≡ record cb {
          state = cb_closed;
          successes_needed = 0;
          failures = 0;
          half_open_deadline = 0;
        })
  unfolding calls
  calls_recover cb n [] last h m l ss s ts t =
      (ground arith, wrapped_closes cb last s h (omega arith) t)
  calls_recover cb zero (k ∷ ks) last h m l ss s ts t = absurd (omega arith)
  calls_recover cb (suc n) (k ∷ ks) last h m l ss s ts t =
      rw (wrapped_probes cb k n ss.0 h m ts.0) (
        calls_recover (record cb { successes_needed = suc n }) n ks last h refl (omega arith) ss.1 s
          ts.1 t)

  -- A failed probe opens a half-open breaker again at once, and so does a probe that comes after
  -- the deadline; each time for a full cooldown. A probe after the deadline does not reach fn.
  pub wrapped_reopens :
      (cb : Breaker) (k : Call O)
      → cb.state ≡ cb_half_open
      → Failed k ⊎ ((0 < c.half_open_timeout) × (cb.half_open_deadline < k.now))
      → let after = (wrapped c cb k.now k.result k.later).0 in
        (after.state ≡ cb_open)
        × (after.failures ≡ 0)
        × ((after.open_until ≡ k.later + c.cooldown) ⊎ (after.open_until ≡ k.now + c.cooldown))
  unfolding wrapped allow record_failure
  wrapped_reopens cb k h (inl (e, f)) = ground arith
  wrapped_reopens cb k h (inr (p, l)) = ground arith
