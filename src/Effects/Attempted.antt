-- ===== src/Effects/Attempted.antt =====
-- runEffectAttempts ends within its budget.
use go_kitsune.Prelude.{
  ℕ, zero, suc, ◌+◌, ◌≤◌, ◌<◌, ◌≡◌, refl, Bool, true, false, Option, none, some, ◌⊎◌, inl, inr, sym,
  dec_lt, Bool-cases, arith, subst,
}
use go_kitsune.Errors.{Error, Result, ok, err}
use go_kitsune.Effects.{
  EffectOutcome, EffectRetry, at_least_one, exhausted, Environment, failed_outcome, applied_outcome,
  waited, after_call, attempt_unless, attempts_from, run_effect_attempts,
}

left_over : (n attempt : ℕ) → exhausted (some n) attempt ≡ false → attempt + 1 < at_least_one n
left_over n attempt h = ground (arith, h)

spent-attempt : (n attempt : ℕ) → exhausted (some n) attempt ≡ true → at_least_one n ≤ attempt + 1
spent-attempt n attempt h = ground (arith, h)

abbrev pub is_err : {R : Type 0} → Result R → Bool
is_err (ok v) = false
is_err (err e) = true

module _ {I R : Type 0} (zero_value : R) (x : I) (r : EffectRetry) (env : Environment R) where
  -- None of the first calls succeeded.
  abbrev pub AllFailed : ℕ → Type 0
  AllFailed calls = (j : ℕ) → j < calls → is_err (env.call j) ≡ true

  -- Why the attempts end with an error: the context has ended before a call, or after the last call its
  -- error is not retryable or the budget is spent, or the wait was cut short.
  abbrev pub Cause : ℕ → Error → ℕ → Type 0
  Cause budget e calls =
      (env.ctx_err calls ≡ some e)
      ⊎ ((k : ℕ) × (calls ≡ suc k)
          × (((env.call k ≡ err e) × ((r.is_retryable e ≡ false) ⊎ (budget ≡ calls)))
              ⊎ (env.wait k ≡ some e)))

  -- The outcome of the first call that succeeded, which is the last one; and otherwise one with an
  -- error that has a cause, when no call succeeded.
  abbrev pub Settled : ℕ → EffectOutcome I R × ℕ → Type 0
  Settled budget (o, calls) =
      ((k : ℕ) × (v : R) × (calls ≡ suc k)
        × (env.call k ≡ ok v)
        × AllFailed k
        × (o ≡ applied_outcome zero_value x v))
      ⊎ ((e : Error) × (o ≡ failed_outcome zero_value x e) × AllFailed calls × Cause budget e calls)

  abbrev pub Within : ℕ → Option (EffectOutcome I R × ℕ) → Type 0
  Within budget none = ⊥
  Within budget (some (o, calls)) = (calls ≤ budget) × Settled budget (o, calls)

  AllFailed-next :
      (attempt : ℕ) → is_err (env.call attempt) ≡ true → AllFailed attempt → AllFailed (attempt + 1)
  AllFailed-next attempt h g j le = elim (dec_lt j attempt) [
    | yes lt ↦ g j lt
    | no ge ↦
        let last : j ≡ attempt = omega (arith, ge, le) in
        subst (λ k. is_err (env.call k) ≡ true) (sym last) h
  ]

  waited-Within :
      (w : Option Error) (budget attempt : ℕ) (again : Option (EffectOutcome I R × ℕ))
      → env.wait attempt ≡ w
      → attempt < budget
      → AllFailed (attempt + 1)
      → Within budget again
      → Within budget (waited zero_value x w attempt again)
  waited-Within none budget attempt again e h f g = g
  waited-Within (some c) budget attempt again e h f g =
      (omega arith, inr (c, refl, f, inr (attempt, omega arith, inr e)))

  -- A call, when the loop is in budget as long as it is not exhausted.
  after_call-Within :
      (res : Result R) (n attempt : ℕ) (again : Option (EffectOutcome I R × ℕ))
      → r.max_attempts ≡ some n
      → env.call attempt ≡ res
      → attempt < at_least_one n
      → AllFailed attempt
      → (exhausted (some n) attempt ≡ false
          → AllFailed (attempt + 1)
          → Within (at_least_one n) again)
      → Within (at_least_one n) (after_call zero_value x r res (env.wait attempt) attempt again)
  after_call-Within (ok v) n attempt again m e h f g =
      (omega arith, inl (attempt, v, omega arith, e, f, refl))
  after_call-Within (err c) n attempt again m e h f g =
      let failing = AllFailed-next attempt (rw e refl) f in
      elim (Bool-cases (r.is_retryable c)) [
        | inr final ↦
            rw final
              (omega arith, inr (c, refl, failing, inr (attempt, omega arith, inl (e, inl final))))
        | inl retryable ↦ elim (Bool-cases (exhausted (some n) attempt)) [
          | inl spent ↦
              rw (retryable, m, spent)
                (
                  omega arith,
                  inr (
                    c,
                    refl,
                    failing,
                    inr (
                      attempt,
                      omega arith,
                      inl (e, inr (omega (arith, spent-attempt n attempt spent, h))),
                    ),
                  ),
                )
          | inr left ↦
              rw (retryable, m, left)
                (waited-Within (env.wait attempt) (at_least_one n) attempt again refl h failing
                  (g left failing))
        ]
      ]

  attempt_unless-Within :
      (c : Option Error) (budget attempt : ℕ) (go : Option (EffectOutcome I R × ℕ))
      → env.ctx_err attempt ≡ c
      → attempt ≤ budget
      → AllFailed attempt
      → Within budget go
      → Within budget (attempt_unless zero_value x c attempt go)
  attempt_unless-Within none budget attempt go e h f g = g
  attempt_unless-Within (some c) budget attempt go e h f g = (h, inr (c, refl, f, inl e))

  attempts_from-Within :
      (n fuel attempt : ℕ)
      → r.max_attempts ≡ some n
      → attempt < at_least_one n
      → at_least_one n ≤ fuel + attempt
      → AllFailed attempt
      → Within (at_least_one n) (attempts_from zero_value x r env fuel attempt)
  unfolding attempts_from
  attempts_from-Within n zero attempt e h g f = absurd (omega arith)
  attempts_from-Within n (suc fuel) attempt e h g f =
      attempt_unless-Within (env.ctx_err attempt) (at_least_one n) attempt _ refl (omega arith) f (
        after_call-Within (env.call attempt) n attempt _ e refl h f (λ left failing.
          attempts_from-Within n fuel (attempt + 1) e (left_over n attempt left) (omega arith)
            failing))

module _ {I R : Type 0} (zero_value : R) (x : I) where
  -- With MaxAttempts n that is not negative, and fuel for as many attempts, or for one when n is zero,
  -- runEffectAttempts returns: it calls fn at most n times, or once when n is zero. When a call
  -- succeeds it is the last one, and the outcome is applied and carries its result. Otherwise no call
  -- succeeded, and the outcome carries an error, which is that of the context before the next call, that
  -- of the last call when it is not retryable or the budget is spent, or what cut short the wait after
  -- the last call. This holds whatever fn, the waits and the context do.
  pub run_effect_attempts-bounded :
      (n extra : ℕ) (is_retryable : Error → Bool) (env : Environment R)
      → let r : EffectRetry = record { max_attempts = some n; is_retryable = is_retryable } in
        Within zero_value x r env
          (at_least_one n)
          (run_effect_attempts zero_value x r env (at_least_one n + extra))
  unfolding run_effect_attempts
  run_effect_attempts-bounded n extra is_retryable env =
      attempts_from-Within zero_value x _ env n (at_least_one n + extra) 0 refl (ground arith)
        (omega arith) (λ j none_yet. absurd (omega arith))
