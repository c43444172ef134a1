-- ===== src/Supervisor/Restarting.antt =====
-- How often Supervise restarts a stage.
use go_kitsune.Prelude.{
  ℕ, ◌+◌, ◌≤◌, ◌<◌, ◌≡◌, refl, ap, Bool, true, false, List, [], ◌∷◌, length, Option, none, some,
  inl, inr, Option-cases, Bool-cases, ◌≢◌, arith, ◌⊎◌, leb,
}
use go_kitsune.Errors.{Error}
use go_kitsune.Supervisor.{
  pause, PanicAction, panic_propagate, panic_restart, panic_skip, SupervisionPolicy, RunEnd, run_ok,
  run_err, run_panic, Try, Supervised, returned_err, repanicked, Restarts, judge, expire, after_run,
  restarted, supervise_from, no_restarts, supervise, propagates, pass_through, has_supervision,
}

expire-never : (since : ℕ) (s : Restarts) → expire 0 since s ≡ s
expire-never since s = elim (Option-cases s.window_start) [
  | inl closed ↦ rw (closed) refl
  | inr (start, at) ↦ rw (at) refl
]

after_run-ends :
    (j : Supervised ⊎ Error) (ctx cut : Option Error) (spent : Bool) (again : Option Supervised)
    → (spent ≡ false → (r : Supervised) × (again ≡ some r))
    → (r : Supervised) × (after_run j ctx spent cut again ≡ some r)
after_run-ends (inl r) ctx cut spent again h = (r, refl)
after_run-ends (inr e) (some c) cut spent again h = (returned_err c, refl)
after_run-ends (inr e) none cut true again h = (returned_err e, refl)
after_run-ends (inr e) none (some c) false again h = (returned_err c, refl)
after_run-ends (inr e) none none false again h = h refl

supervise_from-ends :
    (p : SupervisionPolicy) (s : Restarts) (ts : List Try)
    → p.window ≡ 0
    → p.max_restarts < s.restarts + length ts
    → s.restarts ≤ p.max_restarts
    → (r : Supervised) × (supervise_from p s ts ≡ some r)
unfolding supervise_from
supervise_from-ends p s [] w l g = absurd (omega arith)
supervise_from-ends p s (t ∷ ts) w l g =
    simp (w, expire-never t.since s)
      (after_run-ends (judge p t.run_end) t.ctx_err (pause p.backoff_of s.restarts t.stop)
        (leb p.max_restarts s.restarts) (supervise_from p (restarted s t.now) ts)
        (λ left.
          supervise_from-ends p (restarted s t.now) ts w (omega arith) (ground (arith, left))))

-- Without a window (Window = 0), Supervise makes at most max_restarts + 1 runs: however the runs end,
-- and whatever the clock and the context do, it has returned once that many are over.
pub supervise-ends :
    (p : SupervisionPolicy) (ts : List Try)
    → p.window ≡ 0
    → p.max_restarts < length ts
    → (r : Supervised) × (supervise p ts ≡ some r)
unfolding supervise
supervise-ends p [] w l = absurd (omega arith)
supervise-ends p (t ∷ ts) w l = elim (Bool-cases (has_supervision p)) [
  | inl on ↦ rw (on) (supervise_from-ends p no_restarts (t ∷ ts) w (omega arith) (omega arith))
  | inr off ↦ (pass_through t.run_end, rw (off) refl)
]

judge-recovers :
    (p : SupervisionPolicy) (e : RunEnd) (v : ℕ)
    → judge p e ≡ inl (repanicked v)
    → propagates p.on_panic ≡ true
judge-recovers p run_ok v h = absurd (cc h)
judge-recovers p (run_err e) v h = elim (Bool-cases p.panic_only) [
  | inl only ↦ absurd (cc (rw (only) at h))
  | inr all ↦ absurd (cc (rw (all) at h))
]
judge-recovers p (run_panic x) v h = go p.on_panic refl
  where
    go : (a : PanicAction) → p.on_panic ≡ a → propagates p.on_panic ≡ true
    go panic_propagate eq = ap propagates eq
    go panic_restart eq = absurd (cc (rw (eq) at h))
    go panic_skip eq = absurd (cc (rw (eq) at h))

after_run-recovers :
    (j : Supervised ⊎ Error) (ctx cut : Option Error) (spent : Bool) (again : Option Supervised)
    (v : ℕ)
    → after_run j ctx spent cut again ≡ some (repanicked v)
    → (j ≡ inl (repanicked v)) ⊎ (again ≡ some (repanicked v))
after_run-recovers (inl r) ctx cut spent again v h = inl (cc h)
after_run-recovers (inr e) (some c) cut spent again v h = absurd (cc h)
after_run-recovers (inr e) none cut true again v h = absurd (cc h)
after_run-recovers (inr e) none (some c) false again v h = absurd (cc h)
after_run-recovers (inr e) none none false again v h = inr h

supervise_from-recovers :
    (p : SupervisionPolicy) (s : Restarts) (ts : List Try) (v : ℕ)
    → supervise_from p s ts ≡ some (repanicked v)
    → propagates p.on_panic ≡ true
unfolding supervise_from
supervise_from-recovers p s [] v h = absurd (cc h)
supervise_from-recovers p s (t ∷ ts) v h =
    elim (after_run-recovers (judge p t.run_end) t.ctx_err _ _ _ v h) [
      | inl now ↦ judge-recovers p t.run_end v now
      | inr later ↦
          supervise_from-recovers p (restarted (expire p.window t.since s) t.now) ts v later
    ]

propagates_inv : (a : PanicAction) → propagates a ≡ true → a ≡ panic_propagate
propagates_inv panic_propagate h = refl
propagates_inv panic_restart h = absurd (cc h)
propagates_inv panic_skip h = absurd (cc h)

unsupervised : (p : SupervisionPolicy) → has_supervision p ≡ false → propagates p.on_panic ≡ true
unfolding has_supervision
unsupervised p h = ground (arith, h)

-- A panic leaves Supervise only under PanicPropagate: under PanicRestart and PanicSkip none does,
-- whatever the restart budget, the window and the way the runs end.
pub supervise-recovers :
    (p : SupervisionPolicy) (ts : List Try) (v : ℕ)
    → p.on_panic ≢ panic_propagate
    → supervise p ts ≢ some (repanicked v)
unfolding supervise has_supervision
supervise-recovers p [] v h eq = absurd (cc eq)
supervise-recovers p (t ∷ ts) v h eq = elim (Bool-cases (has_supervision p)) [
  | inl on ↦
      h (
        propagates_inv p.on_panic
          (supervise_from-recovers p no_restarts (t ∷ ts) v (rw (on) at eq)))
  | inr off ↦ h (propagates_inv p.on_panic (unsupervised p off))
]
