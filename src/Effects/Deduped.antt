-- ===== src/Effects/Deduped.antt =====
-- Effect sends one outcome per item, and runs its function once per key.
use go_kitsune.Prelude.{
  ◌||◌, ℕ, suc, ◌≡◌, refl, ap, Bool, true, false, ◌&&◌, not, List, [], ◌∷◌, ◌++◌, map, Option, none,
  some, inl, inr, Bool-cases,
}
use go_kitsune.Keys.{Eq, ◌==◌}
use go_kitsune.Errors.{Result, ok, err}
use go_kitsune.Stage.{
  Event, item, closed, signal, signal_closed, ctx_done, drain, items, Room, returned, run, ideal,
  cut, after,
}
use go_kitsune.Stage.Cut.{run_of_ideal}
use go_kitsune.Effects.{
  EffectOutcome, IdempotencyStore, memory_add, answered, with_key, effect_item, effect_loop,
}

-- The items that come before a stage without a second channel returns.
abbrev pub before_return : {I : Type 0} → List (Event I) → List I
before_return [] = []
before_return (item x ∷ es) = x ∷ before_return es
before_return (closed ∷ es) = []
before_return (signal ∷ es) = before_return es
before_return (signal_closed ∷ es) = before_return es
before_return (ctx_done ∷ es) = []
before_return (drain ∷ es) = []

module _ {I R K St : Type 0} (zero_value : R) (dry_run : Bool)
    (dedup : Option (IdempotencyStore K St)) (key_fn : I → Option K)
    (attempted : I → EffectOutcome I R) (own : (x : I) → (attempted x).input ≡ x) where
  abbrev pub outcomes : St → List I → List (EffectOutcome I R)
  outcomes s [] = []
  outcomes s (x ∷ xs) =
      let (o, t) = effect_item zero_value dry_run dedup key_fn attempted x s in o ∷ outcomes t xs

  ideal-effect_loop :
      (s : St) (xs : List I) (es : List (Event I))
      → ideal (effect_loop zero_value dry_run dedup key_fn attempted) s (items xs ++ closed ∷ es)
        ≡ record { out = outcomes s xs; ending = returned }
  unfolding ideal effect_loop
  ideal-effect_loop s [] es = refl
  ideal-effect_loop s (x ∷ xs) es =
      let (o, t) = effect_item zero_value dry_run dedup key_fn attempted x s in
      ap (after (o ∷ [])) (ideal-effect_loop t xs es)

  input-answered :
      (x : I) (a : St × Result Bool)
      → (answered zero_value dry_run dedup key_fn attempted x a).0.input ≡ x
  input-answered x (s, ok true) = own x
  input-answered x (s, ok false) = refl
  input-answered x (s, err e) = refl

  input-with_key :
      (d : Option (IdempotencyStore K St)) (k : Option K) (x : I) (s : St)
      → (with_key zero_value dry_run dedup key_fn attempted d k x s).0.input ≡ x
  input-with_key none k x s = own x
  input-with_key (some add) none x s = own x
  input-with_key (some add) (some k) x s = input-answered x (add k s)

  input-effect_item :
      (x : I) (s : St) → (effect_item zero_value dry_run dedup key_fn attempted x s).0.input ≡ x
  input-effect_item x s = elim (Bool-cases dry_run) [
    | inl y ↦ rw y refl
    | inr n ↦ rw n (input-with_key dedup (key_fn x) x s)
  ]

  input-outcomes : (s : St) (xs : List I) → map (λ o. o.input) (outcomes s xs) ≡ xs
  input-outcomes s [] = refl
  input-outcomes s (x ∷ xs) =
      let (o, t) = effect_item zero_value dry_run dedup key_fn attempted x s in
      rw (input-effect_item x s, input-outcomes t xs) refl

  -- Effect returns nil at the close of its input and sends, in order, one outcome for each item, which carries that item, whatever fn, the
  -- store and the keys do, in a dry run too, up to where its sends are interrupted.
  pub run-effect_loop :
      (r : Room) (s : St) (xs : List I) (es : List (Event I))
      → (run (effect_loop zero_value dry_run dedup key_fn attempted) r s (items xs ++ closed ∷ es)
          ≡ cut
              (effect_loop zero_value dry_run dedup key_fn attempted)
              r
              (record { out = outcomes s xs; ending = returned }))
        × (map (λ o. o.input) (outcomes s xs) ≡ xs)
  run-effect_loop r s xs es = (
    run_of_ideal (effect_loop zero_value dry_run dedup key_fn attempted) r s _
        (ideal-effect_loop s xs es),
    input-outcomes s xs,
  )

module _ {I R K : Type 0} ⦃e : Eq K⦄ (zero_value : R) (key_fn : I → Option K)
    (attempted : I → EffectOutcome I R) (own : (x : I) → (attempted x).input ≡ x)
    (tried : (x : I) → (attempted x).deduped ≡ false) where
  abbrev pub is_key : K → Option K → Bool
  is_key k none = false
  is_key k (some j) = k == j

  abbrev pub add_if : Bool → ℕ → ℕ
  add_if true n = suc n
  add_if false n = n

  -- How many outcomes of a key come of runEffectAttempts.
  abbrev pub tries : K → List (EffectOutcome I R) → ℕ
  tries k [] = 0
  tries k (o ∷ os) = add_if (is_key k (key_fn o.input) && not o.deduped) (tries k os)

  abbrev pub has_key : K → List I → Bool
  has_key k [] = false
  has_key k (x ∷ xs) = is_key k (key_fn x) || has_key k xs

  abbrev deduped_outcomes : List K → List I → List (EffectOutcome I R)
  deduped_outcomes = outcomes zero_value false (some memory_add) key_fn attempted own
