-- ===== src/Dedup/Stages.antt =====
-- aggregate.go: DistinctBy, and the stages that DedupeBy chooses from: an external set, a set that
-- lasts, the last key, and a window of keys. A map[K]struct{} is the list of its keys.
pub mod Windows
use go_kitsune.Prelude.{
  ℕ, ◌+◌, Bool, true, false, List, [], ◌∷◌, ◌++◌, length, drop, leb, Option, none, some,
  if◌then◌else◌,
}
use go_kitsune.Errors.{Result, ok, err}
use go_kitsune.Keys.{member, Eq, ◌==◌}
use go_kitsune.Stage.{Action, continue, finish, failed, Loop}
use go_kitsune.Transform.{per_item, return_nil}

-- A DedupSet: Contains and Add on its state.
pub record DedupSet {ℓ κ} (S : Type ℓ) (K : Type κ) : Type (ℓ ⊔ κ) where
  pub contains : S → K → Result (Bool × S)
  pub add : S → K → Result S

abbrev after_add {ℓ μ} : {T : Type ℓ} {S : Type μ} → T → Result S → Action S T
after_add x (ok s) = continue (x ∷ []) s
after_add x (err e) = finish [] (failed e)

module _ {ℓ κ μ} {T : Type ℓ} {K : Type κ} {S : Type μ} where
  abbrev after_contains : DedupSet S K → K → T → Result (Bool × S) → Action S T
  after_contains set k x (ok (true, s)) = continue [] s
  after_contains set k x (ok (false, s)) = after_add x (set.add s k)
  after_contains set k x (err e) = finish [] (failed e)

  -- DedupeBy with an external set; `text` is `fmt.Sprintf("%v", keyFn(item))`.
  unfoldable pub external_loop : DedupSet S K → (T → K) → Loop S T T
  external_loop set text =
      per_item (λ s x. after_contains set (text x) x (set.contains s (text x))) return_nil

module _ {κ} {K : Type κ} ⦃e : Eq K⦄ where
  abbrev pub is_last : Option K → K → Bool
  is_last none k = false
  is_last (some j) k = j == k

-- The window after a key that it does not hold: `window[1:]` when it is full, then the key.
abbrev pub slide {κ} : {K : Type κ} → ℕ → List K → K → List K
slide n window k = if leb n (length window) then drop 1 window ++ k ∷ [] else window ++ k ∷ []

module _ {ℓ κ} {T : Type ℓ} {K : Type κ} ⦃e : Eq K⦄ where
  -- DistinctBy, and DedupeBy with dedupeWindow == 0: the state is `seen`.
  unfoldable pub distinct_by_loop : (T → K) → Loop (List K) T T
  distinct_by_loop key_of =
      per_item
        (λ seen x.
          if member (key_of x) seen then continue [] seen else continue (x ∷ []) (key_of x ∷ seen))
        return_nil

  -- dedupeWindow == 1: `first` and `lastKey` are an option, `none` as long as `first` is true.
  unfoldable pub consecutive_loop : (T → K) → Loop (Option K) T T
  consecutive_loop key_of =
      per_item
        (λ last x.
          if is_last last (key_of x) then continue [] last else continue (x ∷ []) (some (key_of x)))
        return_nil

  -- The other windows: the state is `window`, oldest key first.
  unfoldable pub window_loop : ℕ → (T → K) → Loop (List K) T T
  window_loop n key_of =
      per_item
        (λ window x.
          if member (key_of x) window
          then continue [] window
          else continue (x ∷ []) (slide n window (key_of x)))
        return_nil
