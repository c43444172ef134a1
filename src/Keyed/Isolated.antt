-- ===== src/Keyed/Isolated.antt =====
-- The keys of MapWithKey do not see one another.
use go_kitsune.Prelude.{
  ℕ, ◌≤◌, ◌≡◌, refl, sym, ap, ◌∙◌, subst, Bool, true, false, List, [], ◌∷◌, ◌++◌, Option, none,
  some, inl, inr, Bool-cases, if◌then◌else◌, arith,
}
use go_kitsune.Keys.{Eq, ◌==◌}
use go_kitsune.Errors.{skipped, Result, ok, err}
use go_kitsune.Process.{Outcome}
use go_kitsune.Ref.{MemoryRef}
use go_kitsune.Stage.{Event, closed, items, Action, ideal}
use go_kitsune.Sharded.Shares.{outputs, and_then, out-ideal}
use go_kitsune.Keyed.{
  KeyedRefMap, KeyedConfig, kept_or_new, put_ref, get_ref, keyed_item, keyed_result,
  map_with_key_loop,
}
use go_kitsune.Keyed.Sweeping.{
  unswept_get_ref, unswept_loop, ideal-unswept, cleared_other, Ascending,
}

-- A result that does not end the stage: a value, or a skipped item.
abbrev pub passed : {O : Type 0} → Option O → Result O
passed none = err skipped
passed (some v) = ok v

beq_flip : {K : Type 0} ⦃e : Eq K⦄ (a b : K) (t : Bool) → (a == b) ≡ t → (b == a) ≡ t
beq_flip ⦃e⦄ a b true h = (e.beq_iff b a).1 (sym ((e.beq_iff a b).0 h))
beq_flip ⦃e⦄ a b false h = ground (arith, h, e.beq_iff a b, e.beq_iff b a)

abbrev pub opt : {O : Type 0} → Option O → List O
opt none = []
opt (some v) = v ∷ []

module _ {K A : Type 0} ⦃e : Eq K⦄ (key_of : A → K) where
  -- The elements with a key.
  abbrev pub of_key : K → List A → List A
  of_key k [] = []
  of_key k (x ∷ xs) = if key_of x == k then x ∷ of_key k xs else of_key k xs

  of_key-opt :
      (o : Option A) (b : Bool) (k : K) (ys : List A)
      → ((v : A) → o ≡ some v → (key_of v == k) ≡ b)
      → of_key k (opt o ++ ys) ≡ (if b then opt o else []) ++ of_key k ys
  of_key-opt none true k ys h = refl
  of_key-opt none false k ys h = refl
  of_key-opt (some v) true k ys h = rw (h v refl) refl
  of_key-opt (some v) false k ys h = rw (h v refl) refl

abbrev pub item_key : {K I : Type 0} → (I → K) → ℕ × I → K
item_key key_fn it = key_fn it.1

-- Leaving items out keeps the times in order.
pub Ascending-earlier :
    {I : Type 0} (t u : ℕ) (xs : List (ℕ × I)) → t ≤ u → Ascending u xs → Ascending t xs
Ascending-earlier t u [] le h = tt
Ascending-earlier t u ((now, x) ∷ xs) le h = (omega arith, h.1)

Ascending-of_key :
    {K I : Type 0} ⦃e : Eq K⦄ (key_of : ℕ × I → K) (k : K) (t : ℕ) (xs : List (ℕ × I))
    → Ascending t xs
    → Ascending t (of_key key_of k xs)
Ascending-of_key key_of k t [] h = tt
Ascending-of_key key_of k t ((now, x) ∷ xs) h =
    let later = Ascending-of_key key_of k now xs h.1 in
    elim (Bool-cases (key_of (now, x) == k)) [
      | inl own ↦ rw own (h.0, later)
      | inr other ↦ rw other (Ascending-earlier t now (of_key key_of k xs) h.0 later)
    ]

module _ {K S I O : Type 0} ⦃e : Eq K⦄ (c : KeyedConfig S) (name : ℕ) (key_fn : I → K)
    (process : MemoryRef S → I → MemoryRef S × Outcome O) (label : O → K)
    (goes : (r : MemoryRef S) (x : I) → (o : Option O) × ((process r x).1.result ≡ passed o))
    (labelled : (r : MemoryRef S) (x : I) (v : O)
      → (process r x).1.result ≡ ok v
      → label v ≡ key_fn x) where
  abbrev unswept_body : KeyedRefMap K S → ℕ × I → Action (KeyedRefMap K S) O
  unswept_body m it =
      keyed_item c name key_fn process (unswept_get_ref c it.0 (key_fn it.1) m) it.0 it.1

  and_then-passed :
      (attempt : ℕ) (o : Option O) (m : KeyedRefMap K S) (rest : KeyedRefMap K S → List O)
      → and_then (keyed_result c name key_fn process attempt (passed o) m) rest ≡ opt o ++ rest m
  and_then-passed attempt none m rest = refl
  and_then-passed attempt (some v) m rest = refl

  pub and_then-keyed_item :
      (m : KeyedRefMap K S) (r : MemoryRef S) (now : ℕ) (x : I) (rest : KeyedRefMap K S → List O)
      → and_then (keyed_item c name key_fn process (m, r) now x) rest
        ≡ opt (goes r x).0 ++ rest (put_ref now (key_fn x) (process r x).0 m)
  and_then-keyed_item m r now x rest =
      ap
        (λ res.
          and_then
            (keyed_result c name key_fn process (process r x).1.attempt res
              (put_ref now (key_fn x) (process r x).0 m))
            rest)
        (goes r x).1
      ∙ and_then-passed (process r x).1.attempt (goes r x).0 _ rest

  of_key-sent :
      (r : MemoryRef S) (x : I) (b : Bool) (k : K) (ys : List O)
      → (key_fn x == k) ≡ b
      → of_key label k (opt (goes r x).0 ++ ys)
        ≡ (if b then opt (goes r x).0 else []) ++ of_key label k ys
  of_key-sent r x b k ys own =
      of_key-opt label (goes r x).0 b k ys
        (λ v h. ap (λ j. j == k) (labelled r x v ((goes r x).1 ∙ ap passed h)) ∙ own)

  -- An item of the key, with the same Ref from both maps.
  own_item :
      (k : K) (now : ℕ) (x : I) (m p : KeyedRefMap K S) (r s : MemoryRef S)
      (f g : KeyedRefMap K S → List O)
      → r ≡ s
      → (key_fn x == k) ≡ true
      → ((m p : KeyedRefMap K S) → m.refs k ≡ p.refs k → of_key label k (f m) ≡ g p)
      → of_key label k (and_then (keyed_item c name key_fn process (m, r) now x) f)
        ≡ and_then (keyed_item c name key_fn process (p, s) now x) g
  unfolding put_ref
  own_item k now x m p r s f g same own ih =
      let m2 = put_ref now (key_fn x) (process r x).0 m in
      let p2 = put_ref now (key_fn x) (process r x).0 p in
      subst
        (λ s.
          of_key label k (and_then (keyed_item c name key_fn process (m, r) now x) f)
          ≡ and_then (keyed_item c name key_fn process (p, s) now x) g)
        same
        (ap (of_key label k) (and_then-keyed_item m r now x f)
          ∙ of_key-sent r x true k (f m2) own
          ∙ ap (λ ys. opt (goes r x).0 ++ ys) (ih m2 p2 (rw (beq_flip (key_fn x) k true own) refl))
          ∙ sym (and_then-keyed_item p r now x g))

  -- An item of another key.
  other_item :
      (k : K) (now : ℕ) (x : I) (m : KeyedRefMap K S) (r : MemoryRef S)
      (f : KeyedRefMap K S → List O)
      → (key_fn x == k) ≡ false
      → of_key label k (and_then (keyed_item c name key_fn process (m, r) now x) f)
        ≡ of_key label k (f (put_ref now (key_fn x) (process r x).0 m))
  other_item k now x m r f other =
      ap (of_key label k) (and_then-keyed_item m r now x f) ∙ of_key-sent r x false k _ other

  other_entry :
      (k : K) (now : ℕ) (x : I) (r : MemoryRef S) (m : KeyedRefMap K S)
      → (key_fn x == k) ≡ false
      → (put_ref now (key_fn x) r (unswept_get_ref c now (key_fn x) m).0).refs k ≡ m.refs k
  unfolding put_ref
  other_entry k now x r m other = rw (beq_flip (key_fn x) k false other) (
      cleared_other c now (key_fn x) k (m.refs (key_fn x)) m.refs
        (beq_flip (key_fn x) k false other))

  outputs-isolated :
      (k : K) (m p : KeyedRefMap K S) (xs : List (ℕ × I))
      → m.refs k ≡ p.refs k
      → of_key label k (outputs unswept_body m xs)
        ≡ outputs unswept_body p (of_key (item_key key_fn) k xs)
  outputs-isolated k m p [] same = refl
  outputs-isolated k m p ((now, x) ∷ xs) same = elim (Bool-cases (key_fn x == k)) [
    | inl own ↦
        rw
          (ap
            (λ (b : Bool).
              if b then (now, x) ∷ of_key (item_key key_fn) k xs else of_key (item_key key_fn) k xs)
            own)
          (own_item k now x _ _ _ _ (λ m. outputs unswept_body m xs)
            (λ p. outputs unswept_body p (of_key (item_key key_fn) k xs))
            (subst (λ j. kept_or_new c now (m.refs j) ≡ kept_or_new c now (p.refs j))
              (sym ((e.beq_iff (key_fn x) k).0 own)) (ap (kept_or_new c now) same))
            own (λ m p h. outputs-isolated k m p xs h))
    | inr other ↦ rw other (
        other_item k now x _ _ (λ m. outputs unswept_body m xs) other
        ∙ outputs-isolated k _ p xs (other_entry k now x _ m other ∙ same))
  ]

  -- The body of the stage's loop.
  abbrev pub keyed_body : KeyedRefMap K S → ℕ × I → Action (KeyedRefMap K S) O
  keyed_body m it = keyed_item c name key_fn process (get_ref c it.0 (key_fn it.1) m) it.0 it.1

  outputs-unswept :
      (t : ℕ) (m : KeyedRefMap K S) (xs : List (ℕ × I))
      → Ascending t xs
      → outputs keyed_body m xs ≡ outputs unswept_body m xs
  unfolding map_with_key_loop unswept_loop
  outputs-unswept t m xs asc =
      sym (out-ideal keyed_body m xs [])
      ∙ ap (λ tr. tr.out) (ideal-unswept c name key_fn process t m m xs [] asc (λ k. inl refl))
      ∙ out-ideal unswept_body m xs []

  -- The values of a key are those that the stage sends when it is given the items of that key alone.
  pub outputs-of_key :
      (k : K) (t : ℕ) (m : KeyedRefMap K S) (xs : List (ℕ × I))
      → Ascending t xs
      → of_key label k (outputs keyed_body m xs)
        ≡ outputs keyed_body m (of_key (item_key key_fn) k xs)
  outputs-of_key k t m xs asc =
      ap (of_key label k) (outputs-unswept t m xs asc)
      ∙ outputs-isolated k m m xs refl
      ∙ sym (
          outputs-unswept t m (of_key (item_key key_fn) k xs)
            (Ascending-of_key (item_key key_fn) k t xs asc))

  -- The keys of a serial MapWithKey do not see one another: what the stage sends of one key, when every
  -- send finds a reader, is what it sends when its input has the items of that key alone. No item
  -- ends the stage, every value tells its key, and the clock does not go back.
  pub map_with_key_loop-of_key :
      (k : K) (t : ℕ) (m : KeyedRefMap K S) (xs : List (ℕ × I)) (es : List (Event (ℕ × I)))
      → Ascending t xs
      → of_key label k
          (ideal (map_with_key_loop c name key_fn process) m (items xs ++ closed ∷ es)).out
        ≡ (ideal
            (map_with_key_loop c name key_fn process)
            m
            (items (of_key (item_key key_fn) k xs) ++ closed ∷ es)).out
  unfolding map_with_key_loop
  map_with_key_loop-of_key k t m xs es asc =
      ap (of_key label k) (out-ideal keyed_body m xs es)
      ∙ outputs-of_key k t m xs asc
      ∙ sym (out-ideal keyed_body m (of_key (item_key key_fn) k xs) es)
