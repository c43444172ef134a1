-- ===== src/Sharded/PerKey.antt =====
-- mapWithKeyConcurrent against mapWithKeySerial, one key at a time.
use go_kitsune.Prelude.{
  ℕ, ◌≡◌, refl, sym, ap, ◌∙◌, subst, List, [], ◌∷◌, ◌++◌, map, All, inl, inr, Bool-cases,
  ◌==◌ as nat_eq, ==_iff, if◌then◌else◌, Option, none, some,
}
use go_kitsune.Keys.{Eq, ◌==◌}
use go_kitsune.Errors.{ok}
use go_kitsune.Process.{Outcome}
use go_kitsune.Ref.{MemoryRef}
use go_kitsune.Stage.{closed, items, Action, ideal}
use go_kitsune.Keyed.{KeyedRefMap, KeyedConfig, get_ref, map_with_key_loop}
use go_kitsune.Keyed.Sweeping.{Ascending}
use go_kitsune.Keyed.Isolated.{
  passed, opt, of_key, Ascending-earlier, item_key, keyed_body, outputs-of_key, and_then-keyed_item,
}
use go_kitsune.Sharded.{State, exited, start, Reach}
use go_kitsune.Sharded.Shares.{outs_of, outputs, route, out-ideal}
use go_kitsune.Sharded.Prefix.{shard_prefix, shard_whole}

All-before {ℓ κ} : {A : Type ℓ} (P : A → Type κ) (xs ys : List A) → All P (xs ++ ys) → All P xs
All-before P [] ys h = tt
All-before P (x ∷ xs) ys h = (h.0, All-before P xs ys h.1)

of_key-append :
    {K A : Type 0} ⦃e : Eq K⦄ (key_of : A → K) (k : K) (xs ys : List A)
    → of_key key_of k (xs ++ ys) ≡ of_key key_of k xs ++ of_key key_of k ys
of_key-append key_of k [] ys = refl
of_key-append key_of k (x ∷ xs) ys = elim (Bool-cases (key_of x == k)) [
  | inl y ↦ rw y (ap (λ zs. x ∷ zs) (of_key-append key_of k xs ys))
  | inr n ↦ rw n (of_key-append key_of k xs ys)
]

-- The items of a key are all dispatched to its shard.
of_key-route :
    {K A : Type 0} ⦃e : Eq K⦄ (key_of : A → K) (hash : K → ℕ) (k : K) (xs : List A)
    → of_key key_of k (route (λ x. hash (key_of x)) (hash k) xs) ≡ of_key key_of k xs
of_key-route key_of hash k [] = refl
of_key-route ⦃e⦄ key_of hash k (x ∷ xs) = elim (Bool-cases (nat_eq (hash k) (hash (key_of x)))) [
  | inl y ↦ rw y (ap (λ zs. if key_of x == k then x ∷ zs else zs) (of_key-route key_of hash k xs))
  | inr n ↦ elim (Bool-cases (key_of x == k)) [
    | inl same ↦
        cc (
          n,
          (==_iff (hash k) (hash (key_of x))).1 (ap hash (sym ((e.beq_iff (key_of x) k).0 same))),
        )
    | inr other ↦ rw (n, other) (of_key-route key_of hash k xs)
  ]
]

Ascending-route :
    {I : Type 0} (shard : ℕ × I → ℕ) (i t : ℕ) (xs : List (ℕ × I))
    → Ascending t xs
    → Ascending t (route shard i xs)
Ascending-route shard i t [] h = tt
Ascending-route shard i t ((now, x) ∷ xs) h =
    let later = Ascending-route shard i now xs h.1 in
    elim (Bool-cases (nat_eq i (shard (now, x)))) [
      | inl own ↦ rw own (h.0, later)
      | inr other ↦ rw other (Ascending-earlier t now (route shard i xs) h.0 later)
    ]

All-outs_of :
    {O : Type 0} (P : ℕ → O → Type 0) (l j : ℕ) (v : O) (out : List (ℕ × O))
    → All (P l) (outs_of l ((j, v) ∷ out))
    → All (P l) (outs_of l out)
All-outs_of P l j v out h = elim (Bool-cases (nat_eq l j)) [
  | inl y ↦ (rw y at h).1
  | inr n ↦ rw n at h
]

-- The first of the outputs belongs to its worker.
first_out :
    {O : Type 0} (P : ℕ → O → Type 0) (j : ℕ) (v : O) (out : List (ℕ × O))
    → All (P j) (outs_of j ((j, v) ∷ out))
    → P j v
first_out P j v out h = (rw ((==_iff j j).1 refl) at h).0

-- The values of a key, when every worker sends only values of its own shard.
of_key-out :
    {K O : Type 0} ⦃e : Eq K⦄ (label : O → K) (hash : K → ℕ) (k : K) (out : List (ℕ × O))
    → ((j : ℕ) → All (λ v. hash (label v) ≡ j) (outs_of j out))
    → of_key label k (map (λ o. o.1) out) ≡ of_key label k (outs_of (hash k) out)
of_key-out label hash k [] h = refl
of_key-out ⦃e⦄ label hash k ((j, v) ∷ out) h =
    let ih =
      of_key-out label hash k out (λ l. All-outs_of (λ l v. hash (label v) ≡ l) l j v out (h l)) in
    elim (Bool-cases (nat_eq (hash k) j)) [
      | inl y ↦ rw y (ap (λ zs. if label v == k then v ∷ zs else zs) ih)
      | inr n ↦ elim (Bool-cases (label v == k)) [
        | inl same ↦ cc (
          n,
          (==_iff (hash k) j).1 (
              ap hash (sym ((e.beq_iff (label v) k).0 same))
              ∙ first_out (λ l v. hash (label v) ≡ l) j v out (h j)),
        )
        | inr other ↦ rw (n, other) ih
      ]
    ]

module _ {K S I O : Type 0} ⦃e : Eq K⦄ (c : KeyedConfig S) (name : ℕ) (key_fn : I → K)
    (process : MemoryRef S → I → MemoryRef S × Outcome O) (label : O → K)
    (goes : (r : MemoryRef S) (x : I) → (o : Option O) × ((process r x).1.result ≡ passed o))
    (labelled : (r : MemoryRef S) (x : I) (v : O)
      → (process r x).1.result ≡ ok v
      → label v ≡ key_fn x)
    (hash : K → ℕ) (buffer : ℕ) (m : KeyedRefMap K S) where
  abbrev pub body : KeyedRefMap K S → ℕ × I → Action (KeyedRefMap K S) O
  body = keyed_body c name key_fn process label goes labelled

  abbrev pub shard_of : ℕ × I → ℕ
  shard_of it = hash (key_fn it.1)

  opt-labels :
      (o : Option O) (j : ℕ) (vs : List O)
      → ((v : O) → o ≡ some v → hash (label v) ≡ j)
      → All (λ v. hash (label v) ≡ j) vs
      → All (λ v. hash (label v) ≡ j) (opt o ++ vs)
  opt-labels none j vs h g = g
  opt-labels (some v) j vs h g = (h v refl, g)

  labels-outputs :
      (xs : List (ℕ × I)) (j : ℕ) (p : KeyedRefMap K S)
      → All (λ v. hash (label v) ≡ j) (outputs body p (route shard_of j xs))
  labels-outputs [] j p = tt
  labels-outputs ((now, x) ∷ xs) j p = elim (Bool-cases (nat_eq j (hash (key_fn x)))) [
    | inl y ↦ rw y (
        subst (All (λ v. hash (label v) ≡ j))
          (sym (
            and_then-keyed_item c name key_fn process label goes labelled
              (get_ref c now (key_fn x) p).0 (get_ref c now (key_fn x) p).1 now x
              (λ q. outputs body q (route shard_of j xs))))
          (opt-labels (goes (get_ref c now (key_fn x) p).1 x).0 j _
            (λ v is.
              ap hash (
                labelled (get_ref c now (key_fn x) p).1 x v
                  ((goes (get_ref c now (key_fn x) p).1 x).1 ∙ ap passed is))
              ∙ sym ((==_iff j (hash (key_fn x))).0 y))
            (labels-outputs xs j _)))
    | inr n ↦ rw n (labels-outputs xs j p)
  ]

  labels-sent :
      {s : State (KeyedRefMap K S) (ℕ × I) O} (xs : List (ℕ × I)) (j : ℕ)
      → Reach body shard_of buffer (start (λ i. m) xs) s
      → All (λ v. hash (label v) ≡ j) (outs_of j s.out)
  labels-sent {s} xs j r =
      let (rest, eq) = shard_prefix body shard_of buffer (λ i. m) xs j r in
      All-before (λ v. hash (label v) ≡ j) (outs_of j s.out) rest
        (subst (All (λ v. hash (label v) ≡ j)) (sym eq) (labels-outputs xs j m))

  serial-of_key :
      (k : K) (t : ℕ) (xs : List (ℕ × I))
      → Ascending t xs
      → of_key label k (outputs body m (route shard_of (hash k) xs))
        ≡ of_key label k
            (ideal (map_with_key_loop c name key_fn process) m (items xs ++ closed ∷ [])).out
  unfolding map_with_key_loop
  serial-of_key k t xs asc =
      let of_key-outputs = outputs-of_key c name key_fn process label goes labelled in
      of_key-outputs k t m (route shard_of (hash k) xs) (Ascending-route shard_of (hash k) t xs asc)
      ∙ ap (outputs body m) (of_key-route (item_key key_fn) hash k xs)
      ∙ sym (of_key-outputs k t m xs asc)
      ∙ ap (of_key label k) (sym (out-ideal body m xs []))

  -- What MapWithKey delivers of a key with Concurrency(n), at any moment and in any interleaving, is a
  -- prefix of what the serial stage delivers of that key when every send finds a reader. The workers start with
  -- the same map, items of one key have one shard, no item ends the stage, every value tells its key, and the times of the
  -- items do not go back.
  pub keyed_prefix :
      {s : State (KeyedRefMap K S) (ℕ × I) O} (k : K) (t : ℕ) (xs : List (ℕ × I))
      → Ascending t xs
      → Reach body shard_of buffer (start (λ i. m) xs) s
      → (rest : List O) × (of_key label k (map (λ o. o.1) s.out) ++ rest
          ≡ of_key label k
              (ideal (map_with_key_loop c name key_fn process) m (items xs ++ closed ∷ [])).out)
  keyed_prefix {s} k t xs asc r =
      let (rest, eq) = shard_prefix body shard_of buffer (λ i. m) xs (hash k) r in
      (
        of_key label k rest,
        ap (λ zs. zs ++ of_key label k rest)
              (of_key-out label hash k s.out (λ j. labels-sent xs j r))
            ∙ sym (of_key-append label k (outs_of (hash k) s.out) rest)
            ∙ ap (of_key label k) eq
            ∙ serial-of_key k t xs asc,
      )

  -- For MapWithKey with Concurrency(n), in any interleaving: once the whole input is dispatched and the
  -- worker of a key has exited, the stage has delivered all the values of that key that the serial stage
  -- delivers when every send finds a reader, in its order. The workers start with the same map, items of
  -- one key have one shard, no item ends the stage, every value tells its key, and the times of the
  -- items do not go back.
  pub keyed_whole :
      {s : State (KeyedRefMap K S) (ℕ × I) O} (k : K) (t : ℕ) (xs : List (ℕ × I))
      → Ascending t xs
      → Reach body shard_of buffer (start (λ i. m) xs) s
      → s.input ≡ []
      → (s.workers (hash k)).status ≡ exited
      → of_key label k (map (λ o. o.1) s.out)
        ≡ of_key label k
            (ideal (map_with_key_loop c name key_fn process) m (items xs ++ closed ∷ [])).out
  keyed_whole {s} k t xs asc r none_left over =
      of_key-out label hash k s.out (λ j. labels-sent xs j r)
      ∙ ap (of_key label k) (shard_whole body shard_of buffer (λ i. m) xs (hash k) r none_left over)
      ∙ serial-of_key k t xs asc
