-- ===== src/Batch/Chunks.antt =====
-- ChunkWhile cuts its input into its maximal runs, and ChunkBy is ChunkWhile on equal keys.
use go_kitsune.Prelude.{
  ◌≡◌, refl, sym, ◌∙◌, Bool, List, [], ◌∷◌, ◌++◌, Option, some, append_assoc, get_last?, inl, inr,
  Bool-cases, Option-cases, arith, if◌then◌else◌,
}
use mathlib.Core.Option
use go_kitsune.Keys.{Eq, ◌==◌}
use go_kitsune.Stage.{
  Event, item, closed, signal, signal_closed, ctx_done, drain, items, Action, continue, finish,
  Trace, Room, returned, run, ideal, cut, perform_all,
}
use go_kitsune.Stage.Cut.{run_of_ideal, run-cut}
use go_kitsune.Batch.{
  Chunk, chunk_while_loop, chunk_by_loop, no_chunk, chunk_item, chunk_while_item, new_chunk,
  flush_and_return,
}

module _ {ℓ} {T : Type ℓ} (pred : T → T → Bool) where
  -- The runs of a list from the right: an item joins the run after it if the predicate links them.
  abbrev pub join : T → List (List T) → List (List T)
  join x [] = (x ∷ []) ∷ []
  join x ([] ∷ gs) = (x ∷ []) ∷ gs
  join x ((y ∷ g) ∷ gs) = if pred x y then (x ∷ y ∷ g) ∷ gs else (x ∷ []) ∷ (y ∷ g) ∷ gs

  abbrev pub runs : List T → List (List T)
  runs [] = []
  runs (x ∷ xs) = join x (runs xs)

  -- The items of a buffer go in front of the first run.
  abbrev attach : List T → List (List T) → List (List T)
  attach ys [] = []
  attach ys (g ∷ gs) = (ys ++ g) ∷ gs

  get_last?-snoc : (ys : List T) (x : T) → get_last? (ys ++ x ∷ []) ≡ some x
  get_last?-snoc [] x = refl
  get_last?-snoc (y ∷ []) x = refl
  get_last?-snoc (y ∷ z ∷ ys) x = get_last?-snoc (z ∷ ys) x

  flush_snoc {κ} :
      {S : Type κ} (ys : List T) (x : T) (again : S → _)
      → perform_all (flush_and_return (ys ++ x ∷ [])) again
        ≡ record { out = (ys ++ x ∷ []) ∷ []; ending = returned }
  flush_snoc [] x again = refl
  flush_snoc (y ∷ ys) x again = refl

  chunk_while_item-snoc :
      (ys : List T) (x z : T)
      → chunk_while_item pred (ys ++ x ∷ []) z ≡ (
          if pred x z
          then continue [] ((ys ++ x ∷ []) ++ z ∷ [])
          else continue ((ys ++ x ∷ []) ∷ []) (z ∷ []))
  unfolding chunk_while_item
  chunk_while_item-snoc ys x z = rw (get_last?-snoc ys x, chunk_while_item)

  -- The first run of a list starts with its first item.
  join_head :
      (x : T) (gs : List (List T))
      → (g : List T) × (hs : List (List T)) × (join x gs ≡ (x ∷ g) ∷ hs)
  join_head x [] = ([], [], refl)
  join_head x ([] ∷ gs) = ([], gs, refl)
  join_head x ((y ∷ g) ∷ gs) = elim (Bool-cases (pred x y)) [
    | inl linked ↦ (y ∷ g, gs, rw linked)
    | inr broken ↦ ([], (y ∷ g) ∷ gs, rw broken)
  ]

  attach-snoc :
      (ys : List T) (x z : T) (gs : List (List T))
      → attach ys (join x (join z gs))
        ≡ (if pred x z then attach (ys ++ x ∷ []) (join z gs) else (ys ++ x ∷ []) ∷ join z gs)
  attach-snoc ys x z gs =
      let (g, hs, e) = join_head z gs in
      rw e (elim (Bool-cases (pred x z)) [
        | inl linked ↦ rw (linked, append_assoc)
        | inr broken ↦ rw broken
      ])

  attach_nil : (x : T) (gs : List (List T)) → attach [] (join x gs) ≡ join x gs
  attach_nil x gs = let (g, hs, e) = join_head x gs in rw e

  ideal-chunk_while :
      (ys : List T) (x : T) (xs : List T) (es : List (Event T))
      → ideal (chunk_while_loop pred) (ys ++ x ∷ []) (items xs ++ closed ∷ es)
        ≡ record { out = attach ys (runs (x ∷ xs)); ending = returned }
  unfolding ideal chunk_while_loop
  ideal-chunk_while ys x [] es = flush_snoc ys x _
  ideal-chunk_while ys x (z ∷ xs) es =
      rw (chunk_while_item-snoc ys x z, attach-snoc ys x z (runs xs))
        (elim (Bool-cases (pred x z)) [
          | inl linked ↦ rw (linked, ideal-chunk_while (ys ++ x ∷ []) z xs es)
          | inr broken ↦ rw (broken, ideal-chunk_while [] z xs es, attach_nil z (runs xs))
        ])

  ideal-chunk_while_start :
      (xs : List T) (es : List (Event T))
      → ideal (chunk_while_loop pred) [] (items xs ++ closed ∷ es)
        ≡ record { out = runs xs; ending = returned }
  unfolding ideal chunk_while_loop chunk_while_item
  ideal-chunk_while_start [] es = refl
  ideal-chunk_while_start (x ∷ xs) es = rw (ideal-chunk_while [] x xs es, attach_nil x (runs xs))

  -- ChunkWhile delivers the runs of its input, cut where the predicate refuses two neighbours, and
  -- returns nil; interrupted sends leave a first part of them.
  pub run-chunk_while_loop :
      (r : Room) (xs : List T) (es : List (Event T))
      → run (chunk_while_loop pred) r [] (items xs ++ closed ∷ es)
        ≡ cut (chunk_while_loop pred) r (record { out = runs xs; ending = returned })
  run-chunk_while_loop r xs es =
      run_of_ideal (chunk_while_loop pred) r [] _ (ideal-chunk_while_start xs es)

module _ {ℓ κ} {T : Type ℓ} {K : Type κ} ⦃e : Eq K⦄ (key_fn : T → K) where
  -- Two neighbours are in one chunk if the second has the key of the first.
  abbrev pub same_key : T → T → Bool
  same_key prev x = key_fn x == key_fn prev

  new_chunk_lem :
      (buf : List T) (prev x : T)
      → get_last? buf ≡ some prev
      → new_chunk buf x (key_fn x)
        ≡ continue (buf ∷ []) (record { buf = x ∷ []; cur_key = some (key_fn x) })
  new_chunk_lem [] prev x h = cc
  new_chunk_lem (y ∷ ys) prev x h = refl

  -- The key that ChunkBy remembers is that of the last item in the buffer.
  abbrev key_of_last : List T → Option K
  key_of_last buf = Option.map key_fn (get_last? buf)

  key_of_last-snoc : (buf : List T) (x : T) → key_of_last (buf ++ x ∷ []) ≡ some (key_fn x)
  key_of_last-snoc buf x = rw (get_last?-snoc (same_key) buf x)

  -- The state of ChunkBy that goes with a buffer, and an action on buffers carried over to it.
  abbrev state_at : List T → Chunk T K
  state_at buf = record { buf = buf; cur_key = key_of_last buf }

  abbrev mirror : Action (List T) (List T) → Action (Chunk T K) (List T)
  mirror (continue xs buf) = continue xs (state_at buf)
  mirror (finish xs end) = finish xs end

  chunk_item-mirror :
      (buf : List T) (x : T)
      → chunk_item key_fn (state_at buf) x ≡ mirror (chunk_while_item same_key buf x)
  unfolding chunk_item chunk_while_item
  chunk_item-mirror buf x = elim (Option-cases (get_last? buf)) [
    | inl e ↦ ground (arith, key_of_last-snoc buf x)
    | inr (prev, e) ↦ ground (arith, key_of_last-snoc buf x, new_chunk_lem buf prev x e)
  ]

  perform_mirror :
      (a : Action (List T) (List T)) (again : Chunk T K → Trace (List T))
      (again' : List T → Trace (List T))
      → ((buf : List T) → again (state_at buf) ≡ again' buf)
      → perform_all (mirror a) again ≡ perform_all a again'
  perform_mirror (continue xs buf) again again' h = rw (h buf)
  perform_mirror (finish xs end) again again' h = refl

  ideal-chunk_by :
      (buf : List T) (es : List (Event T))
      → ideal (chunk_by_loop key_fn) (state_at buf) es ≡ ideal (chunk_while_loop same_key) buf es
  unfolding ideal chunk_by_loop chunk_while_loop
  ideal-chunk_by buf [] = refl
  ideal-chunk_by buf (item x ∷ es) = rw (chunk_item-mirror buf x) (
      perform_mirror (chunk_while_item same_key buf x) (λ s'. ideal (chunk_by_loop key_fn) s' es)
        (λ buf'. ideal (chunk_while_loop same_key) buf' es) (λ buf'. ideal-chunk_by buf' es))
  ideal-chunk_by [] (closed ∷ es) = refl
  ideal-chunk_by (y ∷ ys) (closed ∷ es) = refl
  ideal-chunk_by buf (signal ∷ es) = rw (ideal-chunk_by buf es)
  ideal-chunk_by buf (signal_closed ∷ es) = rw (ideal-chunk_by buf es)
  ideal-chunk_by buf (ctx_done ∷ es) = refl
  ideal-chunk_by buf (drain ∷ es) = refl

  -- On every list of events, and wherever its sends are interrupted, ChunkBy does what ChunkWhile
  -- does with the test that two neighbours have one key.
  pub run-chunk_by_loop :
      (r : Room) (es : List (Event T))
      → run (chunk_by_loop key_fn) r no_chunk es ≡ run (chunk_while_loop same_key) r [] es
  unfolding cut chunk_by_loop chunk_while_loop
  run-chunk_by_loop r es =
      run_of_ideal (chunk_by_loop key_fn) r no_chunk es (ideal-chunk_by [] es)
      ∙ sym (run-cut (chunk_while_loop same_key) r [] es)
