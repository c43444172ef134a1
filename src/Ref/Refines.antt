-- ===== src/Ref/Refines.antt =====
-- A Ref on a Store behaves as a cell with a default.
use go_kitsune.Prelude.{subst, sym, ◌≡◌, refl, ap, List, Option, none, some}
use go_kitsune.Errors.{Error, Result, ok}
use go_kitsune.Ref.{
  Answer, value_of, finished, reply, and_then, Call, get, set, get_or_set, update_and_get, update,
  answers,
}
use go_kitsune.Ref.Stored.{Store, Codec, store_call, fetch_current, decoded, put, after_set}
use go_kitsune.Ref.Cells.{
  answers-simulation, Alike, and_then-Alike, start_from, touched, merging_call,
}

module _ {W K T B : Type 0} (store : Store W K B) (codec : Codec T B) (key : K) (zero_value : T)
    (encode : T → B) (merge touch : T → T → T)
    (encodes : (v : T)
      → (codec.marshal v ≡ ok (encode v))
        × ((codec.unmarshal zero_value (encode v)).1 ≡ ok v)
        × ((d : T) → codec.unmarshal d (encode v) ≡ (touch d v, ok (merge d v))))
    (keeps : (w : W) (b : B)
      → ((store.set_bytes w key b).1 ≡ none)
        × (store.get_bytes (store.set_bytes w key b).0 key ≡ ok (some b))) where
  abbrev encoded : Option T → Option B
  encoded none = none
  encoded (some v) = some (encode v)

  abbrev Stores : W × T → Option T × T → Type 0
  Stores s t = (store.get_bytes s.0 key ≡ ok (encoded t.0)) × (s.1 ≡ t.1)

  put-Alike :
      (s : W × T) (a : Answer T) (v d : T)
      → s.1 ≡ d
      → Alike Stores (put store codec key zero_value s a v) (reply (some v, d) a)
  put-Alike (w, value) a v d same =
      rw (encodes v).0 (after_set-Alike (store.set_bytes w key (encode v)) (keeps w (encode v)))
    where
      after_set-Alike :
          (s : W × Option Error)
          → (s.1 ≡ none) × (store.get_bytes s.0 key ≡ ok (some (encode v)))
          → Alike Stores (after_set a ((s.0, value), s.1)) (reply (some v, d) a)
      after_set-Alike (w2, none) h = ((h.1, same), refl)
      after_set-Alike (w2, some e) h = absurd (cc h.0)

  -- Update and UpdateAndGet, on a Ref and a cell with the same default.
  change-Alike :
      (fn : T → Result T) (answer : T → Answer T) (w : W) (c : Option T) (d : T)
      → store.get_bytes w key ≡ ok (encoded c)
      → Alike Stores
          (fetch_current store codec key zero_value
            (w, d)
            (λ s current.
              and_then (fn current) s (λ v. put store codec key zero_value s (answer v) v)))
          (and_then
            (fn (start_from merge touch (c, d)))
            (touched merge touch (c, d))
            (λ v. reply (some v, (touched merge touch (c, d)).1) (answer v)))
  change-Alike fn answer w none d h = rw h (
      and_then-Alike Stores (fn d) (w, d) (none, d) _ _ (h, refl)
        (λ v. put-Alike (w, d) (answer v) v d refl))
  change-Alike fn answer w (some u) d h =
      let change = λ (s : W × T) (current : T).
        and_then (fn current) s (λ v. put store codec key zero_value s (answer v) v) in
      rw h (
        subst
          (λ p. Alike Stores (decoded store codec key zero_value w p change) (
            and_then (fn (merge d u)) (some u, touch d u)
              (λ v. reply (some v, touch d u) (answer v))))
          (sym ((encodes u).2 d))
          (and_then-Alike Stores (fn (merge d u)) (w, touch d u) (some u, touch d u) _ _ (h, refl)
            (λ v. put-Alike (w, touch d u) (answer v) v (touch d u) refl)))

  store_call-merging_call :
      (s : W × T) (t : Option T × T) (x : Call T)
      → Stores s t
      → Alike Stores (store_call store codec key zero_value s x) (merging_call merge touch t x)
  unfolding store_call
  store_call-merging_call s (none, d) (get now) (h, same) = rw h ((h, same), ap value_of same)
  store_call-merging_call s (some v, d) (get now) (h, same) =
      rw (h, (encodes v).1) ((h, same), refl)
  store_call-merging_call s (c, d) (set now v) (h, same) = put-Alike s finished v d same
  store_call-merging_call s (none, d) (get_or_set made) (h, same) = rw h (
      and_then-Alike Stores made s (none, d) _ _ (h, same) (λ v. put-Alike s (value_of v) v d same))
  store_call-merging_call s (some v, d) (get_or_set made) (h, same) =
      rw (h, (encodes v).1) ((h, same), refl)
  store_call-merging_call (w, value) (c, d) (update_and_get now fn) (h, same) =
      subst
        (λ d.
          Alike Stores (store_call store codec key zero_value (w, value) (update_and_get now fn))
            (merging_call merge touch (c, d) (update_and_get now fn)))
        same (change-Alike fn value_of w c value h)
  store_call-merging_call (w, value) (c, d) (update now fn) (h, same) =
      subst
        (λ d.
          Alike Stores (store_call store codec key zero_value (w, value) (update now fn))
            (merging_call merge touch (c, d) (update now fn)))
        same (change-Alike fn (λ v. finished) w c value h)

  -- A Ref on a Store whose Set does not fail and whose Get gives what was set, with a codec that decodes
  -- what it encodes into a zero value. Let `merge d v` be what it makes of an encoded v and a target d,
  -- and `touch d v` what a variable that shares d has then. The Ref answers any calls the way a cell
  -- does whose default is the initial value, as long as its key has no entry at first: Get and GetOrSet
  -- see the content, or the default when it is empty, but Update and UpdateAndGet start from `merge d v`
  -- where the default is d and the content v, and leave the default `touch d v`.
  pub store_answers :
      (w : W) (initial : T) (cs : List (Call T))
      → store.get_bytes w key ≡ ok none
      → answers (store_call store codec key zero_value) (w, initial) cs
        ≡ answers (merging_call merge touch) (none, initial) cs
  store_answers w initial cs h =
      answers-simulation (store_call store codec key zero_value) (merging_call merge touch) Stores
        store_call-merging_call (w, initial) (none, initial) cs (h, refl)
