-- ===== src/Examples/State.antt =====
-- Runs of Refs, of keyed Refs and of notifications.
use go_kitsune.Prelude.{ℕ, ◌+◌, ◌≡◌, ◌∙◌, refl, List, [], ◌∷◌, ◌++◌, none, some, arith}
use go_kitsune.Errors.{user, Result, ok}
use go_kitsune.Keys.{nat_key, lookup-insert}
use go_kitsune.Process.{Outcome}
use go_kitsune.Values.{AnyStored, bytes, values_get, values_set}
use go_kitsune.Ref.{
  Call, get, set, get_or_set, update_and_get, update, MemoryRef, answers, new_memory_ref, value_of,
  finished,
}
use go_kitsune.Ref.Stored.{Store, Codec, store_call}
use go_kitsune.Ref.Cells.{cell_call, merging_call, merging_answers}
use go_kitsune.Ref.Refines.{store_answers}
use go_kitsune.Keyed.{KeyedRefMap, KeyedConfig, map_with_key_loop}
use go_kitsune.Keyed.Sweeping.{unswept_loop, run-map_with_key_loop}
use go_kitsune.Notification.{materialize, dematerialize_loop}
use go_kitsune.Notification.Roundtrip.{run-dematerialize_loop, end_of_run}
use go_kitsune.Stage.{items, closed, run, cut, at_ctx_done}

-- A set of numbers, for an object whose keys encoding/json adds to those that the target has. The
-- initial set is that of 1.
abbrev one : List ℕ
one = 1 ∷ []

abbrev emptied : List ℕ → Result (List ℕ)
emptied xs = ok []

abbrev add_two : List ℕ → Result (List ℕ)
add_two xs = ok (2 ∷ xs)

abbrev kept : List ℕ → Result (List ℕ)
kept xs = ok xs

abbrev some_calls : List (Call (List ℕ))
some_calls =
    get 1
    ∷ get_or_set (ok [])
    ∷ update_and_get 2 add_two
    ∷ set 3 (9 ∷ [])
    ∷ update 4 add_two
    ∷ get 5
    ∷ []

-- memoryStore as the Store.
abbrev memory_store : Store (List (ℕ × AnyStored (List ℕ) (List ℕ))) ℕ (List ℕ)
memory_store = record {
  get_bytes = λ s k. values_get ok s k;
  set_bytes = λ s k b. (values_set s k b, none);
}

abbrev union_codec : Codec (List ℕ) (List ℕ)
union_codec = record { marshal = ok; unmarshal = λ target b. (target ++ b, ok (target ++ b)) }

abbrev overwriting_codec : Codec (List ℕ) (List ℕ)
overwriting_codec = record { marshal = ok; unmarshal = λ target b. (target, ok b) }

memory_store-keeps :
    (s : List (ℕ × AnyStored (List ℕ) (List ℕ))) (b : List ℕ)
    → ((memory_store.set_bytes s 3 b).1 ≡ none)
      × (memory_store.get_bytes (memory_store.set_bytes s 3 b).0 3 ≡ ok (some b))
unfolding values_get values_set
memory_store-keeps s b = (refl, rw (lookup-insert 3 3 (bytes b) s) refl)

-- In a map the two variables share the keys.
abbrev union : List ℕ → List ℕ → List ℕ
union d v = d ++ v

store_answers_example :
    answers (store_call memory_store union_codec 3 []) ([], one) some_calls
    ≡ answers (merging_call union union) (none, one) some_calls
unfolding values_get
store_answers_example =
    store_answers memory_store union_codec 3 [] (λ v. v) union union (λ v. (refl, refl, λ d. refl))
      memory_store-keeps [] one some_calls refl

-- A codec that overwrites its target makes the Ref a plain cell.
overwritten :
    answers (store_call memory_store overwriting_codec 3 []) ([], one) some_calls
    ≡ answers (cell_call one) none some_calls
unfolding values_get
overwritten =
    store_answers memory_store overwriting_codec 3 [] (λ v. v) (λ d v. v) (λ d v. d)
      (λ v. (refl, refl, λ d. refl)) memory_store-keeps [] one some_calls refl
    ∙ merging_answers (λ d v. d) one some_calls

-- With one that merges, the initial 1 is back in an Update that changes nothing.
revived :
    answers
      (store_call memory_store union_codec 3 [])
      ([], one)
      (update 1 emptied ∷ get 2 ∷ update_and_get 3 kept ∷ [])
    ≡ finished ∷ value_of [] ∷ value_of one ∷ []
unfolding store_call values_get values_set
revived = refl

abbrev short_lived : MemoryRef ℕ
short_lived = new_memory_ref 5 10

-- A count for each entity, which is forgotten after 10.
abbrev counting : KeyedConfig ℕ
counting = record { initial = 0; ttl = 0; key_ttl = 10 }

abbrev count_up : MemoryRef ℕ → ℕ → MemoryRef ℕ × Outcome ℕ
count_up r x = (record r { value = r.value + 1 }, record { result = ok (r.value + 1); attempt = 0 })

abbrev no_refs : KeyedRefMap ℕ ℕ
no_refs = record { refs = λ k. none; next_sweep = 0 }

abbrev visits : List (ℕ × ℕ)
visits = (1, 7) ∷ (2, 8) ∷ (5, 7) ∷ (14, 8) ∷ []

run-map_with_key_loop_example :
    run
      (map_with_key_loop counting 2 (λ x. x) count_up)
      (record { sends = 9; stop = at_ctx_done })
      no_refs
      (items visits ++ closed ∷ [])
    ≡ run
        (unswept_loop counting 2 (λ x. x) count_up)
        (record { sends = 9; stop = at_ctx_done })
        no_refs
        (items visits ++ closed ∷ [])
run-map_with_key_loop_example =
    run-map_with_key_loop counting 2 (λ x. x) count_up (record { sends = 9; stop = at_ctx_done }) 0
      no_refs visits [] (omega arith, (omega arith, (omega arith, (omega arith, tt))))

run-dematerialize_loop_example :
    run
      (dematerialize_loop 2)
      (record { sends = 9; stop = at_ctx_done })
      tt
      (items (materialize {T = ℕ} 0 9 (4 ∷ 5 ∷ []) (some (user 1)) none).sent ++ closed ∷ [])
    ≡ cut
        (dematerialize_loop 2)
        (record { sends = 9; stop = at_ctx_done })
        (record { out = 4 ∷ 5 ∷ []; ending = end_of_run 2 (some (user 1)) })
run-dematerialize_loop_example =
    run-dematerialize_loop 0 2 (record { sends = 9; stop = at_ctx_done }) 9 (4 ∷ 5 ∷ [])
      (some (user 1)) (closed ∷ []) (omega arith)
