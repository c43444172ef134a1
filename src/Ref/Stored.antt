-- ===== src/Ref/Stored.antt =====
-- The methods of a Ref on an InProcessStore, and on a Store with a codec.
use go_kitsune.Prelude.{List, Option, none, some}
use go_kitsune.Keys.{Eq}
use go_kitsune.Errors.{Error, Result}
use go_kitsune.Values.{AnyStored, typed, bytes, get_any, set_any}
use go_kitsune.Ref.{
  Answer, value_of, finished, failed, panics, Reply, reply, and_then, Call, get, set, get_or_set,
  update_and_get, update,
}

-- The interface Store (internal/hooks.go), over the state W of what is behind it.
pub record Store (W K B : Type 0) : Type 0 where
  pub get_bytes : W → K → Result (Option B)
  pub set_bytes : W → K → B → W × Option Error

-- The interface Codec. Unmarshal decodes into a target, whose old value it may keep in part, as
-- encoding/json does with the keys of a map; and where the target shares a map or an array with
-- another variable, that variable changes too. So it is given the old value of the target, and says
-- what a variable with that value has afterwards, and the new value of the target or an error.
pub record Codec (T B : Type 0) : Type 0 where
  pub marshal : T → Result B
  pub unmarshal : T → B → T × Result T

module _ {S T : Type 0} where
  -- `if v, found := ips.GetAny(r.key); found { … v.(T) … }`
  abbrev pub if_found :
      {B : Type 0} → Option (AnyStored T B) → S → (T → Reply S T) → Reply S T → Reply S T
  if_found none s known absent = absent
  if_found (some (typed v)) s known absent = known v
  if_found (some (bytes b)) s known absent = reply s panics

  -- `if ok { … r.codec.Unmarshal(data, &val) … }`
  abbrev pub if_stored :
      {B : Type 0} → (B → Result T) → Option B → S → (T → Reply S T) → Reply S T → Reply S T
  if_stored unmarshal none s known absent = absent
  if_stored unmarshal (some b) s known absent = and_then (unmarshal b) s known

  -- The answer after store.Set.
  abbrev pub after_set : Answer T → S × Option Error → Reply S T
  after_set a (s, none) = reply s a
  after_set a (s, some e) = reply s (failed e)

module _ {K T B : Type 0} ⦃e : Eq K⦄ (key : K) (initial : T) where
  unfoldable pub ips_call : List (K × AnyStored T B) → Call T → Reply (List (K × AnyStored T B)) T
  unfolding get_any set_any
  ips_call s (get now) =
      if_found (get_any s key) s (λ v. reply s (value_of v)) (reply s (value_of initial))
  ips_call s (set now v) = reply (set_any s key v) finished
  ips_call s (get_or_set made) =
      if_found (get_any s key) s (λ v. reply s (value_of v))
        (and_then made s (λ v. reply (set_any s key v) (value_of v)))
  ips_call s (update_and_get now fn) =
      let put =
        λ (current : T). and_then (fn current) s (λ v. reply (set_any s key v) (value_of v)) in
      if_found (get_any s key) s put (put initial)
  ips_call s (update now fn) =
      let put = λ (current : T). and_then (fn current) s (λ v. reply (set_any s key v) finished) in
      if_found (get_any s key) s put (put initial)

-- The state is what is behind the Store, and `r.value`.
module _ {W K T B : Type 0} (store : Store W K B) (codec : Codec T B) (key : K)
    (zero_value : T) where
  -- `data, ok, err := r.store.Get(ctx, r.key)`, its decoding into `var val T`, and the rest.
  abbrev pub fetch : W × T → (T → Reply (W × T) T) → Reply (W × T) T → Reply (W × T) T
  fetch s known absent =
      and_then (store.get_bytes s.0 key) s
        (λ o. if_stored (λ b. (codec.unmarshal zero_value b).1) o s known absent)

  -- `if ok { if err := r.codec.Unmarshal(data, &current); … }` with `current := r.value`.
  abbrev pub decoded : W → T × Result T → (W × T → T → Reply (W × T) T) → Reply (W × T) T
  decoded w (value, current) change =
      and_then current (w, value) (λ current. change (w, value) current)

  abbrev pub decode_current : Option B → W × T → (W × T → T → Reply (W × T) T) → Reply (W × T) T
  decode_current none s change = change s s.1
  decode_current (some b) s change = decoded s.0 (codec.unmarshal s.1 b) change

  abbrev pub fetch_current : W × T → (W × T → T → Reply (W × T) T) → Reply (W × T) T
  fetch_current s change = and_then (store.get_bytes s.0 key) s (λ o. decode_current o s change)

  -- `data, err := r.codec.Marshal(v)` and `r.store.Set(ctx, r.key, data)`.
  abbrev pub put : W × T → Answer T → T → Reply (W × T) T
  put s a v =
      and_then (codec.marshal v) s
        (λ b. let (w, x) = store.set_bytes s.0 key b in after_set a ((w, s.1), x))

  -- storeGet, storeSet, storeGetOrSet, storeUpdateAndGet and storeUpdate.
  unfoldable pub store_call : W × T → Call T → Reply (W × T) T
  store_call s (get now) = fetch s (λ v. reply s (value_of v)) (reply s (value_of s.1))
  store_call s (set now v) = put s finished v
  store_call s (get_or_set made) =
      fetch s (λ v. reply s (value_of v)) (and_then made s (λ v. put s (value_of v) v))
  store_call s (update_and_get now fn) =
      fetch_current s (λ s current. and_then (fn current) s (λ v. put s (value_of v) v))
  store_call s (update now fn) =
      fetch_current s (λ s current. and_then (fn current) s (λ v. put s finished v))
