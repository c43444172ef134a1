-- ===== src/Values.antt =====
-- internal/hooks.go: memoryStore, the Store that MemoryStore returns, which is also an InProcessStore.
--
-- A value of the map is an `any`: a value written by SetAny, or the []byte of a Set. json.Marshal is
-- given as a function. The mutex makes each method one step.
use go_kitsune.Prelude.{List, Option, none, some}
use go_kitsune.Keys.{Eq, lookup, insert, delete}
use go_kitsune.Errors.{Result, ok, err}

pub data AnyStored (T B : Type 0) : Type 0 where
  typed : T → AnyStored T B
  bytes : B → AnyStored T B

abbrev found : {B : Type 0} → Result B → Result (Option B)
found (ok b) = ok (some b)
found (err x) = err x

abbrev pub read_bytes : {T B : Type 0} → (T → Result B) → Option (AnyStored T B) → Result (Option B)
read_bytes json_marshal none = ok none
read_bytes json_marshal (some (bytes b)) = ok (some b)
read_bytes json_marshal (some (typed v)) = found (json_marshal v)

module _ {K T B : Type 0} ⦃e : Eq K⦄ where
  -- memoryStore.Get, Set and Delete
  unfoldable pub values_get : (T → Result B) → List (K × AnyStored T B) → K → Result (Option B)
  values_get json_marshal s key = read_bytes json_marshal (lookup key s)

  unfoldable pub values_set : List (K × AnyStored T B) → K → B → List (K × AnyStored T B)
  unfolding insert
  values_set s key value = insert key (bytes value) s

  unfoldable pub values_delete : List (K × AnyStored T B) → K → List (K × AnyStored T B)
  unfolding delete
  values_delete s key = delete key s

  -- GetAny, SetAny and DeleteAny
  unfoldable pub get_any : List (K × AnyStored T B) → K → Option (AnyStored T B)
  get_any s key = lookup key s

  unfoldable pub set_any : List (K × AnyStored T B) → K → T → List (K × AnyStored T B)
  unfolding insert
  set_any s key value = insert key (typed value) s

  unfoldable pub delete_any : List (K × AnyStored T B) → K → List (K × AnyStored T B)
  unfolding delete
  delete_any s key = delete key s
