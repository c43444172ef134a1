-- ===== src/Outbox/Alone.antt =====
-- What the dropping outboxes keep when no reader takes anything.
use go_kitsune.Prelude.{
  dec_lt, ℕ, zero, suc, ◌+◌, ◌-◌, ◌≤◌, ◌<◌, ◌≡◌, refl, List, [], ◌∷◌, ◌++◌, length, length-append,
  take, drop, arith, list_laws, append_assoc,
}
use go_kitsune.Outbox.{Wire, drop_newest_send, drop_oldest_send, send_each, empty_wire, step_of}

module _ {ℓ} {T : Type ℓ} where
  abbrev pub made : ℕ → List T → List T → List T → Wire T
  made cap buf taken gone = record { cap = cap; buf = buf; taken = taken; dropped = gone }

  newest_full :
      (cap : ℕ) (buf taken gone : List T) (x : T)
      → length buf ≡ cap
      → drop_newest_send (made cap buf taken gone) x ≡ made cap buf taken (gone ++ x ∷ [])
  unfolding drop_newest_send
  newest_full cap buf taken gone x h = ground arith

  newest_room :
      (cap : ℕ) (buf taken gone : List T) (x : T)
      → length buf < cap
      → drop_newest_send (made cap buf taken gone) x ≡ made cap (buf ++ x ∷ []) taken gone
  unfolding drop_newest_send
  newest_room cap buf taken gone x h = ground arith

  send_each-newest :
      (cap k : ℕ) (buf taken gone xs : List T)
      → length buf + k ≡ cap
      → send_each drop_newest_send (made cap buf taken gone) xs
        ≡ made cap (buf ++ take k xs) taken (gone ++ drop k xs)
  send_each-newest cap zero buf taken gone [] h = simp list_laws refl
  send_each-newest cap (suc k) buf taken gone [] h = simp list_laws refl
  send_each-newest cap zero buf taken gone (x ∷ xs) h =
      rw
        (
          newest_full cap buf taken gone x (omega arith),
          send_each-newest cap zero buf taken (gone ++ x ∷ []) xs h,
          append_assoc gone (x ∷ []) xs,
        )
        refl
  send_each-newest cap (suc k) buf taken gone (x ∷ xs) h =
      rw
        (
          newest_room cap buf taken gone x (omega arith),
          send_each-newest cap k (buf ++ x ∷ []) taken gone xs
              (rw (length-append buf (x ∷ [])) (omega arith)),
          append_assoc buf (x ∷ []) (take k xs),
        )
        refl

  oldest_room :
      (cap : ℕ) (buf taken gone : List T) (x : T)
      → length buf < cap
      → drop_oldest_send (made cap buf taken gone) x ≡ made cap (buf ++ x ∷ []) taken gone
  unfolding drop_oldest_send step_of
  oldest_room cap buf taken gone x h = ground arith

  oldest_full :
      (cap : ℕ) (old : T) (rest taken gone : List T) (x : T)
      → suc (length rest) ≡ cap
      → drop_oldest_send (made cap (old ∷ rest) taken gone) x
        ≡ made cap (rest ++ x ∷ []) taken (gone ++ old ∷ [])
  unfolding drop_oldest_send step_of
  oldest_full cap old rest taken gone x h = ground arith

  send_each-oldest :
      (cap k : ℕ) (buf taken gone xs : List T)
      → 0 < cap
      → length buf ≤ cap
      → k ≡ length buf + length xs - cap
      → send_each drop_oldest_send (made cap buf taken gone) xs
        ≡ made cap (drop k (buf ++ xs)) taken (gone ++ take k (buf ++ xs))
  send_each-oldest cap zero buf taken gone [] h l e = simp list_laws refl
  send_each-oldest cap (suc k) buf taken gone [] h l e = absurd (omega arith)
  send_each-oldest cap k [] taken gone (x ∷ xs) h l e =
      rw
        (
          oldest_room cap [] taken gone x (omega arith),
          send_each-oldest cap k ([] ++ x ∷ []) taken gone xs h
              (rw (length-append ([]) (x ∷ [])) (omega arith))
              (rw (length-append ([]) (x ∷ [])) (omega arith)),
          append_assoc ([]) (x ∷ []) xs,
        )
        refl
  send_each-oldest cap zero (old ∷ rest) taken gone (x ∷ xs) h l e =
      rw
        (
          oldest_room cap (old ∷ rest) taken gone x (omega arith),
          send_each-oldest cap zero ((old ∷ rest) ++ x ∷ []) taken gone xs h
              (rw (length-append ((old ∷ rest)) (x ∷ [])) (omega arith))
              (rw (length-append ((old ∷ rest)) (x ∷ [])) (omega arith)),
        )
        (simp list_laws refl)
  send_each-oldest cap (suc k) (old ∷ rest) taken gone (x ∷ xs) h l e =
      elim (dec_lt (suc (length rest)) cap) [
        | yes room ↦
            rw
              (
                oldest_room cap (old ∷ rest) taken gone x (omega arith),
                send_each-oldest cap (suc k) ((old ∷ rest) ++ x ∷ []) taken gone xs h
                    (rw (length-append ((old ∷ rest)) (x ∷ [])) (omega arith))
                    (rw (length-append ((old ∷ rest)) (x ∷ [])) (omega arith)),
              )
              (simp list_laws refl)
        | no full ↦
            rw
              (
                oldest_full cap old rest taken gone x (omega arith),
                send_each-oldest cap k (rest ++ x ∷ []) taken (gone ++ old ∷ []) xs h
                    (rw (length-append rest (x ∷ [])) (omega arith))
                    (rw (length-append rest (x ∷ [])) (omega arith)),
              )
              (simp list_laws refl)
      ]

  -- A DropNewest outbox over a fresh channel that nothing is read from keeps the first `cap` items and
  -- drops all later ones, in order, each counted once.
  pub drop_newest_send-keeps :
      (cap : ℕ) (xs : List T)
      → send_each drop_newest_send (empty_wire cap) xs ≡ made cap (take cap xs) [] (drop cap xs)
  drop_newest_send-keeps cap xs = send_each-newest cap cap [] [] [] xs (omega arith)

  -- A DropOldest outbox over a fresh channel with cap > 0 that nothing is read from, with Sends that
  -- do not overlap, keeps the last `cap` items and drops all earlier ones, in order, each counted once.
  pub drop_oldest_send-keeps :
      (cap : ℕ) (xs : List T)
      → 0 < cap
      → send_each drop_oldest_send (empty_wire cap) xs
        ≡ made cap (drop (length xs - cap) xs) [] (take (length xs - cap) xs)
  drop_oldest_send-keeps cap xs h =
      send_each-oldest cap (length xs - cap) [] [] [] xs h (omega arith) (omega arith)
