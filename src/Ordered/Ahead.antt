-- ===== src/Ordered/Ahead.antt =====
-- What the serial map gives for the items, and for the slots and the items without one.
use go_kitsune.Prelude.{ℕ, ◌≡◌, refl, sym, ap, List, [], ◌∷◌, ◌++◌, Option, none, some}
use go_kitsune.Errors.{Error}
use go_kitsune.Process.{Outcome}
use go_kitsune.Stage.{End, returned, failed, Trace, perform_all, items, closed, ideal}
use go_kitsune.Transform.{map_loop, map_result}
use go_kitsune.Ordered.{Slot, pending, filled, Fill, here, there}

abbrev pub to_end : Option Error → End
to_end none = returned
to_end (some e) = failed e

module _ {ℓ κ} {I : Type ℓ} {O : Type κ} (process : I → Outcome O) (name : ℕ) where
  -- mapSerial over the same items.
  abbrev pub serial : List I → Trace O
  serial xs = ideal (map_loop name process) tt (items xs ++ closed ∷ [])

  abbrev pub to_come : Slot I O → Outcome O
  to_come (pending x) = process x
  to_come (filled o) = o

  -- What the slots and the items without one would give.
  abbrev pub ahead : List (Slot I O) → List I → Trace O
  ahead [] xs = serial xs
  ahead (s ∷ q) xs =
      perform_all (map_result name (to_come s).attempt (to_come s).result) (λ u. ahead q xs)

  serial-cons :
      (x : I) (xs : List I)
      → serial (x ∷ xs)
        ≡ perform_all (map_result name (process x).attempt (process x).result) (λ u. serial xs)
  unfolding ideal map_loop
  serial-cons x xs = refl

  pub serial_nil : serial [] ≡ record { out = []; ending = returned }
  unfolding ideal map_loop
  serial_nil = refl

  pub ahead-append :
      (q : List (Slot I O)) (x : I) (xs : List I)
      → ahead (q ++ pending x ∷ []) xs ≡ ahead q (x ∷ xs)
  ahead-append [] x xs = sym (serial-cons x xs)
  ahead-append (s ∷ q) x xs =
      ap (λ t. perform_all (map_result name (to_come s).attempt (to_come s).result) (λ u. t))
        (ahead-append q x xs)

  pub ahead-Fill :
      {q p : List (Slot I O)} → Fill process q p → (xs : List I) → ahead q xs ≡ ahead p xs
  ahead-Fill here xs = refl
  ahead-Fill (there {s} f) xs =
      ap (λ t. perform_all (map_result name (to_come s).attempt (to_come s).result) (λ u. t))
        (ahead-Fill f xs)
