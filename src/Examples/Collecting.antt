-- ===== src/Examples/Collecting.antt =====
-- Runs of the collecting stages and of the terminals.
use mathlib.Core.List.{Perm}
use go_kitsune.Prelude.{
  ℕ, ◌+◌, ◌≡◌, refl, Bool, List, [], ◌∷◌, ◌++◌, length, ◌==◌, Option, none, some, Bool-cases, inl,
  inr, if◌then◌else◌, arith, ltb,
}
use go_kitsune.Stage.{Event, closed, items, Room, at_ctx_done, returned, ideal}
use go_kitsune.Collect.{take_random, reduce_while_loop}
use go_kitsune.Errors.{user}
use go_kitsune.Terminals.{Upstream, min_item, max_item, min_max}
use go_kitsune.Terminals.Extremes.{
  IsStrictWeakOrder, IsLeast, IsOneOf, both, settled, extremes_chosen,
}
use go_kitsune.Collect.Sampled.{run-take_random}

abbrev roomy : Room
roomy = record { sends = 9; stop = at_ctx_done }

abbrev five : List ℕ
five = 4 ∷ 5 ∷ 6 ∷ 8 ∷ 9 ∷ []

-- The third draw is 1, the later ones are 5.
abbrev draws : ℕ → ℕ
draws i = if i == 3 then 1 else 5

abbrev no_events : List (Event ℕ)
no_events = []

two_of_five :
    take_random 2 draws roomy (items five ++ closed ∷ [])
    ≡ record { out = (4 ∷ 6 ∷ []) ∷ []; ending = returned }
unfolding take_random
two_of_five = refl

run-take_random_example :
    (sample : List ℕ) × (left_out : List ℕ) × (take_random 2 draws roomy
        (items five ++ closed ∷ no_events)
      ≡ record { out = sample ∷ []; ending = returned })
    × Perm (sample ++ left_out) five
    × (length sample ≡ 2)
run-take_random_example = run-take_random 2 draws roomy five no_events (omega arith)

-- Sums until one is over 12.
sum_until :
    (ideal (reduce_while_loop (λ s x. (s + x, ltb (s + x) 12))) 0 (items five)).out ≡ 15 ∷ []
unfolding ideal reduce_while_loop
sum_until = refl

-- A run that delivers two items and then fails.
abbrev failing : Upstream ℕ
failing = record { delivered = 5 ∷ 3 ∷ []; failure = some (user 7) }

abbrev is_small : ℕ → Bool
is_small x = ltb x 9

ltb-IsStrictWeakOrder : IsStrictWeakOrder ltb
ltb-IsStrictWeakOrder = record {
  irrefl = λ a. ground arith;
  trans = λ a b c p q. ground (arith, p, q);
  compare =
      λ a b c p. elim (Bool-cases (ltb a b)) [ inl q ↦ inl q | inr q ↦ inr (ground (arith, p, q)) ];
}

abbrev three : Upstream ℕ
three = record { delivered = 5 ∷ 3 ∷ 8 ∷ []; failure = none }

extremes_chosen_example :
    (l : Option ℕ) × (m : Option ℕ) × (min_item (λ e. e) three ltb ≡ settled l none)
    × (max_item (λ e. e) three ltb ≡ settled m none)
    × (min_max (λ e. e) three ltb ≡ settled (both l m) none)
    × (IsLeast ltb l (5 ∷ 3 ∷ 8 ∷ []) × IsOneOf l (5 ∷ 3 ∷ 8 ∷ []))
    × (IsLeast (λ a b. ltb b a) m (5 ∷ 3 ∷ 8 ∷ []) × IsOneOf m (5 ∷ 3 ∷ 8 ∷ []))
extremes_chosen_example = extremes_chosen (λ e. e) three ltb ltb-IsStrictWeakOrder
