-- ===== src/Examples/Groups.antt =====
-- Runs of GroupBy and of the counting stages.
use go_kitsune.Prelude.{ℕ, ◌%◌, ◌≡◌, refl, List, [], ◌∷◌}
use go_kitsune.Keys.{nat_key}
use go_kitsune.Stage.{Room, at_ctx_done}
use go_kitsune.Groups.{add_value}

abbrev parity : ℕ → ℕ
parity x = x % 2

abbrev four : List ℕ
four = 4 ∷ 5 ∷ 6 ∷ 8 ∷ []

abbrev roomy : Room
roomy = record { sends = 9; stop = at_ctx_done }

sums_of_parity : (add_value parity 0 (λ a b. a) (λ x. x) [] 5) ≡ (1, 0) ∷ []
unfolding add_value
sums_of_parity = refl
