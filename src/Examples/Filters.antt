-- ===== src/Examples/Filters.antt =====
-- Runs of Filter and of its fast path.
use go_kitsune.Prelude.{ℕ, ◌%◌, ◌≡◌, refl, List, [], ◌∷◌, ◌++◌, Bool, if◌then◌else◌, ◌==◌}
use go_kitsune.Errors.{user, stage_error, Result, ok, err}
use go_kitsune.Stage.{closed, items, Room, at_ctx_done, failed, ideal}
use go_kitsune.Filter.{filter_loop, filter_fast_from}

-- It keeps the odd numbers and fails at zero.
abbrev odd_not_zero : ℕ → Result Bool
odd_not_zero x = if x == 0 then err (user 5) else ok (x % 2 == 1)

abbrev until_zero : List ℕ
until_zero = 1 ∷ 2 ∷ 3 ∷ 0 ∷ 7 ∷ []

abbrev roomy : Room
roomy = record { sends = 9; stop = at_ctx_done }

fast_ends_bare :
    filter_fast_from 16 odd_not_zero 6 (2 ∷ []) until_zero
    ≡ record { out = 1 ∷ 3 ∷ []; ending = failed (user 5) }
unfolding filter_fast_from
fast_ends_bare = refl

loop_ends_wrapped :
    ideal (filter_loop 1 odd_not_zero) tt (items until_zero ++ closed ∷ [])
    ≡ record { out = 1 ∷ 3 ∷ []; ending = failed (stage_error 1 0 (user 5)) }
unfolding ideal filter_loop
loop_ends_wrapped = refl
