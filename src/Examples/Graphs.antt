-- ===== src/Examples/Graphs.antt =====
-- Runs of ExpandMap on graphs with cycles, and on pipelines without an end.
use go_kitsune.Prelude.{
  ℕ, ◌+◌, ◌*◌, ◌≡◌, refl, true, false, List, [], ◌∷◌, Option, none, some, inr, arith, subst, ◌<◌,
  get_elem?,
}
use go_kitsune.Keys.{nat_key}
use go_kitsune.Expand.{Source, ExpandConfig, Expansion, expand_map}
use go_kitsune.Stage.{End}
use go_kitsune.Expand.Ending.{expand_map-ends, Capped}

abbrev of_slice : List ℕ → Source ℕ
of_slice xs = record { items = get_elem? xs; late = 0; run_err = none }

-- A number points back to zero and on to its double and one more.
abbrev neighbours : ℕ → Option (Source ℕ)
neighbours x = some (of_slice (0 ∷ (x + 1) ∷ (2 * x) ∷ []))

abbrev roots : Source ℕ
roots = of_slice (1 ∷ 3 ∷ [])

abbrev capped : ExpandConfig ℕ ℕ
capped = record {
  key_fn = some (λ x. x);
  max_depth = some 2;
  max_items = 6;
  finds_reader = λ n. true;
  ctx_ended = λ n. false;
}

abbrev outputs : Option (Expansion ℕ ℕ × End) → List (ℕ × ℕ)
outputs none = []
outputs (some (s, e)) = s.out

breadth_first :
    outputs (expand_map capped neighbours 4 8 roots)
    ≡ (1, 0) ∷ (3, 0) ∷ (0, 1) ∷ (2, 1) ∷ (4, 1) ∷ (6, 1) ∷ []
unfolding expand_map
breadth_first = refl

abbrev late_of : Option (Source ℕ) → ℕ
late_of none = 0
late_of (some p) = p.late

-- A pipeline that counts for ever, and delivers two more items after it is cancelled.
abbrev counter : Source ℕ
counter = record { items = λ n. some n; late = 2; run_err = none }

abbrev counters : ℕ → Option (Source ℕ)
counters x = some counter

abbrev three : ExpandConfig ℕ ℕ
three = record {
  key_fn = none;
  max_depth = none;
  max_items = 3;
  finds_reader = λ n. true;
  ctx_ended = λ n. false;
}

first_three : outputs (expand_map three counters 7 5 counter) ≡ (0, 0) ∷ (1, 0) ∷ (2, 0) ∷ []
unfolding expand_map
first_three = refl

expand_map-ends_example : Capped three counters (expand_map three counters 7 5 counter)
expand_map-ends_example =
    expand_map-ends three counters 7 5 counter (omega arith) (omega arith) (inr (refl, omega arith))
      (λ x child h. inr (refl, subst (λ o. late_of o + 3 + 1 < 7) h (omega arith)))
