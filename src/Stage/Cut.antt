-- ===== src/Stage/Cut.antt =====
-- A stage whose sends are interrupted delivers a prefix of what it would have delivered.
use go_kitsune.Prelude.{
  ℕ, ◌+◌, ◌-◌, ◌≤◌, ◌<◌, ◌≡◌, refl, sym, ap, ◌∙◌, true, false, inl, inr, List, [], ◌∷◌, length,
  take, leb, if◌then◌else◌, length-append, take-append_le, take_of_length-le, take-append_ge,
  Bool-cases, arith, leb→le,
}
use go_kitsune.Stage.{
  Event, Action, continue, finish, End, Room, Loop, Trace, react, run, ideal, cut, after, perform,
  perform_all,
}

leb-false : (a b : ℕ) → b < a → leb a b ≡ false
leb-false a b h = ground arith

leb_zero : (n : ℕ) → leb 0 n ≡ true
leb_zero n = ground arith

leb_sub : (a b n : ℕ) → a ≤ n → leb (a + b) n ≡ leb b (n - a)
leb_sub a b n h = ground arith

module _ {ℓ κ μ} {S : Type ℓ} {T : Type κ} {O : Type μ} (l : Loop S T O) where
  -- To send `xs` first takes their number off the room.
  cut-after :
      (r : Room) (xs : List O) (t : Trace O)
      → (if leb (length xs) r.sends
          then after xs (cut l (record r { sends = r.sends - length xs }) t)
          else record { out = take r.sends xs; ending = l.interrupted r.stop })
        ≡ cut l r (after xs t)
  unfolding cut
  cut-after r xs t = elim (Bool-cases (leb (length xs) r.sends)) [
    | inl fits ↦
        rw
          (
            fits,
            length-append xs t.out,
            leb_sub (length xs) (length t.out) r.sends (leb→le _ _ fits),
            take-append_ge r.sends xs t.out (leb→le _ _ fits),
          )
          (elim (Bool-cases (leb (length t.out) (r.sends - length xs))) [
            | inl all ↦ rw all
            | inr some_left ↦ rw some_left
          ])
    | inr over ↦ rw (
      over,
      length-append xs t.out,
      leb-false (length xs + length t.out) r.sends (ground arith),
      take-append_le r.sends xs t.out (ground arith),
    )
  ]

  cut_empty :
      (r : Room) (end : End)
      → cut l r (record { out = []; ending = end }) ≡ record { out = []; ending = end }
  unfolding cut
  cut_empty r end = rw (leb_zero r.sends)

  perform-cut :
      (r : Room) (a : Action S O) (again : Room → S → Trace O) (again' : S → Trace O)
      → ((r' : Room) (s : S) → again r' s ≡ cut l r' (again' s))
      → perform l r a again ≡ cut l r (perform_all a again')
  unfolding perform
  perform-cut r (finish xs end) again again' h = unfold cut in refl
  perform-cut r (continue xs s) again again' h =
      rw (h (record r { sends = r.sends - length xs }) s) (cut-after r xs (again' s))

  -- Whatever the events and wherever the sends are interrupted, the loop delivers the prefix of
  -- the undisturbed output that its room allows, and ends as that output does if all of it fits.
  pub run-cut : (r : Room) (s : S) (es : List (Event T)) → run l r s es ≡ cut l r (ideal l s es)
  unfolding run ideal
  run-cut r s [] = sym (cut_empty r _)
  run-cut r s (e ∷ es) = elim (Bool-cases (l.finished s)) [
    | inl stop ↦ rw (stop, run, ideal) (sym (cut_empty r _))
    | inr go_on ↦
        rw (go_on, run, ideal) (perform-cut r (react l s e) _ _ (λ r' s'. run-cut r' s' es))
  ]

  pub run_of_ideal :
      (r : Room) (s : S) (es : List (Event T)) {t : Trace O}
      → ideal l s es ≡ t
      → run l r s es ≡ cut l r t
  run_of_ideal r s es h = run-cut r s es ∙ ap (cut l r) h

  -- The items delivered are the first ones of the undisturbed output.
  pub out-run :
      (r : Room) (s : S) (es : List (Event T))
      → (run l r s es).out ≡ take r.sends (ideal l s es).out
  unfolding cut
  out-run r s es =
      rw (run-cut r s es) (elim (Bool-cases (leb (length (ideal l s es).out) r.sends)) [
        | inl fits ↦ rw (fits, cut) (sym (take_of_length-le r.sends _ (leb→le _ _ fits)))
        | inr over ↦ rw (over, cut)
      ])
