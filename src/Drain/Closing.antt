-- ===== src/Drain/Closing.antt =====
-- When the drain channel of a stage is closed.
use go_kitsune.Prelude.{
  ℕ, suc, ◌+◌, ◌^◌, ◌≤◌, ◌<◌, ◌≡◌, refl, sym, ap, ◌∙◌, true, false, List, [], ◌∷◌, ◌++◌, length,
  length-append, Option, none, some, leb, max, get_elem?, arith, if◌then◌else◌, ==_iff, Bool-cases,
  inl, inr,
}
use go_kitsune.Keys.{lookup, insert, nat_key, member, lookup-insert}
use go_kitsune.Drain.{
  DrainEntry, RunCtx, new_entry, register, init_multi_output_drain_notify, entry_at, drain_ch,
  signals,
}
use go_kitsune.Drain.Signalled.{
  entry_of, points, hits, signalled, signalled-entry_of, new-entry_of, hits-le, get-signals,
  drain_notify-signals,
}

lookup-register :
    (ids : List ℕ) (at j : ℕ) (m : List (ℕ × ℕ))
    → lookup j (register ids at m) ≡ (if member j ids then some at else lookup j m)
unfolding register
lookup-register [] at j m = refl
lookup-register (id ∷ ids) at j m =
    ground (arith, lookup-register ids at j (insert id at m), lookup-insert id j at m)

-- Every output that is registered has an entry.
abbrev pub IsValid : RunCtx → Type 0
IsValid rc = (id at : ℕ) → lookup id rc.drain_notify ≡ some at → at < length rc.entries

-- The signals that come from consumers of one of these outputs.
abbrev pub from_outputs : List ℕ → List ℕ → ℕ
from_outputs ids [] = 0
from_outputs ids (s ∷ sigs) =
    if member s ids then suc (from_outputs ids sigs) else from_outputs ids sigs

hits-register :
    (rc : RunCtx) (ids sigs : List ℕ)
    → IsValid rc
    → hits (length rc.entries) (register ids (length rc.entries) rc.drain_notify) sigs
      ≡ from_outputs ids sigs
hits-register rc ids [] valid = refl
hits-register rc ids (s ∷ sigs) valid =
    let rest = hits-register rc ids sigs valid in
    elim (Bool-cases (member s ids)) [
      | inl y ↦
          rw
            (
              lookup-register ids (length rc.entries) s rc.drain_notify,
              y,
              (==_iff (length rc.entries) (length rc.entries)).1 refl,
            )
            (ap suc rest)
      | inr n ↦
          rw
            (
              lookup-register ids (length rc.entries) s rc.drain_notify,
              n,
              not_pointed (lookup s rc.drain_notify) (valid s),
            )
            rest
    ]
  where
    not_pointed :
        (o : Option ℕ)
        → ((at : ℕ) → o ≡ some at → at < length rc.entries)
        → points (length rc.entries) o ≡ false
    not_pointed none h = refl
    not_pointed (some at) h = ground (arith, h at refl)

init-IsValid :
    (rc : RunCtx) (ids : List ℕ) (n : ℕ)
    → IsValid rc
    → IsValid (init_multi_output_drain_notify rc ids n)
unfolding init_multi_output_drain_notify
init-IsValid rc ids n valid id at h = elim (Bool-cases (member id ids)) [
  | inl y ↦ omega (arith, now_at y, length-append rc.entries (new_entry n ∷ []))
  | inr f ↦ omega (arith, valid id at (as_before f), length-append rc.entries (new_entry n ∷ []))
]
  where
    at_register :
        (if member id ids then some (length rc.entries) else lookup id rc.drain_notify) ≡ some at
    at_register = sym (lookup-register ids (length rc.entries) id rc.drain_notify) ∙ h

    now_at : member id ids ≡ true → length rc.entries ≡ at
    now_at y = cc (simp y at at_register)

    as_before : member id ids ≡ false → lookup id rc.drain_notify ≡ some at
    as_before f = simp f at at_register

get-append : (es : List DrainEntry) (e : DrainEntry) → get_elem? (es ++ e ∷ []) (length es) ≡ some e
get-append [] e = refl
get-append (x ∷ es) e = get-append es e

-- A stage with these outputs and n consumers, registered in a run context in which every output that is
-- registered has an entry: after any signals, in any order, also for other outputs, the outputs of the
-- stage share one entry, whose channel has been closed once if at least max 1 n of the signals were for
-- these outputs, and not at all otherwise, as long as there are no more than 2 ^ 32 signals.
pub drain_ch-signals :
    (rc : RunCtx) (ids sigs : List ℕ) (n id : ℕ)
    → IsValid rc
    → n < 2 ^ 32
    → length sigs ≤ 2 ^ 32
    → member id ids ≡ true
    → (e : DrainEntry) × (drain_ch (signals (init_multi_output_drain_notify rc ids n) sigs) id
        ≡ some e)
      × (e.closes ≡ (if leb (max 1 n) (from_outputs ids sigs) then 1 else 0))
unfolding init_multi_output_drain_notify drain_ch
drain_ch-signals rc ids sigs n id valid few short mem =
    let rc2 = init_multi_output_drain_notify rc ids n in
    let t = length rc.entries in
    let k = hits t rc2.drain_notify sigs in
    let found : lookup id (signals rc2 sigs).drain_notify ≡ some t =
      ap (lookup id) (drain_notify-signals rc2 sigs)
      ∙ (lookup-register ids t id rc.drain_notify
          ∙ ap (λ b. if b then some t else lookup id rc.drain_notify) mem) in
    let after : get_elem? (signals rc2 sigs).entries t ≡ some (entry_of (max 1 n) (k + 0)) =
      get-signals rc2 t (new_entry n) sigs (get-append rc.entries (new_entry n))
      ∙ ap some (
          ap (signalled k) (new-entry_of n)
          ∙ signalled-entry_of (max 1 n) 0 k (omega arith) (omega (arith, few))
              (omega (arith, short, hits-le t rc2.drain_notify sigs))) in
    let all : k ≡ from_outputs ids sigs = hits-register rc ids sigs valid in
    let plus : k + 0 ≡ from_outputs ids sigs = omega (arith, all) in
    (
      entry_of (max 1 n) (k + 0),
      ap (entry_at (signals rc2 sigs).entries) found ∙ after,
      ap (λ j. if leb (max 1 n) j then 1 else 0) plus,
    )
