-- ===== src/Drain.antt =====
-- pipeline.go: the cooperative drain of runCtx: initDrainNotify, initMultiOutputDrainNotify,
-- signalDrain and drainCh.
--
-- The outputs of a stage with several of them share one drainEntry, so the entries lie in a list, and
-- the map `drainNotify` gives the position of an output's entry. `refs` is an atomic.Int32, kept as its
-- 32 bits, and `closes` counts the calls of close(e.ch); a second one would panic. The atomic Add makes
-- each signal one step.
pub mod Signalled
pub mod Closing
use go_kitsune.Prelude.{
  ℕ, ◌+◌, ◌-◌, ◌%◌, ◌^◌, Bool, true, false, List, [], ◌∷◌, ◌++◌, length, Option, none, some, ltb,
  ◌==◌, max, get_elem?, set, if◌then◌else◌,
}
use go_kitsune.Keys.{lookup, insert, nat_key}

pub record DrainEntry : Type 0 where
  pub refs : ℕ
  pub closes : ℕ

pub record RunCtx : Type 0 where
  pub entries : List DrainEntry
  pub drain_notify : List (ℕ × ℕ)

abbrev pub empty_ctx : RunCtx
empty_ctx = record { entries = []; drain_notify = [] }

-- `e.refs.Store(n)` with n clamped to at least one
abbrev pub new_entry : ℕ → DrainEntry
new_entry n = record { refs = max 1 n; closes = 0 }

-- `for _, id := range outputIDs { rc.drainNotify[id] = e }`
unfoldable pub register : List ℕ → ℕ → List (ℕ × ℕ) → List (ℕ × ℕ)
unfolding insert
register [] at m = m
register (id ∷ ids) at m = register ids at (insert id at m)

unfoldable pub init_multi_output_drain_notify : RunCtx → List ℕ → ℕ → RunCtx
unfolding register
init_multi_output_drain_notify rc output_ids total_consumers = record {
  entries = rc.entries ++ new_entry total_consumers ∷ [];
  drain_notify = register output_ids (length rc.entries) rc.drain_notify;
}

unfoldable pub init_drain_notify : RunCtx → ℕ → ℕ → RunCtx
unfolding register
init_drain_notify rc producer_id consumer_count = record {
  entries = rc.entries ++ new_entry consumer_count ∷ [];
  drain_notify = register (producer_id ∷ []) (length rc.entries) rc.drain_notify;
}

-- `if e.refs.Add(-1) == 0 { close(e.ch) }`
abbrev pub signal_entry : DrainEntry → DrainEntry
signal_entry e =
    let refs = (e.refs + (2 ^ 32 - 1)) % 2 ^ 32 in
    record { refs = refs; closes = if refs == 0 then e.closes + 1 else e.closes }

abbrev pub signal_at : List DrainEntry → ℕ → Option DrainEntry → List DrainEntry
signal_at es at none = es
signal_at es at (some e) = set es at (signal_entry e)

abbrev pub signal_found : List DrainEntry → Option ℕ → List DrainEntry
signal_found es none = es
signal_found es (some at) = signal_at es at (get_elem? es at)

unfoldable pub signal_drain : RunCtx → ℕ → RunCtx
signal_drain rc producer_id = record rc {
  entries = signal_found rc.entries (lookup producer_id rc.drain_notify);
}

-- The entry whose channel drainCh gives; `none` is the nil channel.
abbrev pub entry_at : List DrainEntry → Option ℕ → Option DrainEntry
entry_at es none = none
entry_at es (some at) = get_elem? es at

unfoldable pub drain_ch : RunCtx → ℕ → Option DrainEntry
drain_ch rc id = entry_at rc.entries (lookup id rc.drain_notify)

-- The signals of the consumers, one after the other.
abbrev pub signals : RunCtx → List ℕ → RunCtx
signals rc [] = rc
signals rc (id ∷ ids) = signals (signal_drain rc id) ids
