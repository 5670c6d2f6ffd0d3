-- ===== src/Reputation/Cleanup.antt =====
-- internal/stores/sqlite/ip_reputation.go: `Cleanup` and `enforceCapacityTx`.
pub mod Capacity
pub mod Purge
use milter_guard.Prelude.{
  ℕ, zero, suc, ◌+◌, ◌-◌, Bool, true, false, not, ◌&&◌, ◌||◌, Option, none, some, List, [], ◌∷◌,
  ◌++◌, ◌==◌, ltb, leb, if◌then◌else◌, length, take, drop, min,
}
use milter_guard.Prelude.Rows.{select, some_row, sort}
use milter_guard.Reputation.Store.{
  Level, short, repeat, is_repeat, StoredBlock, unix_millis, Row, Strike, Database, Options,
  enabled, of_row, delete_rows, delete_strikes, recent,
}
use milter_guard.Reputation.Rejection.{repeat_expired}

-- `block_level IS NULL`, `= 'short'`, `= 'repeat'`
abbrev pub unblocked : Row → Bool
unblocked r = elim r.block [ none ↦ true | some b ↦ false ]

abbrev pub short_blocked : Row → Bool
short_blocked r = elim r.block [ none ↦ false | some b ↦ not (is_repeat b.level) ]

abbrev pub repeat_blocked : Row → Bool
repeat_blocked r = elim r.block [ none ↦ false | some b ↦ is_repeat b.level ]

-- `ORDER BY last_activity_at_ms,id`
abbrev pub staler : Row → Row → Bool
staler a b =
    ltb a.last_activity b.last_activity || (a.last_activity == b.last_activity && ltb a.id b.id)

-- The rows of a kind but the `excess` stalest ones; the strikes of these go with them.
unfoldable pub evict : (Row → Bool) → ℕ → Database → Database
evict kind excess db =
    let stale = sort staler (select kind db.rows) in
    let gone = take excess stale in
    record {
      rows = drop excess stale ++ select (λ r. not (kind r)) db.rows;
      strikes = select (λ s. not (some_row (λ r. of_row r.id s) gone)) db.strikes;
    }

-- One round of the loop: the rows removed, and what is left to remove.
unfoldable pub evict_round : (Row → Bool) → ℕ × ℕ × Database → ℕ × ℕ × Database
evict_round kind (removed, excess, db) =
    let n = min excess (length (select kind db.rows)) in
    (removed + n, excess - n, evict kind excess db)

-- `max(count(*) - maxSize, 0)` is truncated subtraction.
unfoldable pub enforce_capacity : Options → Database → ℕ × Database
unfolding evict_round
enforce_capacity o db =
    let start : ℕ × ℕ × Database = (0, length db.rows - o.max_size, db) in
    let (removed, _, db') =
      evict_round repeat_blocked (evict_round short_blocked (evict_round unblocked start)) in
    (removed, db')

abbrev pub prune_all : Options → ℕ → Strike → Bool
prune_all o now s = o.repeat_threshold == 0 || o.repeat_window == 0 || not (recent o now s)

unfoldable pub clear_expired_short : ℕ → List Row → List Row
clear_expired_short now [] = []
clear_expired_short now (r ∷ rs) =
    (elim r.block [
      | none ↦ r
      | some b ↦
          if not (is_repeat b.level) && leb b.until_ms (unix_millis now)
          then record r { block = none }
          else r
    ])
    ∷ clear_expired_short now rs

abbrev pub has_no_evidence : List Strike → Row → Bool
has_no_evidence ss r = unblocked r && not (some_row (of_row r.id) ss)

-- The steps before the capacity is enforced: the rows and strikes deleted, as they are counted.
unfoldable pub purge : Options → ℕ → Database → ℕ × Database
purge o now db =
    let db₁ = delete_strikes (prune_all o now) db in
    let n₁ = length db.strikes - length db₁.strikes in
    let db₂ = delete_rows (repeat_expired now) db₁ in
    let n₂ = length db₁.rows - length db₂.rows in
    let db₃ = record db₂ { rows = clear_expired_short now db₂.rows } in
    let db₄ = delete_rows (has_no_evidence db₃.strikes) db₃ in
    let n₃ = length db₃.rows - length db₄.rows in (n₁ + n₂ + n₃, db₄)

unfoldable pub cleanup : Options → ℕ → Database → ℕ × Database
cleanup o now db =
    if not (enabled o)
    then (0, db)
    else let (deleted, purged) = purge o now db in
      let (removed, kept) = enforce_capacity o purged in (deleted + removed, kept)
