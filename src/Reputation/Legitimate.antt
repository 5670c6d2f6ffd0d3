-- ===== src/Reputation/Legitimate.antt =====
-- internal/stores/sqlite/ip_reputation.go: `RecordLegitimate`, `hasCurrentStrike`, `pruneStrikesTx`.
use milter_guard.Prelude.{
  ℕ, ◌+◌, Bool, false, not, ◌&&◌, ◌||◌, Option, none, some, ◌++◌, ◌==◌, ltb, leb, if◌then◌else◌,
  drop,
}
use milter_guard.Prelude.Rows.{select, some_row, sort}
use milter_guard.Reputation.Store.{
  StoredBlock, unix_millis, time_from_millis, Row, Database, Options, enabled, of_row, strike_count,
  find_row, update_row, delete_rows, delete_strikes, older, recent,
}

-- The join of the two tables at an address.
unfoldable pub has_current_strike : Options → ℕ → ℕ → Database → Bool
has_current_strike o ip now db =
    if ltb 0 o.repeat_threshold && ltb 0 o.repeat_window
    then some_row (λ r. r.ip == ip && some_row (λ s. of_row r.id s && recent o now s) db.strikes)
        db.rows
    else false

unfoldable pub prune_strikes : Options → ℕ → ℕ → Database → Database
prune_strikes o id now db =
    if o.repeat_threshold == 0 || o.repeat_window == 0
    then delete_strikes (of_row id) db
    else delete_strikes (λ s. of_row id s && not (recent o now s)) db

-- `DELETE … WHERE id=(SELECT id … ORDER BY struck_at_ms,id LIMIT 1)`
unfoldable pub drop_oldest_strike : ℕ → Database → Database
drop_oldest_strike id db = record db {
  strikes =
      drop 1 (sort older (select (of_row id) db.strikes))
      ++ select (λ s. not (of_row id s)) db.strikes;
}

abbrev pub is_active : ℕ → Option StoredBlock → Bool
is_active now none = false
is_active now (some b) = ltb now (time_from_millis b.until_ms)

abbrev delete_row : ℕ → Database → Database
delete_row id = delete_rows (λ r. r.id == id)

-- The end of the transaction: a row with no strike and no running block goes.
unfoldable pub settle : ℕ → Row → ℕ → Database → Database
settle now row credit db =
    if strike_count row.id db == 0 && not (is_active now row.block)
    then delete_row row.id db
    else record db {
      rows =
          update_row row.id
            (λ r. record r { legitimate_count = credit; last_activity = unix_millis now }) db.rows;
    }

-- The strikes of the row are pruned already.
unfoldable pub credit_row : Options → ℕ → Row → Database → Database
credit_row o now row db =
    if strike_count row.id db == 0
    then (if is_active now row.block
        then record db { rows = update_row row.id (λ r. record r { legitimate_count = 0 }) db.rows }
        else delete_row row.id db)
    else if leb o.legitimate_per_strike (row.legitimate_count + 1)
    then settle now row 0 (drop_oldest_strike row.id db)
    else settle now row (row.legitimate_count + 1) db

unfoldable pub record_legitimate : Options → Option ℕ → ℕ → Database → Database
record_legitimate o none now db = db
record_legitimate o (some ip) now db =
    if enabled o && ltb 0 o.legitimate_per_strike && has_current_strike o ip now db
    then elim (find_row ip db.rows) [
      | none ↦ db
      | some row ↦ credit_row o now row (prune_strikes o row.id now db)
    ]
    else db
