-- ===== src/Reputation/Rejection.antt =====
-- internal/stores/sqlite/ip_reputation.go: `RecordRejection`.
pub mod Laws
use milter_guard.Prelude.{
  ℕ, zero, suc, ◌+◌, Bool, true, false, not, ◌&&◌, ◌||◌, Option, none, some, List, [], ◌∷◌, ◌++◌,
  ◌==◌, ltb, leb, if◌then◌else◌, length, take,
}
use milter_guard.Prelude.Rows.{select, sort}
use milter_guard.Reputation.Store.{
  Level, short, repeat, is_repeat, Block, StoredBlock, stored, reported, unix_millis, Row, Strike,
  Database, Options, enabled, row_ids, strike_ids, of_row, strike_count, find_row, update_row,
  delete_rows, delete_strikes, newer, recent,
}

-- What the caller learns: the block in force, if any, and the strikes that count.
pub record Report : Type 0 where
  pub block : Option Block
  pub strikes : ℕ

-- `block_level='repeat' AND blocked_until_ms<=?`
abbrev pub repeat_expired : ℕ → Row → Bool
repeat_expired now r = elim r.block [
  | none ↦ false
  | some b ↦ is_repeat b.level && leb b.until_ms (unix_millis now)
]

unfoldable pub drop_expired_repeat : ℕ → ℕ → Database → Database
drop_expired_repeat ip now = delete_rows (λ r. r.ip == ip && repeat_expired now r)

-- `INSERT … ON CONFLICT(ip) DO UPDATE … RETURNING id,block_level,blocked_until_ms`
unfoldable pub upsert : ℕ → ℕ → Database → Row × Database
upsert ip now db = elim (find_row ip db.rows) [
  | some r ↦
      let touch : Row → Row =
        λ x. record x { legitimate_count = 0; last_activity = unix_millis now } in
      (touch r, record db { rows = update_row r.id touch db.rows })
  | none ↦
      let fresh : Row = record {
        id = suc (row_ids db.rows);
        ip = ip;
        block = none;
        legitimate_count = 0;
        last_activity = unix_millis now;
      } in
      (fresh, record db { rows = fresh ∷ db.rows })
]

-- `SELECT id … ORDER BY struck_at_ms DESC,id DESC LIMIT ?` over the recent strikes of a row: those
-- that stay of them.
unfoldable pub newest_strikes : Options → ℕ → ℕ → List Strike → List Strike
newest_strikes o id now ss =
    take o.repeat_threshold (sort newer (select (λ s. of_row id s && recent o now s) ss))

-- The strike is inserted, and of the row's strikes the newest ones in the window stay.
unfoldable pub add_strike : Options → ℕ → ℕ → Database → Database
add_strike o id now db =
    if ltb 0 o.repeat_threshold
    then (let strike : Strike = record {
      id = suc (strike_ids db.strikes);
      row = id;
      struck_at = unix_millis now;
    } in
        record db {
          strikes =
              newest_strikes o id now (strike ∷ db.strikes)
              ++ select (λ s. not (of_row id s)) db.strikes;
        })
    else delete_strikes (of_row id) db

-- The block that the strikes earn.
unfoldable pub earned_block : Options → ℕ → ℕ → Option Block
earned_block o now strikes =
    if ltb 0 o.repeat_threshold && leb o.repeat_threshold strikes
    then some (record { level = repeat; until = now + o.repeat_duration })
    else if ltb 0 o.short_duration
    then some (record { level = short; until = now + o.short_duration })
    else none

-- A running block stays if it runs longer, or as long at the higher level.
abbrev pub outlasts : Block → Option Block → Bool
outlasts old none = true
outlasts old (some new) =
    ltb new.until old.until
    || (old.until == new.until && is_repeat old.level && not (is_repeat new.level))

unfoldable pub merge_block : ℕ → Option StoredBlock → Option Block → Option Block
merge_block now none earned = earned
merge_block now (some old) earned =
    if ltb now (reported old).until && outlasts (reported old) earned
    then some (reported old)
    else earned

-- `storedLevel, storedBlockedUntil`
abbrev pub stored_columns : Option Block → Option StoredBlock
stored_columns none = none
stored_columns (some b) = some (stored b)

unfoldable pub record_rejection : Options → Option ℕ → ℕ → Database → Report × Database
record_rejection o none now db = (record { block = none; strikes = 0 }, db)
record_rejection o (some ip) now db =
    if not (enabled o)
    then (record { block = none; strikes = 0 }, db)
    else let (row, db₁) = upsert ip now (drop_expired_repeat ip now db) in
      let db₂ = add_strike o row.id now db₁ in
      let strikes = strike_count row.id db₂ in
      let block = merge_block now row.block (earned_block o now strikes) in
      (
        record { block = block; strikes = strikes },
        record db₂ {
          rows =
              update_row row.id
                (λ r. record r {
                  block = stored_columns block;
                  legitimate_count = 0;
                  last_activity = unix_millis now;
                })
                db₂.rows;
        },
      )
