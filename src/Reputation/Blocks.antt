-- ===== src/Reputation/Blocks.antt =====
-- internal/stores/sqlite/ip_reputation.go: `ActiveBlockForAttempt` with `readActiveBlock` and
-- `refreshRepeatBlock`, `AddManualBlock` and `Delete`.
pub mod Reads
use milter_guard.Prelude.{
  ℕ, zero, suc, ◌+◌, Bool, true, false, not, ◌&&◌, ◌||◌, Option, none, some, List, [], ◌∷◌, ◌==◌,
  ltb, leb, if◌then◌else◌, length,
}
use milter_guard.Prelude.Rows.{select, some_row}
use milter_guard.Reputation.Store.{
  Level, short, repeat, is_repeat, Block, StoredBlock, stored, reported, unix_millis,
  time_from_millis, Row, Strike, Database, Options, enabled, row_ids, of_row, find_row, update_row,
  delete_rows, recent,
}

-- One minute.
abbrev pub repeat_refresh_interval : ℕ
repeat_refresh_interval = 60_000_000_000

pub record ActiveBlock : Type 0 where
  pub block : Block
  pub strikes : ℕ

-- The strikes since the cutoff: the window's start, or now where there is no window.
abbrev pub counts : Options → ℕ → Strike → Bool
counts o now s =
    if ltb 0 o.repeat_threshold && ltb 0 o.repeat_window
    then recent o now s
    else ltb (unix_millis now) s.struck_at

abbrev running : ℕ → Option StoredBlock → Option StoredBlock
running now none = none
running now (some b) = if ltb (unix_millis now) b.until_ms then some b else none

unfoldable pub read_active_block : Options → ℕ → ℕ → Database → Option ActiveBlock
read_active_block o ip now db = elim (find_row ip db.rows) [
  | none ↦ none
  | some r ↦ elim (running now r.block) [
    | none ↦ none
    | some b ↦ some (record {
      block = reported b;
      strikes = length (select (λ s. of_row r.id s && counts o now s) db.strikes);
    })
  ]
]

-- The WHERE clause of the refresh.
abbrev pub refreshes : ℕ → ℕ → ℕ → Row → Bool
refreshes ip now expires r = r.ip == ip && (elim r.block [
  | none ↦ false
  | some b ↦
      is_repeat b.level
      && ltb (unix_millis now) b.until_ms
      && leb (time_from_millis b.until_ms + repeat_refresh_interval) expires
])

unfoldable pub extend_rows : ℕ → ℕ → ℕ → List Row → List Row
extend_rows ip now expires [] = []
extend_rows ip now expires (r ∷ rs) =
    (if refreshes ip now expires r
      then record r {
        block = some (record { level = repeat; until_ms = unix_millis expires });
        last_activity = unix_millis now;
      }
      else r)
    ∷ extend_rows ip now expires rs

abbrev pub refresh : Options → ℕ → ℕ → ActiveBlock → Database → Option ActiveBlock × Database
refresh o ip now a db =
    let expires = now + o.repeat_duration in
    if some_row (refreshes ip now expires) db.rows
    then (
      some (record a { block = record (a.block) { until = expires } }),
      record db { rows = extend_rows ip now expires db.rows },
    )
    else (some a, db)

unfoldable pub active_block_for_attempt :
    Options → Option ℕ → ℕ → Database → Option ActiveBlock × Database
active_block_for_attempt o none now db = (none, db)
active_block_for_attempt o (some ip) now db =
    if not (enabled o) then (none, db) else elim (read_active_block o ip now db) [
      | none ↦ (none, db)
      | some a ↦
          if not (is_repeat a.block.level) || not o.refresh_on_attempt
          then (some a, db)
          else if ltb (now + o.repeat_duration) (a.block.until + repeat_refresh_interval)
          then (some a, db)
          else refresh o ip now a db
    ]

-- The block of a manual entry; none where no duration is configured.
unfoldable pub manual_block : Options → ℕ → Option Block
manual_block o now =
    if ltb 0 o.repeat_duration
    then some (record { level = repeat; until = now + o.repeat_duration })
    else if ltb 0 o.short_duration
    then some (record { level = short; until = now + o.short_duration })
    else none

-- `INSERT … ON CONFLICT(ip) DO UPDATE`
unfoldable pub put_block : ℕ → ℕ → Block → Database → Database
put_block ip now b db = elim (find_row ip db.rows) [
  | none ↦ record db {
    rows =
        (record {
          id = suc (row_ids db.rows);
          ip = ip;
          block = some (stored b);
          legitimate_count = 0;
          last_activity = unix_millis now;
        })
        ∷ db.rows;
  }
  | some r ↦ record db {
    rows =
        update_row r.id
          (λ r'. record r' {
            block = some (stored b);
            legitimate_count = 0;
            last_activity = unix_millis now;
          })
          db.rows;
  }
]

-- `none` is the error.
unfoldable pub add_manual_block : Options → Option ℕ → ℕ → Database → Option (Block × Database)
add_manual_block o none now db = none
add_manual_block o (some ip) now db =
    if not (enabled o)
    then none
    else elim (manual_block o now) [ none ↦ none | some b ↦ some (b, put_block ip now b db) ]

-- Whether a row was there, and the database after it; `none` is the error.
unfoldable pub delete_block : Option ℕ → Database → Option (Bool × Database)
delete_block none db = none
delete_block (some ip) db =
    some (some_row (λ r. r.ip == ip) db.rows, delete_rows (λ r. r.ip == ip) db)
