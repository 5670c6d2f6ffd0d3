-- ===== src/Reputation/Store.antt =====
-- internal/sqlitedb/schema: the tables ip_reputation and ip_strikes, and the repository's options.
-- An address stands for its canonical text. A `time.Time` and a duration are in nanoseconds, a column
-- of the tables in whole milliseconds; a column after the floor of `now - window` is written
-- `now < time + window`, which is the same of a whole millisecond. A transaction is one step: it fails as a whole,
-- and a failure of the database itself is not modelled.
pub mod Finds
use milter_guard.Prelude.{
  ℕ, zero, suc, ◌+◌, ◌*◌, ◌/◌, ◌<◌, ◌≤◌, Bool, true, false, not, ◌&&◌, ◌||◌, Option, none, some,
  List, [], ◌∷◌, ◌++◌, ◌==◌, ltb, leb, if◌then◌else◌, length, take, drop, max,
}
use milter_guard.Prelude.Rows.{select, some_row, sort}

pub data Level : Type 0 where
  short repeat : Level

abbrev pub is_repeat : Level → Bool
is_repeat short = false
is_repeat repeat = true

-- `unixMillis` and `timeFromMillis`
abbrev pub unix_millis : ℕ → ℕ
unix_millis time = time / 1_000_000

abbrev pub time_from_millis : ℕ → ℕ
time_from_millis ms = ms * 1_000_000

-- A block as it is reported, `stores.IPBlock`.
pub record Block : Type 0 where
  pub level : Level
  pub until : ℕ

-- The columns block_level and blocked_until_ms: both are null or neither is, by the table's CHECK.
pub record StoredBlock : Type 0 where
  pub level : Level
  pub until_ms : ℕ

abbrev pub stored : Block → StoredBlock
stored b = record { level = b.level; until_ms = unix_millis b.until }

abbrev pub reported : StoredBlock → Block
reported b = record { level = b.level; until = time_from_millis b.until_ms }

pub record Row : Type 0 where
  pub id : ℕ
  pub ip : ℕ
  pub block : Option StoredBlock
  pub legitimate_count : ℕ
  pub last_activity : ℕ

pub record Strike : Type 0 where
  pub id : ℕ
  pub row : ℕ
  pub struck_at : ℕ

pub record Database : Type 0 where
  pub rows : List Row
  pub strikes : List Strike

pub record Options : Type 0 where
  pub short_duration : ℕ
  pub repeat_threshold : ℕ
  pub repeat_window : ℕ
  pub repeat_duration : ℕ
  pub refresh_on_attempt : Bool
  pub legitimate_per_strike : ℕ
  pub max_size : ℕ

-- The repository's database is there.
unfoldable pub enabled : Options → Bool
enabled o = ltb 0 o.max_size && (ltb 0 o.short_duration || ltb 0 o.repeat_threshold)

-- A new INTEGER PRIMARY KEY is above all that are there.
abbrev pub row_ids : List Row → ℕ
row_ids [] = 0
row_ids (r ∷ rs) = max r.id (row_ids rs)

abbrev pub strike_ids : List Strike → ℕ
strike_ids [] = 0
strike_ids (s ∷ ss) = max s.id (strike_ids ss)

abbrev pub of_row : ℕ → Strike → Bool
of_row id s = s.row == id

-- `SELECT count(*) FROM ip_strikes WHERE ip_reputation_id=?`
abbrev pub strike_count : ℕ → Database → ℕ
strike_count id db = length (select (of_row id) db.strikes)

-- `SELECT … WHERE ip=?`
unfoldable pub find_row : ℕ → List Row → Option Row
find_row ip [] = none
find_row ip (r ∷ rs) = let rest = find_row ip rs in if r.ip == ip then some r else rest

-- `UPDATE … WHERE id=?`
unfoldable pub update_row : ℕ → (Row → Row) → List Row → List Row
update_row id f [] = []
update_row id f (r ∷ rs) = (if r.id == id then f r else r) ∷ update_row id f rs

-- `DELETE FROM ip_reputation WHERE …`, with the strikes of the deleted rows (ON DELETE CASCADE).
unfoldable pub delete_rows : (Row → Bool) → Database → Database
delete_rows gone db = record {
  rows = select (λ r. not (gone r)) db.rows;
  strikes = select (λ s. not (some_row (λ r. gone r && of_row r.id s) db.rows)) db.strikes;
}

-- `DELETE FROM ip_strikes WHERE …`
unfoldable pub delete_strikes : (Strike → Bool) → Database → Database
delete_strikes gone db = record db { strikes = select (λ s. not (gone s)) db.strikes }

-- The newest strike first; the id breaks a tie.
abbrev pub newer : Strike → Strike → Bool
newer a b = ltb b.struck_at a.struck_at || (a.struck_at == b.struck_at && ltb b.id a.id)

abbrev pub older : Strike → Strike → Bool
older a b = newer b a

-- Inside the window that ends now.
abbrev pub recent : Options → ℕ → Strike → Bool
recent o now s = ltb now (time_from_millis s.struck_at + o.repeat_window)
