-- ===== src/Examples/Addresses.antt =====
-- internal/stores/sqlite/ip_reputation.go: a small table of addresses.
use milter_guard.Prelude.{
  ◌+◌, ◌-◌, ◌<◌, ◌≤◌, min, true, none, some, [], ◌∷◌, ◌≡◌, refl, arith, length,
}
use milter_guard.Prelude.Rows.{select, sort, some_row, insert_row}
use milter_guard.Reputation.Store.{
  short, repeat, Block, Row, Database, Options, enabled, strike_count, find_row, update_row,
  delete_rows,
}
use milter_guard.Reputation.Rejection.{
  drop_expired_repeat, upsert, newest_strikes, add_strike, record_rejection,
}
use milter_guard.Reputation.Rejection.Laws.{
  IsStoredAs, record_rejection-IsStored, record_rejection-le, record_rejection-repeats,
}
use milter_guard.Reputation.Blocks.{
  ActiveBlock, read_active_block, manual_block, put_block, add_manual_block, delete_block,
}
use milter_guard.Reputation.Blocks.Reads.{add_manual_block-read_active_block}
use milter_guard.Reputation.Cleanup.{
  unblocked, short_blocked, repeat_blocked, enforce_capacity, cleanup,
}
use milter_guard.Reputation.Cleanup.Capacity.{enforce_capacity-counts, count}
use milter_guard.Reputation.Cleanup.Purge.{IsCurrent, cleanup_lem}

abbrev policy : Options
policy = record {
  short_duration = 10_000_000;
  repeat_threshold = 2;
  repeat_window = 100_000_000;
  repeat_duration = 1_000_000_000;
  refresh_on_attempt = true;
  legitimate_per_strike = 3;
  max_size = 2;
}

-- An address with a short block and one strike, and one with nothing.
abbrev struck : Row
struck = record {
  id = 1;
  ip = 7;
  block = some (record { level = short; until_ms = 60 });
  legitimate_count = 1;
  last_activity = 50;
}

abbrev plain : Row
plain = record { id = 2; ip = 8; block = none; legitimate_count = 0; last_activity = 40 }

abbrev third : Row
third = record { id = 3; ip = 9; block = none; legitimate_count = 0; last_activity = 41 }

abbrev table : Database
table = record {
  rows = struck ∷ plain ∷ third ∷ [];
  strikes = (record { id = 1; row = 1; struck_at = 50 }) ∷ [];
}

policy-enabled : enabled policy ≡ true
unfolding enabled
policy-enabled = refl

struck_found : find_row 7 table.rows ≡ some struck
unfolding find_row
struck_found = refl

record_rejection-IsStored_example :
    let (report, db') = record_rejection policy (some 7) 55_000_400 table in
    (r : Row) × (find_row 7 db'.rows ≡ some r)
    × IsStoredAs report.block r.block
    × (strike_count r.id db' ≡ report.strikes)
    × (r.legitimate_count ≡ 0)
record_rejection-IsStored_example =
    record_rejection-IsStored policy 7 55_000_400 table policy-enabled

record_rejection-le_example :
    (b : Block) × ((record_rejection policy (some 7) 55_000_400 table).0.block ≡ some b)
    × (60_000_000 ≤ b.until)
record_rejection-le_example =
    record_rejection-le policy 7 55_000_400 table struck (record { level = short; until_ms = 60 })
      policy-enabled struck_found refl (omega arith)

-- The second strike reaches the threshold.
second_strike : (record_rejection policy (some 7) 55_000_400 table).0.strikes ≡ 2
unfolding record_rejection enabled drop_expired_repeat delete_rows upsert find_row update_row
    add_strike newest_strikes select sort insert_row some_row
second_strike = refl

record_rejection-repeats_example :
    ((record_rejection policy (some 7) 55_000_400 table).0.strikes ≡ 2)
    × ((b : Block) × ((record_rejection policy (some 7) 55_000_400 table).0.block ≡ some b)
        × (55_000_400 + 1_000_000_000 ≤ b.until))
record_rejection-repeats_example =
    record_rejection-repeats policy 7 55_000_400 table policy-enabled (omega arith)
      (omega (arith, second_strike))

abbrev manual : Block
manual = record { level = repeat; until = 1_055_000_400 }

abbrev blocked_table : Database
blocked_table = record {
  rows =
      struck
      ∷ (record {
        id = 2;
        ip = 8;
        block = some (record { level = repeat; until_ms = 1055 });
        legitimate_count = 0;
        last_activity = 55;
      })
      ∷ third
      ∷ [];
  strikes = (record { id = 1; row = 1; struck_at = 50 }) ∷ [];
}

adds : add_manual_block policy (some 8) 55_000_400 table ≡ some (manual, blocked_table)
unfolding add_manual_block enabled manual_block put_block find_row update_row
adds = refl

add_manual_block-read_active_block_example :
    (a : ActiveBlock) × (read_active_block policy 8 55_000_400 blocked_table ≡ some a)
    × (a.block.level ≡ repeat)
    × (55_000_400 < a.block.until)
    × (a.block.until ≤ 1_055_000_400)
    × (1_055_000_400 < a.block.until + 1_000_000)
add_manual_block-read_active_block_example =
    add_manual_block-read_active_block policy 8 55_000_400 table blocked_table manual adds
      (omega arith)

abbrev without_struck : Database
without_struck = record { rows = plain ∷ third ∷ []; strikes = [] }

deletes : delete_block (some 7) table ≡ some (true, without_struck)
unfolding delete_block delete_rows select some_row
deletes = refl

enforce_capacity-counts_example :
    let (removed, db') = enforce_capacity policy table in
    let excess = length table.rows - 2 in
    (length db'.rows ≡ min (length table.rows) 2)
    × (removed ≡ excess)
    × (count unblocked db' ≡ count unblocked table - excess)
    × (count short_blocked db' ≡ count short_blocked table - (excess - count unblocked table))
    × (count repeat_blocked db'
        ≡ count repeat_blocked table - (excess - count unblocked table - count short_blocked table))
enforce_capacity-counts_example = enforce_capacity-counts policy table

cleanup_lem_example :
    IsCurrent policy 70_000_000 (cleanup policy 70_000_000 table).1
    × (length (cleanup policy 70_000_000 table).1.rows ≤ 2)
cleanup_lem_example = cleanup_lem policy 70_000_000 table policy-enabled
