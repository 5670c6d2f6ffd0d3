-- ===== src/Reputation/Blocks/Reads.antt =====
-- internal/stores/sqlite/ip_reputation.go: what is read of an address after a change by hand.
use milter_guard.Prelude.{
  ℕ, suc, ◌+◌, ◌≤◌, ◌<◌, Bool, none, some, ◌≡◌, inl, inr, refl, sym, arith, length, ◌&&◌,
  Option-cases,
}
use milter_guard.Prelude.Rows.{select}
use milter_guard.Reputation.Store.{
  Block, StoredBlock, stored, reported, unix_millis, Row, Database, Options, row_ids, of_row,
  find_row, delete_rows,
}
use milter_guard.Reputation.Store.Finds.{find_row-update_row, find_row-cons, find_row-gone}
use milter_guard.Reputation.Blocks.{
  ActiveBlock, counts, read_active_block, manual_block, put_block, add_manual_block, delete_block,
}

put_block-find_row :
    (ip now : ℕ) (b : Block) (db : Database)
    → (r : Row) × (find_row ip (put_block ip now b db).rows ≡ some r) × (r.block ≡ some (stored b))
unfolding put_block
put_block-find_row ip now b db = elim (Option-cases (find_row ip db.rows)) [
  | inl e ↦
      let fresh : Row = record {
        id = suc (row_ids db.rows);
        ip = ip;
        block = some (stored b);
        legitimate_count = 0;
        last_activity = unix_millis now;
      } in
      (fresh, rw (e, put_block) (find_row-cons ip fresh db.rows refl), refl)
  | inr (r, e) ↦
      let put : Row → Row = λ x. record x {
        block = some (stored b);
        legitimate_count = 0;
        last_activity = unix_millis now;
      } in
      (put r, rw (e, put_block) (find_row-update_row ip db.rows r put e (λ x. refl)), refl)
]

add_manual_block-cases :
    (o : Options) (ip now : ℕ) (db db' : Database) (b : Block)
    → add_manual_block o (some ip) now db ≡ some (b, db')
    → (manual_block o now ≡ some b) × (put_block ip now b db ≡ db')
unfolding add_manual_block
add_manual_block-cases o ip now db db' b h = ground (arith, h)

read-running :
    (o : Options) (ip now : ℕ) (db : Database) (r : Row) (b : StoredBlock)
    → find_row ip db.rows ≡ some r
    → r.block ≡ some b
    → unix_millis now < b.until_ms
    → (a : ActiveBlock) × (read_active_block o ip now db ≡ some a) × (a.block ≡ reported b)
unfolding read_active_block
read-running o ip now db r b found held runs = (
  record {
    block = reported b;
    strikes = length (select (λ s. of_row r.id s && counts o now s) db.strikes);
  },
  ground (arith, found, held, runs),
  refl,
)

-- Where a block added by hand lasts a millisecond at least, a block is read for the address at the
-- time of the call, whatever the address had before: it has the level of the one that was returned,
-- runs after that time, and ends with the one that was returned or less than a millisecond before it.
pub add_manual_block-read_active_block :
    (o : Options) (ip now : ℕ) (db db' : Database) (b : Block)
    → add_manual_block o (some ip) now db ≡ some (b, db')
    → now + 1_000_000 ≤ b.until
    → (a : ActiveBlock) × (read_active_block o ip now db' ≡ some a)
      × (a.block.level ≡ b.level)
      × (now < a.block.until)
      × (a.block.until ≤ b.until)
      × (b.until < a.block.until + 1_000_000)
add_manual_block-read_active_block o ip now db db' b h lasts =
    let (earned, put) = add_manual_block-cases o ip now db db' b h in
    let (r, found, held) = put_block-find_row ip now b db in
    let (a, read, same) =
      read-running o ip now (put_block ip now b db) r (stored b) found held (omega arith) in
    (
      a,
      rw (sym put) read,
      rw same refl,
      rw same omega arith,
      rw same omega arith,
      rw same omega arith,
    )

-- After a deletion no block is read for the address, at any time.
pub delete_block-read_active_block :
    (o : Options) (ip now : ℕ) (db db' : Database) (found : Bool)
    → delete_block (some ip) db ≡ some (found, db')
    → read_active_block o ip now db' ≡ none
unfolding delete_block delete_rows read_active_block
delete_block-read_active_block o ip now db db' found h = ground (arith, h, find_row-gone ip db.rows)
