-- ===== src/Reputation/Rejection/Laws.antt =====
-- internal/stores/sqlite/ip_reputation.go: what a rejection records, and what is reported of it.
use milter_guard.Prelude.{
  ℕ, suc, ◌+◌, ◌*◌, ◌≤◌, ◌<◌, Bool, true, false, not, ◌&&◌, Option, none, some, List, [], ◌∷◌, ◌++◌,
  ◌≡◌, inl, inr, refl, ◌∙◌, arith, length, take, ltb, ◌==◌, length-append, length-take,
  Option-cases, Bool-cases,
}
use milter_guard.Prelude.Rows.{
  select, sort, select-All, All-map, select-append, select-eq-nil, length-select-le,
}
use milter_guard.Reputation.Store.{
  repeat, Block, StoredBlock, reported, unix_millis, time_from_millis, Row, Strike, Database,
  Options, enabled, strike_ids, row_ids, of_row, strike_count, find_row, delete_rows,
  delete_strikes, newer, recent,
}
use milter_guard.Reputation.Store.Finds.{
  find_row-update_row, find_row-cons, find_row-ip, find_row-select,
}
use milter_guard.Reputation.Rejection.{
  outlasts, repeat_expired, drop_expired_repeat, upsert, newest_strikes, add_strike, earned_block,
  merge_block, stored_columns, record_rejection,
}

not-eq-true : (b : Bool) → not b ≡ true → b ≡ false
not-eq-true true h = cc
not-eq-true false h = refl

-- Of the rows of an id and the rest, the id's strikes are the first ones.
kept-le :
    (id n : ℕ) (ks ss : List Strike)
    → length ks ≤ n
    → length (select (of_row id) (ks ++ select (λ s. not (of_row id s)) ss)) ≤ n
kept-le id n ks ss h =
    let rest : select (of_row id) (select (λ s. not (of_row id s)) ss) ≡ [] =
      select-eq-nil (of_row id) (select (λ s. not (of_row id s)) ss) (
        All-map (λ s. not (of_row id s) ≡ true) (λ s. of_row id s ≡ false)
          (select (λ s. not (of_row id s)) ss) (λ s. not-eq-true (of_row id s))
          (select-All (λ s. not (of_row id s)) ss)) in
    grind (
      arith,
      select-append (of_row id) ks (select (λ s. not (of_row id s)) ss),
      rest,
      length-append (select (of_row id) ks) [],
      length-select-le (of_row id) ks,
      h,
    )

-- No more strikes count than the threshold.
add_strike-le :
    (o : Options) (id now : ℕ) (db : Database)
    → strike_count id (add_strike o id now db) ≤ o.repeat_threshold
unfolding add_strike newest_strikes delete_strikes
add_strike-le o id now db =
    let strike : Strike = record {
      id = suc (strike_ids db.strikes);
      row = id;
      struck_at = unix_millis now;
    } in
    let in_window : List Strike =
      sort newer (select (λ s. of_row id s && recent o now s) (strike ∷ db.strikes)) in
    elim (Bool-cases (ltb 0 o.repeat_threshold)) [
      | inl e ↦ rw e (
          kept-le id o.repeat_threshold (take o.repeat_threshold in_window) db.strikes
            (omega (arith, length-take o.repeat_threshold in_window)))
      | inr e ↦ rw e (kept-le id o.repeat_threshold [] db.strikes (omega arith))
    ]

upsert-find_row :
    (ip now : ℕ) (db : Database) → find_row ip (upsert ip now db).1.rows ≡ some (upsert ip now db).0
unfolding upsert
upsert-find_row ip now db = elim (Option-cases (find_row ip db.rows)) [
  | inl e ↦
      rw (e, upsert)
        (find_row-cons ip
          (record {
            id = suc (row_ids db.rows);
            ip = ip;
            block = none;
            legitimate_count = 0;
            last_activity = unix_millis now;
          })
          db.rows refl)
  | inr (r, e) ↦
      rw (e, upsert)
        (find_row-update_row ip db.rows r
          (λ x. record x { legitimate_count = 0; last_activity = unix_millis now }) e (λ x. refl))
]

upsert-ip : (ip now : ℕ) (db : Database) → (upsert ip now db).0.ip ≡ ip
upsert-ip ip now db =
    find_row-ip ip (upsert ip now db).1.rows (upsert ip now db).0 (upsert-find_row ip now db)

add_strike-rows :
    (o : Options) (id now : ℕ) (db : Database) → (add_strike o id now db).rows ≡ db.rows
unfolding add_strike delete_strikes
add_strike-rows o id now db = ground arith

-- A reported block and the columns of a row: the same level, and an end that differs by less than a
-- millisecond, the column's first; or no block in both.
abbrev pub IsStoredAs : Option Block → Option StoredBlock → Type 0
IsStoredAs none none = Unit
IsStoredAs none (some b) = ⊥
IsStoredAs (some a) none = ⊥
IsStoredAs (some a) (some b) =
    (b.level ≡ a.level)
    × (b.until_ms * 1_000_000 ≤ a.until)
    × (a.until < (b.until_ms + 1) * 1_000_000)

stored_columns-IsStoredAs : (block : Option Block) → IsStoredAs block (stored_columns block)
stored_columns-IsStoredAs none = tt
stored_columns-IsStoredAs (some b) = (refl, omega arith, omega arith)

-- After a rejection with the store enabled the address finds a row that holds what was reported: no
-- block where none is reported, and else its level and its end, which the row rounds down to the
-- millisecond. The strikes of that row are as many as reported, and its credit starts again.
pub record_rejection-IsStored :
    (o : Options) (ip now : ℕ) (db : Database)
    → enabled o ≡ true
    → let (report, db') = record_rejection o (some ip) now db in
      (r : Row) × (find_row ip db'.rows ≡ some r)
      × IsStoredAs report.block r.block
      × (strike_count r.id db' ≡ report.strikes)
      × (r.legitimate_count ≡ 0)
unfolding record_rejection
record_rejection-IsStored o ip now db on =
    let db₁ : Database = drop_expired_repeat ip now db in
    let row : Row = (upsert ip now db₁).0 in
    let db₂ : Database = (upsert ip now db₁).1 in
    let strikes : ℕ = strike_count row.id (add_strike o row.id now db₂) in
    let block : Option Block = merge_block now row.block (earned_block o now strikes) in
    let final : Row → Row = λ r. record r {
      block = stored_columns block;
      legitimate_count = 0;
      last_activity = unix_millis now;
    } in
    rw on (
      final row,
      rw (add_strike-rows o row.id now db₂)
          (find_row-update_row ip db₂.rows row final (upsert-find_row ip now db₁) (λ x. refl)),
      stored_columns-IsStoredAs block,
      refl,
      refl,
    )

-- A running block is not what an expired repeat block was.
drop_expired_repeat-keeps :
    (ip now : ℕ) (db : Database) (r : Row) (b : StoredBlock)
    → find_row ip db.rows ≡ some r
    → r.block ≡ some b
    → now < time_from_millis b.until_ms
    → find_row ip (drop_expired_repeat ip now db).rows ≡ some r
unfolding drop_expired_repeat delete_rows
drop_expired_repeat-keeps ip now db r b found held running =
    find_row-select (λ x. not (x.ip == ip && repeat_expired now x)) ip db.rows r found
      (rw held ground arith)

upsert-block :
    (ip now : ℕ) (db : Database) (r : Row)
    → find_row ip db.rows ≡ some r
    → (upsert ip now db).0.block ≡ r.block
unfolding upsert
upsert-block ip now db r found = rw (found, upsert) refl

merge_block-le :
    (now : ℕ) (old : StoredBlock) (earned : Option Block)
    → now < time_from_millis old.until_ms
    → (b : Block) × (merge_block now (some old) earned ≡ some b)
      × (time_from_millis old.until_ms ≤ b.until)
unfolding merge_block
merge_block-le now old none running = (reported old, ground arith, omega arith)
merge_block-le now old (some new) running = elim (Bool-cases (outlasts (reported old) (some new))) [
  | inl e ↦ (reported old, ground (arith, e), omega arith)
  | inr e ↦ (new, ground (arith, e), ground (arith, e))
]

earned-le :
    (now : ℕ) (old : Option StoredBlock) (new : Block)
    → (b : Block) × (merge_block now old (some new) ≡ some b) × (new.until ≤ b.until)
unfolding merge_block
earned-le now none new = (new, refl, omega arith)
earned-le now (some old) new =
    elim (Bool-cases (ltb now (reported old).until && outlasts (reported old) (some new))) [
      | inl e ↦ (reported old, ground (arith, e), ground (arith, e))
      | inr e ↦ (new, ground (arith, e), omega arith)
    ]

earned-repeat :
    (o : Options) (now strikes : ℕ)
    → 0 < o.repeat_threshold
    → o.repeat_threshold ≤ strikes
    → earned_block o now strikes ≡ some (record { level = repeat; until = now + o.repeat_duration })
unfolding earned_block
earned-repeat o now strikes set many = ground arith

-- A rejection with the store enabled never shortens a running block of the address: where its row
-- holds one, a block is reported that ends no earlier.
pub record_rejection-le :
    (o : Options) (ip now : ℕ) (db : Database) (r : Row) (old : StoredBlock)
    → enabled o ≡ true
    → find_row ip db.rows ≡ some r
    → r.block ≡ some old
    → now < time_from_millis old.until_ms
    → (b : Block) × ((record_rejection o (some ip) now db).0.block ≡ some b)
      × (time_from_millis old.until_ms ≤ b.until)
unfolding record_rejection
record_rejection-le o ip now db r old on found held running =
    let db₁ : Database = drop_expired_repeat ip now db in
    let row : Row = (upsert ip now db₁).0 in
    let kept : row.block ≡ some old =
      upsert-block ip now db₁ r (drop_expired_repeat-keeps ip now db r old found held running)
      ∙ held in
    rw (on, kept)
      (merge_block-le now old
        (earned_block o now (strike_count row.id (add_strike o row.id now (upsert ip now db₁).1)))
        running)

-- A rejection with the store enabled after which the strikes reach a threshold that is set: exactly
-- the threshold's number of strikes count, and a block of at least the repeat duration is reported.
pub record_rejection-repeats :
    (o : Options) (ip now : ℕ) (db : Database)
    → enabled o ≡ true
    → 0 < o.repeat_threshold
    → o.repeat_threshold ≤ (record_rejection o (some ip) now db).0.strikes
    → ((record_rejection o (some ip) now db).0.strikes ≡ o.repeat_threshold)
      × ((b : Block) × ((record_rejection o (some ip) now db).0.block ≡ some b)
          × (now + o.repeat_duration ≤ b.until))
unfolding record_rejection
record_rejection-repeats o ip now db on set =
    let db₁ : Database = drop_expired_repeat ip now db in
    let row : Row = (upsert ip now db₁).0 in
    let db₂ : Database = add_strike o row.id now (upsert ip now db₁).1 in
    rw on (λ many. (
      omega (arith, add_strike-le o row.id now (upsert ip now db₁).1, many),
      rw (earned-repeat o now (strike_count row.id db₂) set many)
          (earned-le now row.block (record { level = repeat; until = now + o.repeat_duration })),
    ))
