-- ===== src/Reputation/Cleanup/Purge.antt =====
-- internal/stores/sqlite/ip_reputation.go: what a cleanup leaves.
use milter_guard.Prelude.{
  ℕ, ◌≤◌, Bool, true, false, not, none, some, List, [], ◌∷◌, ◌≡◌, arith, length, drop, ltb,
}
use milter_guard.Prelude.Rows.{
  select, sort, All, select-All, All-select, All-append, All-sort, All-drop, All-map,
}
use milter_guard.Reputation.Store.{
  time_from_millis, Row, Strike, Database, Options, enabled, delete_rows, delete_strikes,
}
use milter_guard.Reputation.Rejection.{repeat_expired}
use milter_guard.Reputation.Cleanup.{
  unblocked, short_blocked, repeat_blocked, staler, evict, enforce_capacity, prune_all,
  clear_expired_short, has_no_evidence, purge, cleanup,
}
use milter_guard.Reputation.Cleanup.Capacity.{enforce_capacity-counts}

-- A block that is there still runs.
abbrev pub RunsOn : ℕ → Row → Type 0
RunsOn now r =
    (elim r.block [ none ↦ true | some b ↦ ltb now (time_from_millis b.until_ms) ]) ≡ true

-- The strike is in the window, and the policy counts strikes at all.
abbrev pub Counts : Options → ℕ → Strike → Type 0
Counts o now s = prune_all o now s ≡ false

-- Every row's block runs, and every strike counts.
abbrev pub IsCurrent : Options → ℕ → Database → Type 0
IsCurrent o now db = All (RunsOn now) db.rows × All (Counts o now) db.strikes

clear_expired_short-RunsOn :
    (now : ℕ) (rows : List Row)
    → All (λ r. not (repeat_expired now r) ≡ true) rows
    → All (RunsOn now) (clear_expired_short now rows)
unfolding clear_expired_short
clear_expired_short-RunsOn now [] h = tt
clear_expired_short-RunsOn now (r ∷ rs) h =
    (ground (arith, h.0), clear_expired_short-RunsOn now rs h.1)

delete_rows-IsCurrent :
    (o : Options) (now : ℕ) (gone : Row → Bool) (db : Database)
    → IsCurrent o now db
    → IsCurrent o now (delete_rows gone db)
unfolding delete_rows
delete_rows-IsCurrent o now gone db h = (All-select _ _ db.rows h.0, All-select _ _ db.strikes h.1)

purge-IsCurrent : (o : Options) (now : ℕ) (db : Database) → IsCurrent o now (purge o now db).1
unfolding purge
purge-IsCurrent o now db =
    let db₁ = delete_strikes (prune_all o now) db in
    let db₂ = delete_rows (repeat_expired now) db₁ in
    let db₃ : Database = record db₂ { rows = clear_expired_short now db₂.rows } in
    delete_rows-IsCurrent o now (has_no_evidence db₃.strikes) db₃ (
      clear_expired_short-RunsOn now db₂.rows (unfold delete_rows in select-All _ db₁.rows),
      unfold delete_rows delete_strikes in
          All-select _ _ db₁.strikes (
            All-map _ _ db₁.strikes (λ s h. ground arith)
              (select-All (λ s. not (prune_all o now s)) db.strikes)),
    )

evict-IsCurrent :
    (o : Options) (now : ℕ) (kind : Row → Bool) (excess : ℕ) (db : Database)
    → IsCurrent o now db
    → IsCurrent o now (evict kind excess db)
unfolding evict
evict-IsCurrent o now kind excess db h = (
  All-append _ (drop excess (sort staler (select kind db.rows))) _
      (All-drop _ excess _ (All-sort _ staler _ (All-select _ kind db.rows h.0)))
      (All-select _ (λ r. not (kind r)) db.rows h.0),
  All-select _ _ db.strikes h.1,
)

enforce_capacity-IsCurrent :
    (o : Options) (now : ℕ) (db : Database)
    → IsCurrent o now db
    → IsCurrent o now (enforce_capacity o db).1
unfolding enforce_capacity
enforce_capacity-IsCurrent o now db h =
    evict-IsCurrent o now repeat_blocked _ _
      (evict-IsCurrent o now short_blocked _ _ (evict-IsCurrent o now unblocked _ db h))

-- After a cleanup of a repository that is enabled no block has run out, every strike is inside the
-- window of a policy that counts strikes, and the number of rows is within the limit.
pub cleanup_lem :
    (o : Options) (now : ℕ) (db : Database)
    → enabled o ≡ true
    → IsCurrent o now (cleanup o now db).1 × (length (cleanup o now db).1.rows ≤ o.max_size)
unfolding cleanup
cleanup_lem o now db on =
    let kept = enforce_capacity-IsCurrent o now (purge o now db).1 (purge-IsCurrent o now db) in
    let sizes = enforce_capacity-counts o (purge o now db).1 in
    rw (on, cleanup) (kept, omega (arith, sizes.0))
