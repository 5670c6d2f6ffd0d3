-- ===== src/Reputation/Cleanup/Capacity.antt =====
-- internal/stores/sqlite/ip_reputation.go: the number of rows that a cleanup leaves.
use milter_guard.Prelude.{
  ℕ, ◌+◌, ◌-◌, Bool, true, false, not, List, [], ◌∷◌, ◌≡◌, refl, ap, ◌∙◌, arith, length, min, drop,
  length-append, length-drop, append-nil,
}
use milter_guard.Prelude.Rows.{
  select, sort, All, length-sort, length-select-not, select-append, select-eq-nil, select-select,
  select-eq_self, select-All, All-sort, All-drop, All-map,
}
use milter_guard.Reputation.Store.{Row, Database, Options}
use milter_guard.Reputation.Cleanup.{
  unblocked, short_blocked, repeat_blocked, staler, evict, enforce_capacity,
}

abbrev pub count : (Row → Bool) → Database → ℕ
count kind db = length (select kind db.rows)

-- The rows are of three kinds.
kinds :
    (rows : List Row)
    → length (select unblocked rows)
        + length (select short_blocked rows)
        + length (select repeat_blocked rows)
      ≡ length rows
unfolding select
kinds [] = refl
kinds (r ∷ rs) = ground (arith, kinds rs)

evict-length :
    (kind : Row → Bool) (excess : ℕ) (db : Database)
    → length (evict kind excess db).rows + min excess (count kind db) ≡ length db.rows
unfolding evict
evict-length kind excess db = omega (
  arith,
  length-append {0} (drop excess (sort staler (select kind db.rows)))
      (select (λ r. not (kind r)) db.rows),
  length-drop {0} excess (sort staler (select kind db.rows)),
  length-sort {0} staler (select kind db.rows),
  length-select-not {0} kind db.rows,
)

-- Another kind is not touched.
evict-count :
    (kind other : Row → Bool) (excess : ℕ) (db : Database)
    → ((r : Row) → other r ≡ true → not (kind r) ≡ true)
    → ((r : Row) → kind r ≡ true → other r ≡ false)
    → select other (evict kind excess db).rows ≡ select other db.rows
unfolding evict
evict-count kind other excess db apart apart' =
    select-append other (drop excess (sort staler (select kind db.rows)))
      (select (λ r. not (kind r)) db.rows)
    ∙ rw (select-eq-nil other (drop excess (sort staler (select kind db.rows))) none_of)
        (select-select other (λ r. not (kind r)) db.rows apart)
  where
    none_of : All (λ r. other r ≡ false) (drop excess (sort staler (select kind db.rows)))
    none_of = All-drop _ excess (sort staler (select kind db.rows)) (
        All-sort _ staler (select kind db.rows)
          (All-map _ _ (select kind db.rows) apart' (select-All kind db.rows)))

not-eq-true : (b : Bool) → not b ≡ true → b ≡ false
not-eq-true true h = cc
not-eq-true false h = refl

evict_self :
    (kind : Row → Bool) (excess : ℕ) (db : Database)
    → count kind (evict kind excess db) ≡ count kind db - excess
unfolding evict
evict_self kind excess db =
    let stale = sort staler (select kind db.rows) in
    let others = select (λ r. not (kind r)) db.rows in
    let kept : select kind (drop excess stale) ≡ drop excess stale =
      select-eq_self kind (drop excess stale) (
        All-drop _ excess stale
          (All-sort _ staler (select kind db.rows) (select-All kind db.rows))) in
    let gone : select kind others ≡ [] = select-eq-nil kind others (
      All-map _ _ others (λ r h. not-eq-true (kind r) h)
        (select-All (λ r. not (kind r)) db.rows)) in
    ap length (select-append kind (drop excess stale) others)
    ∙ rw (kept, gone)
        (omega (
          arith,
          ap length (append-nil (drop excess stale)),
          length-drop {0} excess stale,
          length-sort {0} staler (select kind db.rows),
        ))

abbrev Apart : (Row → Bool) → (Row → Bool) → Type 0
Apart kind other =
    ((r : Row) → other r ≡ true → not (kind r) ≡ true)
    × ((r : Row) → kind r ≡ true → other r ≡ false)

unblocked-short : Apart unblocked short_blocked
unblocked-short = ((λ r h. ground arith), λ r h. ground arith)

unblocked-repeat : Apart unblocked repeat_blocked
unblocked-repeat = ((λ r h. ground arith), λ r h. ground arith)

short-repeat : Apart short_blocked repeat_blocked
short-repeat = ((λ r h. ground arith), λ r h. ground arith)

short-unblocked : Apart short_blocked unblocked
short-unblocked = ((λ r h. ground arith), λ r h. ground arith)

repeat-unblocked : Apart repeat_blocked unblocked
repeat-unblocked = ((λ r h. ground arith), λ r h. ground arith)

repeat-short : Apart repeat_blocked short_blocked
repeat-short = ((λ r h. ground arith), λ r h. ground arith)

other-count :
    (kind other : Row → Bool) (excess : ℕ) (db : Database)
    → Apart kind other
    → count other (evict kind excess db) ≡ count other db
other-count kind other excess db h = ap length (evict-count kind other excess db h.0 h.1)

-- Too many rows are cut down to the limit exactly, and the rows removed are counted; a table within
-- the limit keeps its rows. Rows with no block go first, then those with a short block, and those
-- with a repeat block only for what is then left to remove.
pub enforce_capacity-counts :
    (o : Options) (db : Database)
    → let (removed, db') = enforce_capacity o db in
      let excess = length db.rows - o.max_size in
      (length db'.rows ≡ min (length db.rows) o.max_size)
      × (removed ≡ excess)
      × (count unblocked db' ≡ count unblocked db - excess)
      × (count short_blocked db' ≡ count short_blocked db - (excess - count unblocked db))
      × (count repeat_blocked db'
          ≡ count repeat_blocked db - (excess - count unblocked db - count short_blocked db))
unfolding enforce_capacity
enforce_capacity-counts o db =
    let ex = length db.rows - o.max_size in
    let u = count unblocked db in
    let db₁ = evict unblocked ex db in
    let ex₁ = ex - min ex u in
    let s = count short_blocked db₁ in
    let db₂ = evict short_blocked ex₁ db₁ in
    let ex₂ = ex₁ - min ex₁ s in
    let r = count repeat_blocked db₂ in
    let all = kinds db.rows in
    let s_is = other-count unblocked short_blocked ex db unblocked-short in
    let r₁ = other-count unblocked repeat_blocked ex db unblocked-repeat in
    let r₂ = other-count short_blocked repeat_blocked ex₁ db₁ short-repeat in
    let u₁ = evict_self unblocked ex db in
    let u₂ = other-count short_blocked unblocked ex₁ db₁ short-unblocked in
    let u₃ = other-count repeat_blocked unblocked ex₂ db₂ repeat-unblocked in
    let s₂ = evict_self short_blocked ex₁ db₁ in
    let s₃ = other-count repeat_blocked short_blocked ex₂ db₂ repeat-short in
    let r₃ = evict_self repeat_blocked ex₂ db₂ in
    let l₁ = evict-length unblocked ex db in
    let l₂ = evict-length short_blocked ex₁ db₁ in
    let l₃ = evict-length repeat_blocked ex₂ db₂ in
    (omega arith, omega arith, omega arith, omega arith, omega arith)
