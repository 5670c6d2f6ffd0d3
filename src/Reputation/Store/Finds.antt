-- ===== src/Reputation/Store/Finds.antt =====
-- internal/stores/sqlite/ip_reputation.go: what an address finds in a changed table.
use milter_guard.Prelude.{ℕ, Bool, true, not, none, some, List, [], ◌∷◌, ◌≡◌, refl, arith, ◌==◌}
use milter_guard.Prelude.Rows.{select}
use milter_guard.Reputation.Store.{Row, find_row, update_row}

-- An update of the row that an address finds is what it finds afterwards.
pub find_row-update_row :
    (ip : ℕ) (rows : List Row) (r : Row) (f : Row → Row)
    → find_row ip rows ≡ some r
    → ((x : Row) → (f x).ip ≡ x.ip)
    → find_row ip (update_row r.id f rows) ≡ some (f r)
unfolding find_row update_row
find_row-update_row ip [] r f h k = cc
find_row-update_row ip (x ∷ xs) r f h k = ground (arith, k x, find_row-update_row ip xs r f)

pub find_row-cons :
    (ip : ℕ) (r : Row) (rows : List Row) → r.ip ≡ ip → find_row ip (r ∷ rows) ≡ some r
unfolding find_row
find_row-cons ip r rows h = ground arith

pub find_row-ip : (ip : ℕ) (rows : List Row) (r : Row) → find_row ip rows ≡ some r → r.ip ≡ ip
unfolding find_row
find_row-ip ip [] r h = cc
find_row-ip ip (x ∷ xs) r h = ground (arith, find_row-ip ip xs r)

-- Deleting other rows leaves the row that an address finds.
pub find_row-select :
    (p : Row → Bool) (ip : ℕ) (rows : List Row) (r : Row)
    → find_row ip rows ≡ some r
    → p r ≡ true
    → find_row ip (select p rows) ≡ some r
unfolding find_row select
find_row-select p ip [] r h k = cc
find_row-select p ip (x ∷ xs) r h k = ground (arith, find_row-select p ip xs r)

-- An address finds nothing where its rows are gone.
pub find_row-gone :
    (ip : ℕ) (rows : List Row) → find_row ip (select (λ r. not (r.ip == ip)) rows) ≡ none
unfolding find_row select
find_row-gone ip [] = refl
find_row-gone ip (x ∷ xs) = ground (arith, find_row-gone ip xs)
