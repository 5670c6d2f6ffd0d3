-- ===== src/Resource/Table/Charges.antt =====
-- internal/resourceguard/table.go: what a table holds, and what its growth is charged.
use milter_guard.Prelude.{
  ℕ, suc, ◌+◌, ◌-◌, ◌*◌, ◌≤◌, Bool, true, false, none, some, List, [], ◌∷◌, ◌≡◌, refl, arith, leb,
  if◌then◌else◌, length, inl, inr, Bool-cases,
}
use milter_guard.Prelude.Int.{pos, max_int64, +ℤ-pos}
use milter_guard.Resource.Memory.{Ledger, returns, terminates, memory_exceeded, unavailable}
use milter_guard.Resource.Memory.Budget.{budget, reserve-budget, try_reserve-budget}
use milter_guard.Resource.Table.{
  Eq, Table, table_base_bytes, table_entry_bytes, find, assign, items, is_nil, get, set_cost,
  insert, set,
}

-- The number of entries is within the high-water mark, and a nil table has neither.
abbrev pub IsCounted : {K V : Type 0} → Table K V → Type 0
IsCounted t = elim t.entries [ none ↦ t.high_water ≡ 0 | some l ↦ length l ≤ t.high_water ]

-- What a table has been charged in all.
abbrev pub footprint : {K V : Type 0} → ℕ → ℕ → Table K V → ℕ
footprint key_size value_size t =
    (if is_nil t.entries then 0 else table_base_bytes key_size value_size)
    + t.high_water * table_entry_bytes key_size value_size

module _ {K V : Type 0} ⦃eq : Eq K⦄ where
  find-assign :
      (k j : K) (v : V) (l : List (K × V))
      → find j (assign k v l) ≡ (if eq.same k j then some v else find j l)
  unfolding find assign
  find-assign k j v [] = refl
  find-assign k j v ((i, w) ∷ rest) =
      ground (arith, eq.same_iff i k, eq.same_iff i j, eq.same_iff k j, find-assign k j v rest)

  length-assign :
      (k : K) (v : V) (l : List (K × V)) → find k l ≡ none → length (assign k v l) ≡ suc (length l)
  unfolding find assign
  length-assign k v [] h = refl
  length-assign k v ((i, w) ∷ rest) h = ground (arith, length-assign k v rest)

  -- An entry that is admitted is found under its key, and every other key reads as before.
  pub get-set :
      (key_size value_size : ℕ) (t t' : Table K V) (k j : K) (v : V) (optional : Bool)
      (m m' : Ledger)
      → set key_size value_size t k v optional m ≡ returns (t', true) m'
      → get t' j ≡ (if eq.same k j then some v else get t j)
  unfolding set get insert
  get-set key_size value_size t t' k j v optional m m' h =
      ground (arith, find-assign k j v (items t.entries))

  insert-IsCounted : (t : Table K V) (k : K) (v : V) → IsCounted (insert k v t)
  unfolding insert
  insert-IsCounted t k v = ground arith

  insert-high_water :
      (t : Table K V) (k : K) (v : V)
      → IsCounted t
      → get t k ≡ none
      → (insert k v t).high_water
        ≡ t.high_water + (if leb t.high_water (length (items t.entries)) then 1 else 0)
  unfolding get insert
  insert-high_water t k v c absent = ground (arith, length-assign k v (items t.entries) absent)

  -- The growth of the footprint is the cost that `set` asks for, computed with no wrap.
  footprint-insert :
      (base entry : ℕ) (t : Table K V) (k : K) (v : V)
      → IsCounted t
      → get t k ≡ none
      → (if is_nil (insert k v t).entries then 0 else base) + (insert k v t).high_water * entry
        ≡ (if is_nil t.entries then 0 else base)
          + t.high_water * entry
          + ((if is_nil t.entries then base else 0)
              + (if leb t.high_water (length (items t.entries)) then entry else 0))
  footprint-insert base entry t k v c absent =
      rw (insert-high_water t k v c absent)
        (elim (Bool-cases (leb t.high_water (length (items t.entries)))) [
          | inl full ↦ rw full (unfold insert in ground arith)
          | inr room ↦ rw room (unfold insert in ground arith)
        ])

  abbrev cost : ℕ → ℕ → Table K V → ℕ
  cost key_size value_size t =
      (if is_nil t.entries then table_base_bytes key_size value_size else 0)
      + (if leb t.high_water (length (items t.entries))
          then table_entry_bytes key_size value_size
          else 0)

  set_cost-pos :
      (key_size value_size : ℕ) (t : Table K V)
      → table_base_bytes key_size value_size + table_entry_bytes key_size value_size ≤ max_int64
      → set_cost key_size value_size t ≡ pos (cost key_size value_size t)
  unfolding set_cost
  set_cost-pos key_size value_size t small =
      let base = table_base_bytes key_size value_size in
      let entry = table_entry_bytes key_size value_size in
      ground (arith, +ℤ-pos base entry, +ℤ-pos base 0, +ℤ-pos 0 entry, +ℤ-pos 0 0)

  module _ (key_size value_size l u : ℕ) (t : Table K V) (k : K) (v : V) (counted : IsCounted t)
      (absent : get t k ≡ none) (within : u ≤ l) (small : l ≤ max_int64)
      (sizes : table_base_bytes key_size value_size + table_entry_bytes key_size value_size
        ≤ max_int64) where
    growth :
        footprint key_size value_size (insert k v t) - footprint key_size value_size t
        ≡ cost key_size value_size t
    growth = omega (
      arith,
      footprint-insert (table_base_bytes key_size value_size)
          (table_entry_bytes key_size value_size) t k v counted absent,
    )

    -- Under a budget with an int64 limit that its charges are within, for a table that counts its
    -- entries and element sizes whose first charge fits an int64: a new key is admitted exactly when
    -- the growth of the table's footprint fits the budget, which
    -- is then charged that growth and no more. Otherwise `Set` ends the stage, and `TrySet` declines
    -- with the table and the budget as they were.
    pub set-charges :
        (optional : Bool)
        → let paid = footprint key_size value_size t in
          let next = footprint key_size value_size (insert k v t) in
          set key_size value_size t k v optional (some (budget l u)) ≡ (
            if leb (u + (next - paid)) l
            then returns (insert k v t, true) (some (budget l (u + (next - paid))))
            else (if optional
                then returns (t, false) (some (budget l u))
                else terminates
                    (record { code = memory_exceeded; limit = pos l })
                    (some (record { limit = pos l; used = pos u; exhausted = true }))))
    unfolding set unavailable
    set-charges true = rw growth (
        ground (
          arith,
          set_cost-pos key_size value_size t sizes,
          try_reserve-budget l u (cost key_size value_size t) within small,
        ))
    set-charges false = rw growth (
        ground (
          arith,
          set_cost-pos key_size value_size t sizes,
          reserve-budget l u (cost key_size value_size t) within small,
        ))
