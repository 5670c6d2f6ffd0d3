-- ===== src/Resource/Table.antt =====
-- internal/resourceguard/table.go, and from internal/resourceguard/storage.go the checked size.
-- A Go map is an association list with distinct keys; nil is none. `key_size` and `value_size` are
-- what `unsafe.Sizeof` gives for the key and the value type.
pub mod Charges
use milter_guard.Prelude.{
  ℕ, ◌+◌, ◌*◌, ◌/◌, ◌<◌, ◌^◌, Bool, true, false, ◌||◌, ◌&&◌, not, Option, none, some, List, [], ◌∷◌,
  ltb, leb, ◌==◌, ◌≡◌, ◌↔◌, if◌then◌else◌, length, max,
}
use milter_guard.Prelude.Int.{ℤ, pos, negsuc, pos_part, ltb_ℤ, leb_ℤ, ◌+ℤ◌, ◌-ℤ◌, wrap, max_int64}
use milter_guard.Resource.Memory.{
  Ledger, Ends, returns, terminates, panics, unavailable, reserve, try_reserve, ◌>>=◌, ◌>>◌, pure,
  panic,
}

-- `==` on the keys.
pub record Eq (K : Type 0) : Type 0 where
  pub same : K → K → Bool
  pub same_iff : (i j : K) → (same i j ≡ true) ↔ (i ≡ j)

pub record Table (K V : Type 0) : Type 0 where
  pub entries : Option (List (K × V))
  pub high_water : ℕ

-- `storageBytes`: the count is an int, so a product that is returned fits an int.
unfoldable pub storage_bytes : ℤ → ℕ → Option ℤ
storage_bytes (negsuc n) size = none
storage_bytes (pos n) size =
    if not (size == 0) && ltb (max_int64 / size) n then none else some (pos (n * size))

-- The sizes of Go types are small numbers: neither sum comes near the bounds of an int64.
abbrev pub table_base_bytes : ℕ → ℕ → ℕ
table_base_bytes key_size value_size = 128 + 8 * (key_size + value_size)

abbrev pub table_entry_bytes : ℕ → ℕ → ℕ
table_entry_bytes key_size value_size = 4 * (key_size + value_size) + 64

abbrev pub is_nil : {A : Type 0} → Option A → Bool
is_nil none = true
is_nil (some l) = false

-- A nil map reads as an empty one.
abbrev pub items : {A : Type 0} → Option (List A) → List A
items none = []
items (some l) = l

module _ {K V : Type 0} ⦃eq : Eq K⦄ where
  unfoldable pub find : K → List (K × V) → Option V
  find k [] = none
  find k ((j, v) ∷ rest) = if eq.same j k then some v else find k rest

  unfoldable pub assign : K → V → List (K × V) → List (K × V)
  assign k v [] = (k, v) ∷ []
  assign k v ((j, w) ∷ rest) = if eq.same j k then (k, v) ∷ rest else (j, w) ∷ assign k v rest

  unfoldable pub get : Table K V → K → Option V
  get t k = find k (items t.entries)

  -- What `set` asks of the budget for a key that is not there.
  unfoldable pub set_cost : ℕ → ℕ → Table K V → ℤ
  set_cost key_size value_size t =
      (if is_nil t.entries then pos (table_base_bytes key_size value_size) else pos 0)
      +ℤ (if leb t.high_water (length (items t.entries))
          then pos (table_entry_bytes key_size value_size)
          else pos 0)

  abbrev overwrite : K → V → Table K V → Table K V
  overwrite k v t = record t { entries = some (assign k v (items t.entries)) }

  unfoldable pub insert : K → V → Table K V → Table K V
  insert k v t =
      let l = assign k v (items t.entries) in
      record t { entries = some l; high_water = max t.high_water (length l) }

  -- `Set` and `TrySet`: the table after the call, and whether the entry was admitted.
  unfoldable pub set : ℕ → ℕ → Table K V → K → V → Bool → Ledger → Ends (Table K V × Bool)
  set key_size value_size t k v optional =
      unavailable
      >> (if not (is_nil (get t k))
          then pure (overwrite k v t, true)
          else if optional
          then (try_reserve (set_cost key_size value_size t) >>= λ fits.
              if fits then pure (insert k v t, true) else pure (t, false))
          else (reserve (set_cost key_size value_size t) >> pure (insert k v t, true)))

  unfoldable pub reset : Table K V → Table K V
  reset t = elim t.entries [ none ↦ t | some l ↦ record t { entries = some [] } ]

  unfoldable pub release : Table K V → Table K V
  release t = record { entries = none; high_water = 0 }

  -- `Init`: the table that is admitted for `count` entries.
  unfoldable pub init : ℕ → ℕ → ℤ → Ledger → Ends (Table K V)
  init key_size value_size count =
      let base = pos (table_base_bytes key_size value_size) in
      elim (storage_bytes count (table_entry_bytes key_size value_size)) [
        | none ↦ panic
        | some size ↦
            if ltb_ℤ (pos max_int64 -ℤ base) size
            then panic
            else (reserve (size +ℤ base)
                >> pure (record { entries = some []; high_water = pos_part count }))
      ]
