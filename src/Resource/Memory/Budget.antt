-- ===== src/Resource/Memory/Budget.antt =====
-- internal/resourceguard/memory.go: the charge of one call, as plain arithmetic.
use milter_guard.Prelude.{ℕ, ◌+◌, ◌≤◌, true, false, some, ◌≡◌, arith, leb, if◌then◌else◌}
use milter_guard.Prelude.Int.{pos, max_int64, +ℤ-pos, -ℤ-pos}
use milter_guard.Resource.Memory.{
  Memory, returns, terminates, memory_exceeded, reserve, try_reserve, record_usage,
}

-- A budget of `l` bytes of which `u` are charged.
abbrev pub budget : ℕ → ℕ → Memory
budget l u = record { limit = pos l; used = pos u; exhausted = false }

module _ (l u b : ℕ) (within : u ≤ l) (small : l ≤ max_int64) where
  -- On a budget with an int64 limit that its charges are within, `Reserve` admits a request exactly
  -- when it fits what is left, and then charges it whole;
  -- otherwise it exhausts the budget with its charges unchanged and ends the stage with the limit.
  -- No sum wraps.
  pub reserve-budget : reserve (pos b) (some (budget l u)) ≡ (
      if leb (u + b) l
      then returns tt (some (budget l (u + b)))
      else terminates
          (record { code = memory_exceeded; limit = pos l })
          (some (record { limit = pos l; used = pos u; exhausted = true })))
  unfolding reserve
  reserve-budget = ground (arith, +ℤ-pos u b, -ℤ-pos l u)

  -- On such a budget `TryReserve` admits exactly what `Reserve` would, and declines the rest with no
  -- change at all.
  pub try_reserve-budget : try_reserve (pos b) (some (budget l u)) ≡ (
      if leb (u + b) l
      then returns true (some (budget l (u + b)))
      else returns false (some (budget l u)))
  unfolding try_reserve
  try_reserve-budget = ground (arith, +ℤ-pos u b, -ℤ-pos l u)

  -- On such a budget `RecordUsage` charges what fits, and an overrun exhausts the budget with its
  -- charges unchanged.
  pub record_usage-budget : record_usage (pos b) (some (budget l u)) ≡ (
      if leb (u + b) l
      then some (budget l (u + b))
      else some (record { limit = pos l; used = pos u; exhausted = true }))
  unfolding record_usage
  record_usage-budget = ground (arith, +ℤ-pos u b, -ℤ-pos l u)
