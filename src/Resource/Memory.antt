-- ===== src/Resource/Memory.antt =====
-- internal/resourceguard/memory.go, and from internal/termination the failure that ends a stage.
-- A `*Memory` that may be nil is an `Option Memory`. An operation ends normally, by
-- `termination.Fail`, or by a Go panic; the budget behind each end is part of the outcome.
pub mod Budget
pub mod Runs
use milter_guard.Prelude.{ℕ, Bool, true, false, ◌||◌, ◌&&◌, not, Option, none, some, if◌then◌else◌}
use milter_guard.Prelude.Int.{ℤ, pos, ltb_ℤ, leb_ℤ, ◌+ℤ◌, ◌-ℤ◌}

pub data Code : Type 0 where
  cpu_exceeded memory_exceeded cancelled : Code

pub record Failure : Type 0 where
  pub code : Code
  pub limit : ℤ

pub record Memory : Type 0 where
  pub limit : ℤ
  pub used : ℤ
  pub exhausted : Bool

abbrev pub Ledger : Type 0
Ledger = Option Memory

-- How a call ends, and the budget it leaves.
pub data Ends (A : Type 0) : Type 0 where
  returns : A → Ledger → Ends A
  terminates : Failure → Ledger → Ends A
  panics : Ledger → Ends A

infixl 5 ◌>>=◌ ◌>>◌
abbrev pub ◌>>=◌ : {A B : Type 0} → (Ledger → Ends A) → (A → Ledger → Ends B) → Ledger → Ends B
◌>>=◌ step next m = elim (step m) [
  | returns a m' ↦ next a m'
  | terminates f m' ↦ terminates f m'
  | panics m' ↦ panics m'
]

abbrev pub ◌>>◌ : {B : Type 0} → (Ledger → Ends (Unit {0})) → (Ledger → Ends B) → Ledger → Ends B
◌>>◌ step next = ◌>>=◌ step (λ _. next)

abbrev pub pure : {A : Type 0} → A → Ledger → Ends A
pure a m = returns a m

abbrev pub panic : {A : Type 0} → Ledger → Ends A
panic m = panics m

unfoldable pub new_memory : ℤ → Ledger
new_memory limit = some (record { limit = limit; used = pos 0; exhausted = false })

abbrev pub is_exhausted : Ledger → Bool
is_exhausted none = false
is_exhausted (some m) = m.exhausted

unfoldable pub used : Ledger → ℤ
used none = pos 0
used (some m) = if m.exhausted then m.limit else m.used

unfoldable pub charged : Ledger → ℤ
charged none = pos 0
charged (some m) = m.used

abbrev pub limit_of : Ledger → ℤ
limit_of none = pos 0
limit_of (some m) = m.limit

abbrev exhaust : Ledger → Ledger
exhaust none = none
exhaust (some m) = some (record m { exhausted = true })

abbrev out_of_memory : Ledger → Failure
out_of_memory m = record { code = memory_exceeded; limit = limit_of m }

-- `reject`
abbrev reject : {A : Type 0} → Ledger → Ends A
reject m = terminates (out_of_memory m) (exhaust m)

unfoldable pub unavailable : Ledger → Ends (Unit {0})
unavailable m = if is_exhausted m then terminates (out_of_memory m) m else returns tt m

-- The guard that `Reserve`, `TryReserve` and `RecordUsage` share.
abbrev pub does_not_fit : Memory → ℤ → Bool
does_not_fit m bytes =
    leb_ℤ m.limit (pos 0) || ltb_ℤ m.limit m.used || ltb_ℤ (m.limit -ℤ m.used) bytes

abbrev pub charge : Memory → ℤ → Memory
charge m bytes = record m { used = m.used +ℤ bytes }

unfoldable pub reserve : ℤ → Ledger → Ends (Unit {0})
reserve bytes none = if ltb_ℤ bytes (pos 0) then panics none else returns tt none
reserve bytes (some m) =
    if ltb_ℤ bytes (pos 0)
    then panics (some m)
    else if m.exhausted
    then terminates (out_of_memory (some m)) (some m)
    else if leb_ℤ bytes (pos 0)
    then returns tt (some m)
    else if does_not_fit m bytes
    then reject (some m)
    else returns tt (some (charge m bytes))

-- The last step is `m.Reserve(bytes)`, after the same test.
unfoldable pub try_reserve : ℤ → Ledger → Ends Bool
unfolding reserve
try_reserve bytes none = if ltb_ℤ bytes (pos 0) then panics none else returns true none
try_reserve bytes (some m) =
    if ltb_ℤ bytes (pos 0)
    then panics (some m)
    else if m.exhausted
    then terminates (out_of_memory (some m)) (some m)
    else if leb_ℤ bytes (pos 0)
    then returns true (some m)
    else if does_not_fit m bytes
    then returns false (some m)
    else (reserve bytes >>= λ _. pure true) (some m)

unfoldable pub record_usage : ℤ → Ledger → Ledger
record_usage bytes none = none
record_usage bytes (some m) =
    if m.exhausted || leb_ℤ bytes (pos 0)
    then some m
    else if does_not_fit m bytes
    then some (record m { exhausted = true })
    else some (charge m bytes)
