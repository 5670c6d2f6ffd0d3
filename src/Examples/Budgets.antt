-- ===== src/Examples/Budgets.antt =====
-- internal/resourceguard: a budget of a hundred bytes, and a table of numbers under a budget.
use milter_guard.Prelude.{
  ℕ, ◌+◌, ◌-◌, ◌==◌, ==_iff, true, false, none, some, List, [], ◌∷◌, ◌≡◌, inl, refl, arith, leb,
  if◌then◌else◌,
}
use milter_guard.Prelude.Int.{pos, negsuc, ◌+ℤ◌, ◌-ℤ◌}
use milter_guard.Resource.Memory.{
  returns, terminates, memory_exceeded, new_memory, reserve, try_reserve, unavailable,
}
use milter_guard.Resource.Memory.Budget.{budget}
use milter_guard.Resource.Memory.Runs.{
  Call, reserves, tries, records, run, IsSound, Keeps, run-Keeps, run-new_memory-IsSound,
}
use milter_guard.Resource.Table.{Eq, Table, find, assign, get, set_cost, set, insert}
use milter_guard.Resource.Table.Charges.{footprint, get-set, set-charges}

abbrev calls : List Call
calls = reserves (pos 40) ∷ tries (pos 70) ∷ records (pos 70) ∷ reserves (negsuc 0) ∷ []

budget-IsSound : IsSound (some (budget 100 60))
budget-IsSound = (omega arith, omega arith, inl (omega arith))

run-Keeps_example : Keeps (some (budget 100 60)) (run calls (some (budget 100 60)))
run-Keeps_example = run-Keeps calls (some (budget 100 60)) budget-IsSound

run-new_memory-IsSound_example : IsSound (run calls (new_memory (pos 100)))
run-new_memory-IsSound_example = run-new_memory-IsSound (pos 100) calls (omega arith)

instance abbrev numbers_Eq : Eq ℕ
numbers_Eq = record { same = λ a b. a == b; same_iff = ==_iff }

abbrev no_numbers : Table ℕ ℕ
no_numbers = record { entries = none; high_water = 0 }

abbrev one_number : Table ℕ ℕ
one_number = record { entries = some ((5, 7) ∷ []); high_water = 1 }

sets :
    set 8 8 no_numbers 5 7 true (some (budget 1000 0))
    ≡ returns (one_number, true) (some (budget 1000 384))
unfolding set get find assign set_cost insert unavailable try_reserve reserve ◌+ℤ◌ ◌-ℤ◌
sets = refl

get-set_example : get one_number 5 ≡ (if 5 == 5 then some 7 else get no_numbers 5)
get-set_example =
    get-set 8 8 no_numbers one_number 5 5 7 true (some (budget 1000 0)) (some (budget 1000 384))
      sets

set-charges_example :
    let paid = footprint 8 8 one_number in
    let next = footprint 8 8 (insert 6 1 one_number) in
    set 8 8 one_number 6 1 false (some (budget 1000 384)) ≡ (
      if leb (384 + (next - paid)) 1000
      then returns (insert 6 1 one_number, true) (some (budget 1000 (384 + (next - paid))))
      else (if false
          then returns (one_number, false) (some (budget 1000 384))
          else terminates
              (record { code = memory_exceeded; limit = pos 1000 })
              (some (record { limit = pos 1000; used = pos 384; exhausted = true }))))
set-charges_example =
    set-charges 8 8 1000 384 one_number 6 1 (omega arith) (unfold get find in refl) (omega arith)
      (omega arith) (omega arith) false
