-- ===== src/Thinking.antt =====
-- internal/thinking/plan.go: the ladder of choices that `CompilePlan` builds from the usable options,
-- and `ResolveLevel`. A choice is its index, its name and its mode; what a request takes from it goes
-- with the name.
pub mod Levels
use milter_guard.Prelude.{
  ℕ, zero, suc, ◌+◌, ◌*◌, ◌/◌, ◌-◌, ◌==◌, Bool, true, false, not, Option, none, some, List, [], ◌∷◌,
  ◌++◌, ltb, if◌then◌else◌, length, get_elem?,
}
use milter_guard.Prelude.Int.{ℤ, pos, negsuc}
use milter_guard.Prelude.Bytes.{Bytes}
use milter_guard.Prelude.Rows.{select}

pub data Mode : Type 0 where
  mode_off mode_on mode_effort mode_budget : Mode

abbrev pub is_off : Mode → Bool
is_off mode_off = true
is_off mode_on = false
is_off mode_effort = false
is_off mode_budget = false

pub record Choice : Type 0 where
  pub index : ℕ
  pub id : Bytes
  pub mode : Mode

-- The first loop takes the first Off choice and ends.
unfoldable pub first_off : List Choice → List Choice
first_off [] = []
first_off (c ∷ cs) = let rest = first_off cs in if is_off c.mode then c ∷ [] else rest

unfoldable pub number_from : ℕ → List Choice → List Choice
number_from i [] = []
number_from i (c ∷ cs) = record c { index = i } ∷ number_from (suc i) cs

unfoldable pub ladder : List Choice → List Choice
ladder choices = number_from 0 (first_off choices ++ select (λ c. not (is_off c.mode)) choices)

abbrev pub maximum_level : ℕ
maximum_level = 4

unfoldable pub scale_level : ℕ → ℕ → ℕ → ℕ
scale_level value source target = if target == 0 then 0 else (value * target + source / 2) / source

-- `none` is the panic of `p.ladder[0]` on an empty ladder.
unfoldable pub normalized_choice_index : List Choice → ℕ → Option ℕ
unfolding scale_level
normalized_choice_index [] level = none
normalized_choice_index (c ∷ []) level = some 0
normalized_choice_index (c ∷ d ∷ rest) level =
    if is_off c.mode
    then (if level == 0
        then some 0
        else some (1 + scale_level (level - 1) (maximum_level - 1) (length rest)))
    else some (scale_level level maximum_level (suc (length rest)))

pub data Resolution : Type 0 where
  refused uncontrolled panics : Resolution
  selected : Choice → Resolution

-- `no_options` is `sourceOptionsEmpty`.
unfoldable pub resolve_level : Bool → List Choice → ℤ → Resolution
resolve_level no_options choices (negsuc n) = refused
resolve_level no_options choices (pos level) =
    if ltb maximum_level level
    then refused
    else if no_options
    then uncontrolled
    else elim (normalized_choice_index choices level) [
      | none ↦ panics
      | some i ↦ elim (get_elem? choices i) [ none ↦ panics | some c ↦ selected c ]
    ]
