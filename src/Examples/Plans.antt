-- ===== src/Examples/Plans.antt =====
-- internal/thinking/plan.go: a ladder of Off and two efforts.
use milter_guard.Prelude.{ℕ, ◌≤◌, false, some, List, [], ◌∷◌, ◌≡◌, refl, arith, length, get_elem?}
use milter_guard.Prelude.Int.{pos}
use milter_guard.Prelude.Bytes.{codes}
use milter_guard.Thinking.{
  mode_off, mode_effort, Choice, normalized_choice_index, selected, resolve_level, ladder,
  first_off, number_from,
}
use milter_guard.Prelude.Rows.{select}
use milter_guard.Thinking.Levels.{resolve_level-selected, normalized_choice_index-monotone}

abbrev off_choice : Choice
off_choice = record { index = 0; id = codes "off"; mode = mode_off }

abbrev enabled_choices : List Choice
enabled_choices =
    (record { index = 1; id = codes "low"; mode = mode_effort })
    ∷ (record { index = 2; id = codes "high"; mode = mode_effort })
    ∷ []

-- The profile names Off last.
ladder-choices :
    ladder (
      (record { index = 0; id = codes "low"; mode = mode_effort })
      ∷ (record { index = 0; id = codes "high"; mode = mode_effort })
      ∷ off_choice
      ∷ [])
    ≡ off_choice ∷ enabled_choices
unfolding ladder first_off number_from select
ladder-choices = refl

resolve_level-selected_example :
    (i : ℕ) × (chosen : Choice) × (normalized_choice_index (off_choice ∷ enabled_choices) 3
      ≡ some i)
    × (get_elem? (off_choice ∷ enabled_choices) i ≡ some chosen)
    × (resolve_level false (off_choice ∷ enabled_choices) (pos 3) ≡ selected chosen)
resolve_level-selected_example = resolve_level-selected off_choice enabled_choices 3 (omega arith)

normalized_choice_index-monotone_example :
    (i : ℕ) × (j : ℕ) × (normalized_choice_index (off_choice ∷ enabled_choices) 1 ≡ some i)
    × (normalized_choice_index (off_choice ∷ enabled_choices) 3 ≡ some j)
    × (i ≤ j)
    × (normalized_choice_index (off_choice ∷ enabled_choices) 0 ≡ some 0)
    × (normalized_choice_index (off_choice ∷ enabled_choices) 4 ≡ some (length enabled_choices))
normalized_choice_index-monotone_example =
    normalized_choice_index-monotone off_choice enabled_choices 1 3 (omega arith) (omega arith)
