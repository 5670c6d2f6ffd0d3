-- ===== src/Thinking/Levels.antt =====
-- internal/thinking/plan.go: what the levels select of a ladder.
use milter_guard.Prelude.{
  ℕ, zero, suc, ◌+◌, ◌-◌, ◌≤◌, ◌<◌, ◌==◌, Bool, false, some, List, [], ◌∷◌, ◌≡◌, refl, ap, ◌∙◌,
  arith, length, get_elem?, if◌then◌else◌,
}
use native.Mathlib.Nat.{mul-le-mul_right}
use milter_guard.Prelude.Int.{pos}
use milter_guard.Thinking.{
  Choice, is_off, scale_level, normalized_choice_index, selected, resolve_level,
}

-- The index at a level, on a ladder of `suc n` choices whose first one is Off or not.
abbrev index_at : Bool → ℕ → ℕ → ℕ
index_at off zero level = 0
index_at off (suc n) level =
    if off
    then (if level == 0 then 0 else 1 + scale_level (level - 1) 3 n)
    else scale_level level 4 (suc n)

index-index_at :
    (c : Choice) (cs : List Choice) (level : ℕ)
    → normalized_choice_index (c ∷ cs) level ≡ some (index_at (is_off c.mode) (length cs) level)
unfolding normalized_choice_index
index-index_at c [] level = refl
index-index_at c (d ∷ rest) level = ground arith

-- A level is one of five.
by_level : (P : ℕ → Type 0) (level : ℕ) → level ≤ 4 → P 0 → P 1 → P 2 → P 3 → P 4 → P level
by_level P zero h a b c d e = a
by_level P (suc zero) h a b c d e = b
by_level P (suc (suc zero)) h a b c d e = c
by_level P (suc (suc (suc zero))) h a b c d e = d
by_level P (suc (suc (suc (suc zero)))) h a b c d e = e
by_level P (suc (suc (suc (suc (suc n))))) h a b c d e = absurd (omega (arith, h))

index_at-le : (off : Bool) (n level : ℕ) → level ≤ 4 → index_at off n level ≤ n
unfolding scale_level
index_at-le off zero level h = omega arith
index_at-le off (suc n) level h =
    by_level (λ l. index_at off (suc n) l ≤ suc n) level h (ground arith) (ground arith)
      (ground arith) (ground arith) (ground arith)

index_at-monotone :
    (off : Bool) (n low high : ℕ) → low ≤ high → high ≤ 4 → index_at off n low ≤ index_at off n high
unfolding scale_level
index_at-monotone off zero low high h k = omega arith
index_at-monotone off (suc n) low high h k = ground (
  arith,
  mul-le-mul_right n h,
  mul-le-mul_right (suc n) h,
  mul-le-mul_right {m = low - 1} {n = high - 1} n (omega (arith, h)),
)

index_at-ends : (off : Bool) (n : ℕ) → (index_at off n 0 ≡ 0) × (index_at off n 4 ≡ n)
unfolding scale_level
index_at-ends off zero = (refl, refl)
index_at-ends off (suc n) = ground arith

get_elem?-some :
    (cs : List Choice) (i : ℕ) → i < length cs → (c : Choice) × (get_elem? cs i ≡ some c)
get_elem?-some [] i h = absurd (omega (arith, h))
get_elem?-some (c ∷ cs) zero h = (c, refl)
get_elem?-some (c ∷ cs) (suc i) h = get_elem?-some cs i (omega (arith, h))

-- On a ladder with choices every level from 0 to 4 selects one of them: the code does not index out
-- of range.
pub resolve_level-selected :
    (c : Choice) (cs : List Choice) (level : ℕ)
    → level ≤ 4
    → (i : ℕ) × (chosen : Choice) × (normalized_choice_index (c ∷ cs) level ≡ some i)
      × (get_elem? (c ∷ cs) i ≡ some chosen)
      × (resolve_level false (c ∷ cs) (pos level) ≡ selected chosen)
unfolding resolve_level
resolve_level-selected c cs level h =
    let i = index_at (is_off c.mode) (length cs) level in
    let at = index-index_at c cs level in
    let (chosen, found) =
      get_elem?-some (c ∷ cs) i (omega (arith, index_at-le (is_off c.mode) (length cs) level h)) in
    (i, chosen, at, found, ground (arith, h, at, found))

-- A higher level never selects an earlier choice of the ladder, the highest level selects the last
-- one, and level 0 the first.
pub normalized_choice_index-monotone :
    (c : Choice) (cs : List Choice) (low high : ℕ)
    → low ≤ high
    → high ≤ 4
    → (i : ℕ) × (j : ℕ) × (normalized_choice_index (c ∷ cs) low ≡ some i)
      × (normalized_choice_index (c ∷ cs) high ≡ some j)
      × (i ≤ j)
      × (normalized_choice_index (c ∷ cs) 0 ≡ some 0)
      × (normalized_choice_index (c ∷ cs) 4 ≡ some (length cs))
normalized_choice_index-monotone c cs low high h k =
    let off = is_off c.mode in
    let n = length cs in
    let (first, last) = index_at-ends off n in
    (
      index_at off n low,
      index_at off n high,
      index-index_at c cs low,
      index-index_at c cs high,
      index_at-monotone off n low high h k,
      index-index_at c cs 0 ∙ ap some first,
      index-index_at c cs 4 ∙ ap some last,
    )
