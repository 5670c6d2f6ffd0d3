-- ===== src/Prelude/Bytes.antt =====
-- Go's byte slices and strings as lists of numbers, and what the sources use of `bytes`,
-- `strings` and `encoding/binary`.
use Prim.Native.Char.{code}
use Prim.Native.String.{String}
use Prim.Native.Nat.{ℕ, ◌+◌, ◌<◌}
use mathlib.Core.Bool.{Bool, true, false, ◌&&◌, ◌||◌}
use mathlib.Core.List.{List, [], ◌∷◌, ◌++◌, reverse}
use mathlib.Core.Logic.{◌↔◌, ◌⊎◌, inl, inr}
use mathlib.Core.Option.{Option, none, some}
use mathlib.Core.Path.{◌≡◌, refl, ap}
use native.Mathlib.Omega.{arith}
use milter_guard.Prelude.Tests.{◌==◌, ==_iff, leb, Bool-cases, if◌then◌else◌}

abbrev pub Bytes : Type 0
Bytes = List ℕ

-- The code points of a text literal: its bytes, as every literal of the sources here is ASCII.
abbrev pub codes : String → Bytes
codes String.[] = []
codes (String.◌∷◌ c s) = code c ∷ codes s

-- `a == b` on strings.
unfoldable pub bytes_eq : Bytes → Bytes → Bool
bytes_eq [] [] = true
bytes_eq [] (y ∷ ys) = false
bytes_eq (x ∷ xs) [] = false
bytes_eq (x ∷ xs) (y ∷ ys) = x == y && bytes_eq xs ys

pub bytes_eq_iff : (a b : Bytes) → (bytes_eq a b ≡ true) ↔ (a ≡ b)
unfolding bytes_eq
bytes_eq_iff [] [] = ground arith
bytes_eq_iff [] (y ∷ ys) = ground arith
bytes_eq_iff (x ∷ xs) [] = ground arith
bytes_eq_iff (x ∷ xs) (y ∷ ys) = ground (arith, bytes_eq_iff xs ys)

-- `bytes.IndexByte(s, c) >= 0`
unfoldable pub contains : ℕ → Bytes → Bool
contains c [] = false
contains c (x ∷ xs) = x == c || contains c xs

abbrev prepend : ℕ → Option (Bytes × Bytes) → Option (Bytes × Bytes)
prepend x none = none
prepend x (some (a, b)) = some (x ∷ a, b)

-- `bytes.Cut(s, []byte{c})`: what stands before and after the first `c`, or none.
unfoldable pub cut : ℕ → Bytes → Option (Bytes × Bytes)
cut c [] = none
cut c (x ∷ xs) = if x == c then some ([], xs) else prepend x (cut c xs)

-- `s[len(s)-1]` and `s[:len(s)-1]` of a slice that is not empty.
unfoldable pub split_last : Bytes → Option (Bytes × ℕ)
split_last [] = none
split_last (x ∷ []) = some ([], x)
split_last (x ∷ y ∷ ys) = elim (split_last (y ∷ ys)) [
  | none ↦ none
  | some (front, last) ↦ some (x ∷ front, last)
]

-- An ASCII letter in lower case; other bytes stay.
unfoldable pub to_lower : ℕ → ℕ
to_lower c = if leb b'A' c && leb c b'Z' then c + 32 else c

-- The only runes outside ASCII that fold to an ASCII letter: U+017F to `s`, U+212A to `k`.
unfoldable pub fold_case : Bytes → Bytes
unfolding to_lower
fold_case [] = []
fold_case (x ∷ []) = to_lower x ∷ []
fold_case (x ∷ y ∷ []) = if x == 0xC5 && y == 0xBF then b's' ∷ [] else to_lower x ∷ to_lower y ∷ []
fold_case (x ∷ y ∷ z ∷ rest) =
    let after = fold_case rest in
    let after_two = fold_case (z ∷ rest) in
    let after_one = fold_case (y ∷ z ∷ rest) in
    if x == 0xC5 && y == 0xBF
    then b's' ∷ after_two
    else if x == 0xE2 && y == 0x84 && z == 0xAA
    then b'k' ∷ after
    else to_lower x ∷ after_one

-- `strings.EqualFold(s, t)` at an ASCII text `t`.
unfoldable pub equal_fold : Bytes → Bytes → Bool
unfolding fold_case bytes_eq
equal_fold s t = bytes_eq (fold_case s) (fold_case t)

-- `strings.TrimLeft(s, cutset)` and `strings.Trim(s, cutset)` at an ASCII cutset.
unfoldable pub trim_left_set : Bytes → Bytes → Bytes
trim_left_set set [] = []
trim_left_set set (x ∷ xs) = if contains x set then trim_left_set set xs else x ∷ xs

unfoldable pub trim_set : Bytes → Bytes → Bytes
unfolding trim_left_set contains
trim_set set s = reverse (trim_left_set set (reverse (trim_left_set set s)))

-- A byte slice holds bytes.
abbrev pub AllBytes : Bytes → Type 0
AllBytes [] = Unit {0}
AllBytes (x ∷ xs) = (x < 256) × AllBytes xs

pub cut-append : (c : ℕ) (a b : Bytes) → contains c a ≡ false → cut c (a ++ c ∷ b) ≡ some (a, b)
unfolding contains cut
cut-append c [] b h = ground arith
cut-append c (x ∷ a) b h = ground (arith, cut-append c a b)

-- What `cut` returns, with the equation: no `c`, or the slice split at its first `c`.
pub cut-cases :
    (c : ℕ) (s : Bytes)
    → ((cut c s ≡ none) × (contains c s ≡ false))
      ⊎ ((a : Bytes) × (b : Bytes) × (cut c s ≡ some (a, b))
          × (s ≡ a ++ c ∷ b)
          × (contains c a ≡ false))
unfolding contains cut
cut-cases c [] = inl (refl, refl)
cut-cases c (x ∷ xs) = elim (Bool-cases (x == c)) [
  | inl here ↦ inr ([], xs, rw here, ap (λ y. y ∷ xs) ((==_iff x c).0 here), refl)
  | inr on ↦ elim (cut-cases c xs) [
    | inl (e, out) ↦ inl (rw (on, e), rw (on, out))
    | inr (a, b, e, split, out) ↦ inr (x ∷ a, b, rw (on, e), ap (◌∷◌ x) split, rw (on, out))
  ]
]

pub cut-eq-some :
    (c : ℕ) (s a b : Bytes) → cut c s ≡ some (a, b) → (s ≡ a ++ c ∷ b) × (contains c a ≡ false)
cut-eq-some c s a b h = elim (cut-cases c s) [
  | inl (e, _) ↦ absurd (cc)
  | inr (a', b', e, split, out) ↦ ground arith
]

pub split_last-append : (a : Bytes) (x : ℕ) → split_last (a ++ x ∷ []) ≡ some (a, x)
unfolding split_last
split_last-append [] x = refl
split_last-append (y ∷ []) x = refl
split_last-append (y ∷ z ∷ zs) x = rw (split_last-append (z ∷ zs) x, split_last)

-- Only the empty slice has no last byte.
pub split_last-cases :
    (s : Bytes)
    → ((s ≡ []) × (split_last s ≡ none))
      ⊎ ((a : Bytes) × (x : ℕ) × (split_last s ≡ some (a, x)) × (s ≡ a ++ x ∷ []))
unfolding split_last
split_last-cases [] = inl (refl, refl)
split_last-cases (y ∷ []) = inr ([], y, refl, refl)
split_last-cases (y ∷ z ∷ zs) = elim (split_last-cases (z ∷ zs)) [
  | inl (e, _) ↦ absurd (cc)
  | inr (a, x, e, split) ↦ inr (y ∷ a, x, rw (e, split_last), ap (◌∷◌ y) split)
]
