-- ===== src/Prelude/Utf8.antt =====
-- Go's UTF-8: `unicode/utf8` and `strings.ToValidUTF8`.
use milter_guard.Prelude.Bytes.{Bytes}
use milter_guard.Prelude.Tests.{◌==◌, leb, ltb, if◌then◌else◌}
use Prim.Native.Nat.{ℕ, zero, suc}
use mathlib.Core.Bool.{Bool, true, false, not, ◌&&◌}
use mathlib.Core.List.{[], ◌∷◌}

abbrev between : ℕ → ℕ → ℕ → Bool
between lo hi x = leb lo x && leb x hi

-- A continuation byte; `utf8.RuneStart` is its negation.
unfoldable pub is_continuation : ℕ → Bool
is_continuation x = between 0x80 0xBF x

abbrev pub rune_start : ℕ → Bool
rune_start x = not (is_continuation x)

-- Whether the next one, two or three bytes are continuations, the first of them in a range.
abbrev follows_1 : Bytes → ℕ → ℕ → Bool
follows_1 [] lo hi = false
follows_1 (x ∷ xs) lo hi = between lo hi x

abbrev follows_2 : Bytes → ℕ → ℕ → Bool
follows_2 [] lo hi = false
follows_2 (x ∷ xs) lo hi = between lo hi x && follows_1 xs 0x80 0xBF

abbrev follows_3 : Bytes → ℕ → ℕ → Bool
follows_3 [] lo hi = false
follows_3 (x ∷ xs) lo hi = between lo hi x && follows_2 xs 0x80 0xBF

-- The bytes of a rune that follow its first byte; none where the encoding is invalid there.
unfoldable pub rune_rest : ℕ → Bytes → ℕ
rune_rest x xs =
    if between 0xC2 0xDF x
    then (if follows_1 xs 0x80 0xBF then 1 else 0)
    else if x == 0xE0
    then (if follows_2 xs 0xA0 0xBF then 2 else 0)
    else if x == 0xED
    then (if follows_2 xs 0x80 0x9F then 2 else 0)
    else if between 0xE1 0xEF x
    then (if follows_2 xs 0x80 0xBF then 2 else 0)
    else if x == 0xF0
    then (if follows_3 xs 0x90 0xBF then 3 else 0)
    else if between 0xF1 0xF3 x
    then (if follows_3 xs 0x80 0xBF then 3 else 0)
    else if x == 0xF4
    then (if follows_3 xs 0x80 0x8F then 3 else 0)
    else 0

abbrev replacement : Bytes → Bytes
replacement rest = 0xEF ∷ 0xBF ∷ 0xBD ∷ rest

-- `strings.ToValidUTF8(s, "\uFFFD")`: one replacement for a run of invalid bytes. `pending` bytes of a
-- rune are to come, and `invalid` says that the byte before was in such a run.
unfoldable pub valid_from : ℕ → Bool → Bytes → Bytes
valid_from pending invalid [] = []
valid_from (suc pending) invalid (x ∷ xs) = x ∷ valid_from pending false xs
valid_from zero invalid (x ∷ xs) =
    let ascii = valid_from zero false xs in
    let rune = valid_from (rune_rest x xs) false xs in
    let bad = valid_from zero true xs in
    if ltb x 0x80
    then x ∷ ascii
    else if ltb 0 (rune_rest x xs)
    then x ∷ rune
    else if invalid
    then bad
    else replacement bad

unfoldable pub to_valid_utf8 : Bytes → Bytes
to_valid_utf8 s = valid_from zero false s
