-- ===== src/Zip/Reads.antt =====
-- internal/attachment/zip_limits.go: results, the context's check and little-endian reads.
use milter_guard.Prelude.{
  ℕ, zero, suc, ◌+◌, ◌*◌, ◌^◌, ◌≤◌, Option, none, some, ◌≡◌, refl, leb, if◌then◌else◌, length,
  get_or, arith,
}
use milter_guard.Prelude.Bytes.{Bytes}

pub data ZipError : Type 0 where
  cancelled file_count metadata_limit format : ZipError

-- How a scan ends: with a slice index out of range, with an error or with a value.
pub data Scan {κ} (A : Type κ) : Type κ where
  panics : Scan A
  fails : ZipError → Scan A
  ok : A → Scan A

-- The source's early returns: what follows is reached only with a value.
infixl 5 ◌>>=◌
abbrev pub ◌>>=◌ {κ μ} : {A : Type κ} {B : Type μ} → Scan A → (A → Scan B) → Scan B
panics >>= rest = panics
fails why >>= rest = fails why
ok value >>= rest = rest value

-- A context that is done stays done: `none` is one that never is, `some n` one that lets `n` more
-- checks pass.
abbrev pub Checks : Type 0
Checks = Option ℕ

unfoldable pub check : Checks → Scan Checks
check none = ok none
check (some zero) = fails cancelled
check (some (suc n)) = ok (some n)

abbrev byte_at : Bytes → ℕ → ℕ
byte_at s i = get_or s i 0

-- `binary.LittleEndian.Uint16(s[p:])`, `Uint32` and `Uint64`.
unfoldable pub u16_at : Bytes → ℕ → Scan ℕ
u16_at s p = if leb (p + 2) (length s) then ok (byte_at s p + byte_at s (p + 1) * 2 ^ 8) else panics

abbrev word_at : Bytes → ℕ → ℕ
word_at s p =
    byte_at s p
    + byte_at s (p + 1) * 2 ^ 8
    + byte_at s (p + 2) * 2 ^ 16
    + byte_at s (p + 3) * 2 ^ 24

unfoldable pub u32_at : Bytes → ℕ → Scan ℕ
u32_at s p = if leb (p + 4) (length s) then ok (word_at s p) else panics

unfoldable pub u64_at : Bytes → ℕ → Scan ℕ
u64_at s p =
    if leb (p + 8) (length s) then ok (word_at s p + word_at s (p + 4) * 2 ^ 32) else panics

-- A read inside the slice succeeds.
pub u16_at-ok : (s : Bytes) (p : ℕ) → p + 2 ≤ length s → (v : ℕ) × (u16_at s p ≡ ok v)
unfolding u16_at
u16_at-ok s p h = (byte_at s p + byte_at s (p + 1) * 2 ^ 8, ground arith)

pub u32_at-ok : (s : Bytes) (p : ℕ) → p + 4 ≤ length s → (v : ℕ) × (u32_at s p ≡ ok v)
unfolding u32_at
u32_at-ok s p h = (word_at s p, ground arith)

pub u64_at-ok : (s : Bytes) (p : ℕ) → p + 8 ≤ length s → (v : ℕ) × (u64_at s p ≡ ok v)
unfolding u64_at
u64_at-ok s p h = (word_at s p + word_at s (p + 4) * 2 ^ 32, ground arith)

-- What comes of a first step that gives a value.
abbrev Passes {κ μ} : {A : Type κ} {B : Type μ} → Scan A → (A → Scan B) → B → Type (κ ⊔ μ)
Passes {A = A} first rest last = (a : A) × (first ≡ ok a) × (rest a ≡ ok last)

pub >>=-eq-ok {κ μ} :
    {A : Type κ} {B : Type μ} (first : Scan A) (rest : A → Scan B) {last : B}
    → (first >>= rest) ≡ ok last
    → Passes first rest last
>>=-eq-ok panics rest none_left = cc
>>=-eq-ok (fails why) rest none_left = cc
>>=-eq-ok (ok value) rest given = (value, refl, given)
