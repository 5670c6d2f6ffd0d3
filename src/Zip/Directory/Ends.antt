-- ===== src/Zip/Directory/Ends.antt =====
-- internal/attachment/zip_limits.go: where `zipDirectoryEnd` and `countZIPDirectory` read, and where the
-- end record that is returned lies.
use milter_guard.Prelude.{
  ℕ, zero, suc, ◌+◌, ◌≤◌, ◌%◌, Bool, true, false, none, some, ◌≡◌, ◌≢◌, refl, ap, ◌∙◌, ◌⊎◌, inl,
  inr, length, arith, Bool-cases, leb, ltb, ◌==◌, if◌then◌else◌,
}
use milter_guard.Prelude.Bytes.{Bytes}
use milter_guard.Zip.Reads.{
  Scan, ok, fails, panics, >>=-eq-ok, u16_at, u32_at, u16_at-ok, u32_at-ok, Checks, check, ◌>>=◌,
}
use milter_guard.Zip.Directory.{
  header_at, header_length, count_from, count_directory, header_round, Search, found, missing,
  search_window, window_start, window_rounds, after_first, after_second, End, directory_end,
  end_signature,
}

-- A step that does not panic, followed by steps that do not, does not.
pub >>=-ne-panics {ℓ κ} :
    {A : Type ℓ} {B : Type κ} (m : Scan A) (f : A → Scan B)
    → m ≢ panics
    → ((a : A) → m ≡ ok a → f a ≢ panics)
    → (m >>= f) ≢ panics
>>=-ne-panics (ok a) f h k = k a refl
>>=-ne-panics (fails e) f h k = λ e'. cc
>>=-ne-panics panics f h k = absurd (h refl)

pub if-ne-panics {ℓ} :
    {A : Type ℓ} (b : Bool) (x y : Scan A)
    → (b ≡ true → x ≢ panics)
    → (b ≡ false → y ≢ panics)
    → (if b then x else y) ≢ panics
if-ne-panics true x y h k = h refl
if-ne-panics false x y h k = k refl

pub check-ne-panics : (c : Checks) → check c ≢ panics
unfolding check
check-ne-panics none = λ e. cc
check-ne-panics (some zero) = λ e. cc
check-ne-panics (some (suc n)) = λ e. cc

pub u16_at-ne-panics : (s : Bytes) (p : ℕ) → p + 2 ≤ length s → u16_at s p ≢ panics
u16_at-ne-panics s p h e = let (v, r) = u16_at-ok s p h in cc

pub u32_at-ne-panics : (s : Bytes) (p : ℕ) → p + 4 ≤ length s → u32_at s p ≢ panics
u32_at-ne-panics s p h e = let (v, r) = u32_at-ok s p h in cc

header_at-ne-panics : (s : Bytes) (offset : ℕ) → header_at s offset ≢ panics
unfolding header_at
header_at-ne-panics s offset =
    if-ne-panics (leb (offset + 46) (length s)) _ _
      (λ inside.
        >>=-ne-panics (u32_at s offset) _ (u32_at-ne-panics s offset (ground arith)) (λ v e e'. cc))
      (λ _ e. cc)

header_at-inside : (s : Bytes) (offset : ℕ) → header_at s offset ≡ ok true → offset + 46 ≤ length s
unfolding header_at
header_at-inside s offset e = ground arith

header_round-ne-panics :
    (byte_limit : ℕ) (s : Bytes) (offset used : ℕ)
    → offset + 46 ≤ length s
    → header_round byte_limit s offset used ≢ panics
unfolding header_length
header_round-ne-panics byte_limit s offset used h =
    >>=-ne-panics (header_length s offset) _ length_reads (λ size _. ground arith)
  where
    length_reads : header_length s offset ≢ panics
    length_reads =
        >>=-ne-panics (u16_at s (offset + 28)) _ (u16_at-ne-panics s (offset + 28) (omega arith))
          (λ name _.
            >>=-ne-panics (u16_at s (offset + 30)) _
              (u16_at-ne-panics s (offset + 30) (omega arith))
              (λ extra _.
                >>=-ne-panics (u16_at s (offset + 32)) _
                  (u16_at-ne-panics s (offset + 32) (omega arith)) (λ comment _ e. cc)))

count_from-ne-panics :
    (left byte_limit : ℕ) (s : Bytes) (offset count used : ℕ) (checks : Checks)
    → count_from left byte_limit s offset count used checks ≢ panics
unfolding count_from
count_from-ne-panics zero byte_limit s offset count used checks =
    >>=-ne-panics (header_at s offset) _ (header_at-ne-panics s offset) (λ more _.
      if-ne-panics more _ _
        (λ _. >>=-ne-panics (check checks) _ (check-ne-panics checks) (λ _ _ e. cc)) (λ _ e. cc))
count_from-ne-panics (suc left) byte_limit s offset count used checks =
    >>=-ne-panics (header_at s offset) _ (header_at-ne-panics s offset) (λ more e.
      if-ne-panics more _ _
        (λ t. >>=-ne-panics (check checks) _ (check-ne-panics checks) (λ checks' _.
          >>=-ne-panics (header_round byte_limit s offset used) _
            (header_round-ne-panics byte_limit s offset used
              (header_at-inside s offset (e ∙ ap ok t)))
            (λ size _.
              count_from-ne-panics left byte_limit s (offset + size) (count + 1) (used + size)
                checks')))
        (λ _ e'. cc))

pub count_directory-ne-panics :
    (s : Bytes) (offset entry_limit byte_limit : ℕ) (checks : Checks)
    → count_directory s offset entry_limit byte_limit checks ≢ panics
unfolding count_directory
count_directory-ne-panics s offset entry_limit byte_limit checks =
    count_from-ne-panics entry_limit byte_limit s offset 0 0 checks

search_window-ne-panics :
    (rounds : ℕ) (s : Bytes) (start : ℕ) (checks : Checks)
    → start + rounds + 21 ≤ length s ⊎ rounds ≡ 0
    → search_window rounds s start checks ≢ panics
unfolding search_window
search_window-ne-panics zero s start checks h = λ e. cc
search_window-ne-panics (suc rounds) s start checks h =
    let p = start + rounds in
    >>=-ne-panics (if p % 4096 == 0 then check checks else ok checks) _
      (if-ne-panics (p % 4096 == 0) _ _ (λ _. check-ne-panics checks) (λ _ e. cc))
      (λ checks' _.
        >>=-ne-panics (u32_at s p) _ (u32_at-ne-panics s p (omega arith)) (λ signature _.
          if-ne-panics (signature == end_signature) _ _
            (λ _.
              >>=-ne-panics (u16_at s (p + 20)) _ (u16_at-ne-panics s (p + 20) (omega arith))
                (λ comment _.
                  if-ne-panics (ltb (length s) (p + 22 + comment)) _ _ (λ _ e. cc) (λ _ e. cc)))
            (λ _. search_window-ne-panics rounds s start checks' (omega arith))))

-- An end record in a window stands whole inside the slice.
search_window-found :
    (rounds : ℕ) (s : Bytes) (start : ℕ) (checks checks' : Checks) (p : ℕ)
    → search_window rounds s start checks ≡ ok (found p checks')
    → start + rounds + 21 ≤ length s ⊎ rounds ≡ 0
    → p + 22 ≤ length s
unfolding search_window
search_window-found zero s start checks checks' p h room = absurd (cc)
search_window-found (suc rounds) s start checks checks' p h room =
    let (c, _, h₁) =
      >>=-eq-ok (if (start + rounds) % 4096 == 0 then check checks else ok checks) _ h in
    let (signature, _, h₂) = >>=-eq-ok (u32_at s (start + rounds)) _ h₁ in
    elim (Bool-cases (signature == end_signature)) [
      | inl t ↦
          let (comment, _, h₃) = >>=-eq-ok (u16_at s (start + rounds + 20)) _ (rw t at h₂) in
          ground arith
      | inr f ↦ search_window-found rounds s start c checks' p (rw f at h₂) (omega arith)
    ]

window_room :
    (window : ℕ) (s : Bytes)
    → (window_start window s + window_rounds window s + 21 ≤ length s)
      ⊎ (window_rounds window s ≡ 0)
window_room window s = elim (Bool-cases (window_rounds window s == 0)) [
  | inl e ↦ inr (ground arith)
  | inr e ↦ inl (ground arith)
]

window-ne-panics :
    (window : ℕ) (s : Bytes) (checks : Checks)
    → search_window (window_rounds window s) s (window_start window s) checks ≢ panics
window-ne-panics window s checks =
    search_window-ne-panics (window_rounds window s) s (window_start window s) checks
      (window_room window s)

after_second-ne-panics : (r : Search) → after_second r ≢ panics
after_second-ne-panics (found p checks) = λ e. cc
after_second-ne-panics (missing checks) = λ e. cc

after_first-ne-panics : (s : Bytes) (r : Search) → after_first s r ≢ panics
after_first-ne-panics s (found p checks) = λ e. cc
after_first-ne-panics s (missing checks) =
    if-ne-panics (window_start 1024 s == 0) _ _ (λ _ e. cc)
      (λ _.
        >>=-ne-panics (search_window (window_rounds 66560 s) s (window_start 66560 s) checks) _
          (window-ne-panics 66560 s checks) (λ r _. after_second-ne-panics r))

pub directory_end-ne-panics : (s : Bytes) (checks : Checks) → directory_end s checks ≢ panics
unfolding directory_end
directory_end-ne-panics s checks =
    >>=-ne-panics (search_window (window_rounds 1024 s) s (window_start 1024 s) checks) _
      (window-ne-panics 1024 s checks) (λ r _. after_first-ne-panics s r)

window-found :
    (window : ℕ) (s : Bytes) (checks checks' : Checks) (p : ℕ)
    → search_window (window_rounds window s) s (window_start window s) checks ≡ ok (found p checks')
    → p + 22 ≤ length s
window-found window s checks checks' p h =
    search_window-found (window_rounds window s) s (window_start window s) checks checks' p h
      (window_room window s)

after_second-position :
    (s : Bytes) (checks : Checks) (r : Search) (e : End)
    → search_window (window_rounds 66560 s) s (window_start 66560 s) checks ≡ ok r
    → after_second r ≡ ok e
    → e.position + 22 ≤ length s
after_second-position s checks (found p checks') e h h' =
    ground (arith, window-found 66560 s checks checks' p h)
after_second-position s checks (missing checks') e h h' = absurd (cc)

after_first-position :
    (s : Bytes) (checks : Checks) (r : Search) (e : End)
    → search_window (window_rounds 1024 s) s (window_start 1024 s) checks ≡ ok r
    → after_first s r ≡ ok e
    → e.position + 22 ≤ length s
after_first-position s checks (found p checks') e h h' =
    ground (arith, window-found 1024 s checks checks' p h)
after_first-position s checks (missing checks') e h h' =
    elim (Bool-cases (window_start 1024 s == 0)) [
      | inl t ↦ absurd (ground arith)
      | inr f ↦
          let (r, e₁, h₁) =
            >>=-eq-ok (search_window (window_rounds 66560 s) s (window_start 66560 s) checks') _
              (rw f at h') in
          after_second-position s checks' r e e₁ h₁
    ]

-- The end record that is returned stands whole inside the slice.
pub directory_end-inside :
    (s : Bytes) (checks : Checks) (e : End)
    → directory_end s checks ≡ ok e
    → e.position + 22 ≤ length s
unfolding directory_end
directory_end-inside s checks e h =
    let (r, e₁, h₁) =
      >>=-eq-ok (search_window (window_rounds 1024 s) s (window_start 1024 s) checks) _ h in
    after_first-position s checks r e e₁ h₁
