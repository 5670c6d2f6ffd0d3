-- ===== src/Zip/Directory.antt =====
-- internal/attachment/zip_limits.go: `countZIPDirectory` and `zipDirectoryEnd`.
pub mod Chains
pub mod Ends
use milter_guard.Prelude.{
  ℕ, zero, suc, ◌+◌, ◌-◌, ◌*◌, ◌%◌, Bool, true, false, leb, ltb, ◌==◌, if◌then◌else◌, length,
}
use milter_guard.Prelude.Bytes.{Bytes}
use milter_guard.Zip.Reads.{
  Scan, ok, fails, panics, file_count, metadata_limit, format, ◌>>=◌, Checks, check, u16_at, u32_at,
}

abbrev pub header_signature : ℕ
header_signature = 0x02014b50

abbrev pub end_signature : ℕ
end_signature = 0x06054b50

-- The loop's condition: a central header stands at `offset`.
unfoldable pub header_at : Bytes → ℕ → Scan Bool
header_at s offset =
    if leb (offset + 46) (length s)
    then (u32_at s offset >>= λ v. ok (v == header_signature))
    else ok false

-- The length of the header at `offset`, with its name, extra field and comment.
unfoldable pub header_length : Bytes → ℕ → Scan ℕ
header_length s offset = do
  name ← u16_at s (offset + 28)
  extra ← u16_at s (offset + 30)
  comment ← u16_at s (offset + 32)
  ok (46 + name + extra + comment)

-- The number of headers and their bytes.
pub record Count : Type 0 where
  pub headers : ℕ
  pub bytes : ℕ
  pub checks : Checks

abbrev header_round : ℕ → Bytes → ℕ → ℕ → Scan ℕ
header_round byte_limit s offset used = do
  size ← header_length s offset
  (if ltb byte_limit (used + size)
      then fails metadata_limit
      else if ltb (length s) (offset + size)
      then fails format
      else ok size)

-- `left` is `entryLimit - count`. The sums stand on the other side of the source's comparisons.
unfoldable pub count_from :
    (left : ℕ) (byte_limit : ℕ) → Bytes → (offset count used : ℕ) → Checks → Scan Count
count_from zero byte_limit s offset count used checks = do
  more ← header_at s offset
  (if more
      then (check checks >>= λ _. fails file_count)
      else ok (record { headers = count; bytes = used; checks = checks }))
count_from (suc left) byte_limit s offset count used checks = header_at s offset >>= λ more.
    if more
    then (do
      checks' ← check checks
      size ← header_round byte_limit s offset used
      count_from left byte_limit s (offset + size) (count + 1) (used + size) checks')
    else ok (record { headers = count; bytes = used; checks = checks })

unfoldable pub count_directory : Bytes → (offset entry_limit byte_limit : ℕ) → Checks → Scan Count
count_directory s offset entry_limit byte_limit checks =
    count_from entry_limit byte_limit s offset 0 0 checks

-- What one window gives: the position of an end record, or the end of the search in it.
pub data Search : Type 0 where
  found : ℕ → Checks → Search
  missing : Checks → Search

-- The loop from `start + rounds - 1` down to `start`.
unfoldable pub search_window : (rounds : ℕ) → Bytes → (start : ℕ) → Checks → Scan Search
search_window zero s start checks = ok (missing checks)
search_window (suc rounds) s start checks =
    let p = start + rounds in
    (if p % 4096 == 0 then check checks else ok checks) >>= λ checks'. u32_at s p >>= λ signature.
    let below = search_window rounds s start checks' in
    if signature == end_signature
    then (u16_at s (p + 20) >>= λ comment.
        if ltb (length s) (p + 22 + comment) then ok (missing checks') else ok (found p checks'))
    else below

-- `max(0, len(data)-window)`, and the rounds from `len(data)-22` down to it.
abbrev window_start : ℕ → Bytes → ℕ
window_start window s = length s - window

abbrev window_rounds : ℕ → Bytes → ℕ
window_rounds window s = length s - 21 - window_start window s

pub record End : Type 0 where
  pub position : ℕ
  pub checks : Checks

abbrev pub after_second : Search → Scan End
after_second (found p checks) = ok (record { position = p; checks = checks })
after_second (missing checks) = fails format

-- A window that starts at 0 is the last one.
abbrev pub after_first : Bytes → Search → Scan End
after_first s (found p checks) = ok (record { position = p; checks = checks })
after_first s (missing checks) =
    if window_start 1024 s == 0
    then fails format
    else (search_window (window_rounds 66560 s) s (window_start 66560 s) checks >>= after_second)

unfoldable pub directory_end : Bytes → Checks → Scan End
directory_end s checks =
    search_window (window_rounds 1024 s) s (window_start 1024 s) checks >>= after_first s
