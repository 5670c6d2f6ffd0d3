-- ===== src/Zip/Admission.antt =====
-- internal/attachment/zip_limits.go: `admitZIPDirectory`. Entry counts and metadata sizes are natural
-- numbers; a difference that may be negative stands as a sum on the other side of its comparison.
pub mod Safety
pub mod Bounds
use milter_guard.Prelude.{
  ℕ, ◌+◌, ◌-◌, ◌^◌, Bool, true, false, ◌&&◌, ◌||◌, leb, ltb, ◌==◌, if◌then◌else◌, length, max,
}
use milter_guard.Prelude.Bytes.{Bytes}
use milter_guard.Zip.Reads.{
  Scan, ok, fails, panics, file_count, metadata_limit, format, ◌>>=◌, Checks, check, u16_at, u32_at,
  u64_at,
}
use milter_guard.Zip.Directory.{Count, count_directory, End, directory_end}

abbrev pub max_zip_metadata_bytes : ℕ
max_zip_metadata_bytes = 2 ^ 20

-- The fields of `scanState` that the admission reads or writes.
pub record ScanState : Type 0 where
  pub archive_files : ℕ
  pub zip_metadata_bytes : ℕ
  pub checks : Checks

-- What the end records advertise. `tail` is the first value of the local variable `metadata`.
pub record Advertised : Type 0 where
  pub records : ℕ
  pub size : ℕ
  pub offset : ℕ
  pub end_offset : ℕ
  pub tail : ℕ

unfoldable pub end_record : Bytes → ℕ → Scan Advertised
end_record s p = do
  records ← u16_at s (p + 10)
  size ← u32_at s (p + 12)
  offset ← u32_at s (p + 16)
  comment ← u16_at s (p + 20)
  ok (record {
    records = records;
    size = size;
    offset = offset;
    end_offset = p;
    tail = 22 + comment;
  })

-- `&&` reads on only while the tests hold.
abbrev and_then : Scan Bool → Scan Bool → Scan Bool
and_then first second = first >>= λ b. if b then second else ok false

unfoldable pub is_locator : Bytes → ℕ → Scan Bool
is_locator s p =
    and_then (u32_at s p >>= λ v. ok (v == 0x07064b50))
      (and_then (u32_at s (p + 4) >>= λ v. ok (v == 0)) (u32_at s (p + 16) >>= λ v. ok (v == 1)))

unfoldable pub zip64_fields : Bytes → ℕ → ℕ → Scan Advertised
zip64_fields s position tail = do
  records ← u64_at s (position + 32)
  size ← u64_at s (position + 40)
  offset ← u64_at s (position + 48)
  ok (record {
    records = records;
    size = size;
    offset = offset;
    end_offset = position;
    tail = tail + 76;
  })

unfoldable pub zip64_record : Bytes → ℕ → ℕ → Scan Advertised
zip64_record s locator tail = u64_at s (locator + 8) >>= λ position.
    if ltb (length s) 56 || ltb (length s) (position + 56)
    then fails format
    else (u32_at s position >>= λ signature.
        if signature == 0x06064b50 then zip64_fields s position tail else fails format)

-- The ZIP64 record takes the end record's place if one of its fields is at its limit and a locator
-- stands in front of it.
unfoldable pub with_zip64 : Bytes → Advertised → Scan Advertised
with_zip64 s e =
    if (e.records == 0xffff || e.size == 0xffff || e.offset == 0xffffffff) && leb 20 e.end_offset
    then (is_locator s (e.end_offset - 20) >>= λ here.
        if here then zip64_record s (e.end_offset - 20) e.tail else ok e)
    else ok e

-- The checks of the advertised numbers, and the position where the directory should start.
unfoldable pub directory_start : ℕ → Bytes → ScanState → Advertised → Scan ℕ
directory_start max_files s state e =
    if ltb max_files state.archive_files || ltb max_files (e.records + state.archive_files)
    then fails file_count
    else if ltb e.end_offset e.size || ltb (length s) e.offset
    then fails format
    else if leb (length s) (e.end_offset - e.size)
    then fails format
    else if ltb max_zip_metadata_bytes (e.tail + state.zip_metadata_bytes)
    then fails metadata_limit
    else ok (e.end_offset - e.size)

-- Both candidates for the directory's position, with the larger numbers of the two.
unfoldable pub count_candidates : ℕ → Bytes → ScanState → Advertised → ℕ → Checks → Scan Count
count_candidates max_files s state e start checks =
    let entries = max_files - state.archive_files in
    let bytes = max_zip_metadata_bytes - state.zip_metadata_bytes - e.tail in
    count_directory s start entries bytes checks >>= λ c.
    if ltb e.offset start
    then (count_directory s e.offset entries bytes c.checks >>= λ other. ok (record {
      headers = max c.headers other.headers;
      bytes = max c.bytes other.bytes;
      checks = other.checks;
    }))
    else ok c

unfoldable pub admit : ℕ → Bytes → ScanState → Scan ScanState
admit max_files s state = do
  found ← directory_end s state.checks
  first ← end_record s found.position
  e ← with_zip64 s first
  start ← directory_start max_files s state e
  c ← count_candidates max_files s state e start found.checks
  (if ltb c.headers e.records
      then fails format
      else ok (record {
        archive_files = state.archive_files + c.headers;
        zip_metadata_bytes = state.zip_metadata_bytes + (e.tail + c.bytes);
        checks = c.checks;
      }))
