-- ===== src/Zip/Admission/Safety.antt =====
-- internal/attachment/zip_limits.go: the range of what `admitZIPDirectory` reads.
use milter_guard.Prelude.{ℕ, ◌+◌, ◌-◌, ◌≤◌, ◌≡◌, ◌≢◌, length, arith, leb, ltb, ◌==◌, ◌&&◌, ◌||◌}
use milter_guard.Prelude.Bytes.{Bytes}
use milter_guard.Zip.Reads.{ok, panics, >>=-eq-ok, u16_at, u32_at, u64_at, u64_at-ok, Checks, ◌>>=◌}
use milter_guard.Zip.Directory.{count_directory, directory_end}
use milter_guard.Zip.Directory.Ends.{
  >>=-ne-panics, if-ne-panics, u16_at-ne-panics, u32_at-ne-panics, count_directory-ne-panics,
  directory_end-ne-panics, directory_end-inside,
}
use milter_guard.Zip.Admission.{
  ScanState, Advertised, max_zip_metadata_bytes, end_record, is_locator, zip64_fields, zip64_record,
  with_zip64, directory_start, count_candidates, admit,
}

u64_at-ne-panics : (s : Bytes) (p : ℕ) → p + 8 ≤ length s → u64_at s p ≢ panics
u64_at-ne-panics s p h e = let (v, r) = u64_at-ok s p h in cc

end_record-ne-panics : (s : Bytes) (p : ℕ) → p + 22 ≤ length s → end_record s p ≢ panics
unfolding end_record
end_record-ne-panics s p h =
    >>=-ne-panics (u16_at s (p + 10)) _ (u16_at-ne-panics s (p + 10) (omega arith)) (λ records _.
      >>=-ne-panics (u32_at s (p + 12)) _ (u32_at-ne-panics s (p + 12) (omega arith)) (λ size _.
        >>=-ne-panics (u32_at s (p + 16)) _ (u32_at-ne-panics s (p + 16) (omega arith)) (λ offset _.
          >>=-ne-panics (u16_at s (p + 20)) _ (u16_at-ne-panics s (p + 20) (omega arith))
            (λ comment _ e. cc))))

end_record-position :
    (s : Bytes) (p : ℕ) (e : Advertised) → end_record s p ≡ ok e → e.end_offset ≡ p
unfolding end_record
end_record-position s p e h =
    let (records, _, h₁) = >>=-eq-ok (u16_at s (p + 10)) _ h in
    let (size, _, h₂) = >>=-eq-ok (u32_at s (p + 12)) _ h₁ in
    let (offset, _, h₃) = >>=-eq-ok (u32_at s (p + 16)) _ h₂ in
    let (comment, _, h₄) = >>=-eq-ok (u16_at s (p + 20)) _ h₃ in ground arith

test-ne-panics :
    (s : Bytes) (p w : ℕ) → p + 4 ≤ length s → (u32_at s p >>= λ v. ok (v == w)) ≢ panics
test-ne-panics s p w h = >>=-ne-panics (u32_at s p) _ (u32_at-ne-panics s p h) (λ v _ e. cc)

is_locator-ne-panics : (s : Bytes) (p : ℕ) → p + 20 ≤ length s → is_locator s p ≢ panics
unfolding is_locator
is_locator-ne-panics s p h =
    >>=-ne-panics (u32_at s p >>= λ v. ok (v == 0x07064b50)) _
      (test-ne-panics s p 0x07064b50 (omega arith))
      (λ b _.
        if-ne-panics b _ _
          (λ _.
            >>=-ne-panics (u32_at s (p + 4) >>= λ v. ok (v == 0)) _
              (test-ne-panics s (p + 4) 0 (omega arith))
              (λ b' _.
                if-ne-panics b' _ _ (λ _. test-ne-panics s (p + 16) 1 (omega arith)) (λ _ e. cc)))
          (λ _ e. cc))

zip64_fields-ne-panics :
    (s : Bytes) (p tail : ℕ) → p + 56 ≤ length s → zip64_fields s p tail ≢ panics
unfolding zip64_fields
zip64_fields-ne-panics s p tail h =
    >>=-ne-panics (u64_at s (p + 32)) _ (u64_at-ne-panics s (p + 32) (omega arith)) (λ records _.
      >>=-ne-panics (u64_at s (p + 40)) _ (u64_at-ne-panics s (p + 40) (omega arith)) (λ size _.
        >>=-ne-panics (u64_at s (p + 48)) _ (u64_at-ne-panics s (p + 48) (omega arith))
          (λ offset _ e. cc)))

zip64_record-ne-panics :
    (s : Bytes) (locator tail : ℕ) → locator + 16 ≤ length s → zip64_record s locator tail ≢ panics
unfolding zip64_record
zip64_record-ne-panics s locator tail h =
    >>=-ne-panics (u64_at s (locator + 8)) _ (u64_at-ne-panics s (locator + 8) (omega arith))
      (λ position _.
        if-ne-panics (ltb (length s) 56 || ltb (length s) (position + 56)) _ _ (λ _ e. cc)
          (λ inside.
            >>=-ne-panics (u32_at s position) _ (u32_at-ne-panics s position (ground arith))
              (λ signature _.
                if-ne-panics (signature == 0x06064b50) _ _
                  (λ _. zip64_fields-ne-panics s position tail (ground arith)) (λ _ e. cc))))

with_zip64-ne-panics :
    (s : Bytes) (e : Advertised) → e.end_offset ≤ length s → with_zip64 s e ≢ panics
unfolding with_zip64
with_zip64-ne-panics s e h =
    if-ne-panics
      ((e.records == 0xffff || e.size == 0xffff || e.offset == 0xffffffff) && leb 20 e.end_offset) _
      _
      (λ t.
        >>=-ne-panics (is_locator s (e.end_offset - 20)) _
          (is_locator-ne-panics s (e.end_offset - 20) (ground arith))
          (λ here _.
            if-ne-panics here _ _
              (λ _. zip64_record-ne-panics s (e.end_offset - 20) e.tail (ground arith))
              (λ _ e'. cc)))
      (λ _ e'. cc)

directory_start-ne-panics :
    (max_files : ℕ) (s : Bytes) (state : ScanState) (e : Advertised)
    → directory_start max_files s state e ≢ panics
unfolding directory_start
directory_start-ne-panics max_files s state e h = ground arith

count_candidates-ne-panics :
    (max_files : ℕ) (s : Bytes) (state : ScanState) (e : Advertised) (start : ℕ) (checks : Checks)
    → count_candidates max_files s state e start checks ≢ panics
unfolding count_candidates
count_candidates-ne-panics max_files s state e start checks =
    let entries = max_files - state.archive_files in
    let bytes = max_zip_metadata_bytes - state.zip_metadata_bytes - e.tail in
    >>=-ne-panics (count_directory s start entries bytes checks) _
      (count_directory-ne-panics s start entries bytes checks)
      (λ c _.
        if-ne-panics (ltb e.offset start) _ _
          (λ _.
            >>=-ne-panics (count_directory s e.offset entries bytes c.checks) _
              (count_directory-ne-panics s e.offset entries bytes c.checks) (λ other _ e'. cc))
          (λ _ e'. cc))

-- For every archive, every limit and every state of the scan, the admission ends with an answer or
-- one of its errors: no read is out of range, whatever counts, sizes and offsets the archive claims.
pub admit-ne-panics :
    (max_files : ℕ) (s : Bytes) (state : ScanState) → admit max_files s state ≢ panics
unfolding admit
admit-ne-panics max_files s state =
    >>=-ne-panics (directory_end s state.checks) _ (directory_end-ne-panics s state.checks)
      (λ found e.
        let inside = directory_end-inside s state.checks found e in
        >>=-ne-panics (end_record s found.position) _ (end_record-ne-panics s found.position inside)
          (λ first e₁.
            let at_end = end_record-position s found.position first e₁ in
            >>=-ne-panics (with_zip64 s first) _ (with_zip64-ne-panics s first (omega arith))
              (λ a _.
                >>=-ne-panics (directory_start max_files s state a) _
                  (directory_start-ne-panics max_files s state a)
                  (λ start _.
                    >>=-ne-panics (count_candidates max_files s state a start found.checks) _
                      (count_candidates-ne-panics max_files s state a start found.checks)
                      (λ c _.
                        if-ne-panics (ltb c.headers a.records) _ _ (λ _ e'. cc) (λ _ e'. cc))))))
