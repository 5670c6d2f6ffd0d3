-- ===== src/Zip/Admission/Bounds.antt =====
-- internal/attachment/zip_limits.go: what an admission has counted, and what it leaves of the budgets.
use milter_guard.Prelude.{ℕ, ◌+◌, ◌-◌, ◌≤◌, ◌≡◌, arith, Bool-cases, ◌⊎◌, inl, inr, ltb}
use milter_guard.Prelude.Bytes.{Bytes}
use milter_guard.Zip.Reads.{ok, >>=-eq-ok, Checks}
use milter_guard.Zip.Directory.{Count, count_directory, End, directory_end}
use milter_guard.Zip.Directory.Chains.{Chain, count_directory-Chain}
use milter_guard.Zip.Admission.{
  ScanState, Advertised, max_zip_metadata_bytes, end_record, with_zip64, directory_start,
  count_candidates, admit,
}

-- The archive's end records advertise `a`.
pub record Advertises (s : Bytes) (checks : Checks) (a : Advertised) : Type 0 where
  pub found : End
  pub first : Advertised
  pub ends : directory_end s checks ≡ ok found
  pub reads : end_record s found.position ≡ ok first
  pub extends : with_zip64 s first ≡ ok a

-- What a successful admission went through.
pub record Admitted (max_files : ℕ) (s : Bytes) (state after : ScanState) : Type 0 where
  pub advertised : Advertised
  pub source : Advertises s state.checks advertised
  pub start : ℕ
  pub counted : Count
  pub within : directory_start max_files s state advertised ≡ ok start
  pub candidates :
      (checks : Checks) × (count_candidates max_files s state advertised start checks ≡ ok counted)
  pub honest : advertised.records ≤ counted.headers
  pub files : after.archive_files ≡ state.archive_files + counted.headers
  pub bytes :
      after.zip_metadata_bytes ≡ state.zip_metadata_bytes + (advertised.tail + counted.bytes)

-- `n` headers of `b` bytes are paid for.
abbrev pub Charged : ScanState → ScanState → Advertised → ℕ → ℕ → Type 0
Charged state after a n b =
    (state.archive_files + n ≤ after.archive_files)
    × (state.zip_metadata_bytes + a.tail + b ≤ after.zip_metadata_bytes)

admit-Admitted :
    (max_files : ℕ) (s : Bytes) (state after : ScanState)
    → admit max_files s state ≡ ok after
    → Admitted max_files s state after
unfolding admit
admit-Admitted max_files s state after h =
    let (found, e₁, h₁) = >>=-eq-ok (directory_end s state.checks) _ h in
    let (first, e₂, h₂) = >>=-eq-ok (end_record s found.position) _ h₁ in
    let (a, e₃, h₃) = >>=-eq-ok (with_zip64 s first) _ h₂ in
    let (start, e₄, h₄) = >>=-eq-ok (directory_start max_files s state a) _ h₃ in
    let (c, e₅, h₅) = >>=-eq-ok (count_candidates max_files s state a start found.checks) _ h₄ in
    record {
      advertised = a;
      source = record { found = found; first = first; ends = e₁; reads = e₂; extends = e₃ };
      start = start;
      counted = c;
      within = e₄;
      candidates = (found.checks, e₅);
      honest = ground arith;
      files = ground arith;
      bytes = ground arith;
    }

-- The count covers the chain from the inferred start, and that from the advertised offset where the
-- reader may prefer it.
pub record Covers (max_files : ℕ) (s : Bytes) (state : ScanState) (a : Advertised) (start : ℕ)
    (c : Count) : Type 0 where
  pub inferred : (n : ℕ) × (b : ℕ) × Chain s start n b × (n ≤ c.headers) × (b ≤ c.bytes)
  pub preferred :
      (start ≤ a.offset)
      ⊎ ((n : ℕ) × (b : ℕ) × Chain s a.offset n b × (n ≤ c.headers) × (b ≤ c.bytes))
  pub files_fit : c.headers ≤ max_files - state.archive_files
  pub bytes_fit : c.bytes ≤ max_zip_metadata_bytes - state.zip_metadata_bytes - a.tail

count_candidates-Covers :
    (max_files : ℕ) (s : Bytes) (state : ScanState) (a : Advertised) (start : ℕ) (checks : Checks)
    (c : Count)
    → count_candidates max_files s state a start checks ≡ ok c
    → Covers max_files s state a start c
unfolding count_candidates
count_candidates-Covers max_files s state a start checks c h =
    let entries = max_files - state.archive_files in
    let bytes = max_zip_metadata_bytes - state.zip_metadata_bytes - a.tail in
    let (first, e, h₁) = >>=-eq-ok (count_directory s start entries bytes checks) _ h in
    let (chain, few, small) = count_directory-Chain s start entries bytes checks first e in
    elim (Bool-cases (ltb a.offset start)) [
      | inl t ↦
          let (other, e₂, h₂) =
            >>=-eq-ok (count_directory s a.offset entries bytes first.checks) _ (rw t at h₁) in
          let (chain', few', small') =
            count_directory-Chain s a.offset entries bytes first.checks other e₂ in
          record {
            inferred = (first.headers, first.bytes, chain, ground arith, ground arith);
            preferred = inr (other.headers, other.bytes, chain', ground arith, ground arith);
            files_fit = ground arith;
            bytes_fit = ground arith;
          }
      | inr f ↦ record {
        inferred = (first.headers, first.bytes, chain, ground arith, ground arith);
        preferred = inl (ground arith);
        files_fit = ground arith;
        bytes_fit = ground arith;
      }
    ]

directory_start-facts :
    (max_files : ℕ) (s : Bytes) (state : ScanState) (a : Advertised) (start : ℕ)
    → directory_start max_files s state a ≡ ok start
    → (start + a.size ≡ a.end_offset) × (a.tail + state.zip_metadata_bytes ≤ max_zip_metadata_bytes)
unfolding directory_start
directory_start-facts max_files s state a start h = ground arith

-- The budgets are within their limits, and cover what the archive advertises and holds.
abbrev pub IsCovered : ℕ → Bytes → ScanState → ScanState → Type 0
IsCovered max_files s state after =
    (after.archive_files ≤ max_files)
    × (after.zip_metadata_bytes ≤ max_zip_metadata_bytes)
    × ((a : Advertised) × (start : ℕ) × Advertises s state.checks a
        × (start + a.size ≡ a.end_offset)
        × (state.archive_files + a.records ≤ after.archive_files)
        × ((n : ℕ) × (b : ℕ) × Chain s start n b × Charged state after a n b)
        × ((start ≤ a.offset)
            ⊎ ((n : ℕ) × (b : ℕ) × Chain s a.offset n b × Charged state after a n b)))

-- After a successful admission the budgets are within their limits if they were before. With what
-- the end records advertise: the entries charged are at least the advertised number, and at least the
-- chain of central headers that starts where the directory is inferred to be; where the advertised
-- offset lies in front of that, also at least the chain that starts there. The metadata charged cover
-- the end records and the bytes of each of these chains.
pub admit_bounds :
    (max_files : ℕ) (s : Bytes) (state after : ScanState)
    → state.archive_files ≤ max_files
    → state.zip_metadata_bytes ≤ max_zip_metadata_bytes
    → admit max_files s state ≡ ok after
    → IsCovered max_files s state after
admit_bounds max_files s state after files bytes h =
    let r = admit-Admitted max_files s state after h in
    let v =
      count_candidates-Covers max_files s state r.advertised r.start r.candidates.0 r.counted
        r.candidates.1 in
    let (begins, room) = directory_start-facts max_files s state r.advertised r.start r.within in
    let (n, b, chain, few, small) = v.inferred in
    (
      omega (arith, r.files, v.files_fit),
      omega (arith, r.bytes, v.bytes_fit, room),
      (
        r.advertised,
        r.start,
        r.source,
        begins,
        omega (arith, r.files, r.honest),
        (n, b, chain, (omega (arith, r.files, few), omega (arith, r.bytes, small))),
        elim v.preferred [
          | inl behind ↦ inl behind
          | inr (n', b', chain', few', small') ↦
              inr (n', b', chain', (omega (arith, r.files, few'), omega (arith, r.bytes, small')))
        ],
      ),
    )
