-- ===== src/Examples/Archives.antt =====
-- internal/attachment/zip_limits.go: an archive with one entry.
use milter_guard.Prelude.{ℕ, zero, suc, ◌≤◌, none, [], ◌∷◌, ◌++◌, ◌≡◌, ◌≢◌, refl, arith}
use milter_guard.Prelude.Bytes.{Bytes}
use milter_guard.Zip.Reads.{ok, panics, check, u16_at, u32_at}
use milter_guard.Zip.Directory.{
  header_at, header_length, count_from, count_directory, search_window, directory_end,
}
use milter_guard.Zip.Directory.Chains.{Chain, count_directory-Chain}
use milter_guard.Zip.Admission.{
  ScanState, admit, end_record, with_zip64, directory_start, count_candidates,
}
use milter_guard.Zip.Admission.Safety.{admit-ne-panics}
use milter_guard.Zip.Admission.Bounds.{IsCovered, admit_bounds}

abbrev zeros : ℕ → Bytes
zeros zero = []
zeros (suc n) = 0 ∷ zeros n

-- A central header with empty fields, and an end record for one entry.
abbrev one_entry : Bytes
one_entry =
    0x50
    ∷ 0x4b
    ∷ 1
    ∷ 2
    ∷ (zeros 42
        ++ 0x50 ∷ 0x4b ∷ 5 ∷ 6 ∷ 0 ∷ 0 ∷ 0 ∷ 0 ∷ 1 ∷ 0 ∷ 1 ∷ 0 ∷ 46 ∷ 0 ∷ 0 ∷ 0 ∷ 0 ∷ 0 ∷ 0 ∷ 0 ∷ 0
          ∷ 0 ∷ [])

abbrev fresh : ScanState
fresh = record { archive_files = 2; zip_metadata_bytes = 100; checks = none }

abbrev after_one : ScanState
after_one = record { archive_files = 3; zip_metadata_bytes = 168; checks = none }

admits : admit 10 one_entry fresh ≡ ok after_one
unfolding admit directory_end search_window end_record with_zip64 directory_start count_candidates
    count_directory count_from header_at header_length u16_at u32_at check
admits = refl

counted_one :
    count_directory one_entry 0 5 100 none ≡ ok (record { headers = 1; bytes = 46; checks = none })
unfolding count_directory count_from header_at header_length u16_at u32_at check
counted_one = refl

admit_bounds_example : IsCovered 10 one_entry fresh after_one
admit_bounds_example = admit_bounds 10 one_entry fresh after_one (omega arith) (omega arith) admits

admit-ne-panics_example : admit 10 one_entry fresh ≢ panics
admit-ne-panics_example = admit-ne-panics 10 one_entry fresh

count_directory-Chain_example : Chain one_entry 0 1 46 × (1 ≤ 5) × (46 ≤ 100)
count_directory-Chain_example =
    count_directory-Chain one_entry 0 5 100 none (record { headers = 1; bytes = 46; checks = none })
      counted_one
