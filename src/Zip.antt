-- ===== src/Zip.antt =====
-- internal/attachment/zip_limits.go: the admission of a ZIP directory before its records are read.
pub mod Reads
pub mod Directory
pub mod Admission
