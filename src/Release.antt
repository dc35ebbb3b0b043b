-- ===== src/Release.antt =====
-- scripts/release_archive.py and scripts/validate-release.py: the archives of a release, and what
-- has to hold of its sources and of its files.
pub mod Paths
pub mod Archives
pub mod Validation
pub mod Tests
