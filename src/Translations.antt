-- ===== src/Translations.antt =====
-- scripts/check-translations.py: the messages of a PO catalog, the texts that QML sources hand to
-- `ttopTr`, and the comparison of both.
pub mod Catalog
pub mod Sources
pub mod Verdict
pub mod Tests
