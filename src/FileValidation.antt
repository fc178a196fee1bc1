-- ===== src/FileValidation.antt =====
-- src/shared/security/file-validation.ts: file names, magic bytes, archives, and the verdict on a
-- document. The children hold the definitions (Bytes, Names, Headers, Zip, Document) and their laws.
pub mod Bytes
pub mod Names
pub mod Headers
pub mod Zip
pub mod Document
pub mod ZipTotal
pub mod ZipBounds
pub mod NameLaws
pub mod DocumentLaws
