-- ===== src/Media.antt =====
-- src/modules/media: the services on documents.
pub mod Promotion
pub mod Upload
pub mod Documents
pub mod Collab
