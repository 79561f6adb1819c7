-- ===== src/Chunking.antt =====
-- Cutting a document into chunks (backend/geolytics/chunking).
pub mod Base
pub mod Fixed
pub mod Ids
pub mod ParentChild
pub mod Sentence
