-- ===== src/Retrieval.antt =====
-- Ranking the chunks for a query (backend/geolytics/retrieval).
pub mod Numbers
pub mod Order
pub mod Fusion
pub mod Retrievers
