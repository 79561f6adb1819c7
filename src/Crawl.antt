-- ===== src/Crawl.antt =====
-- The crawler (backend/geolytics/crawl).
pub mod Addresses
pub mod Guard
pub mod Robots
pub mod Links
pub mod Crawler
pub mod Loop
