-- ===== src/Index.antt =====
-- Where chunk vectors are kept and searched (backend/geolytics/index).
pub mod Numbers
pub mod Memory
