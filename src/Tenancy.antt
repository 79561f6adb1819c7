-- ===== src/Tenancy.antt =====
-- Who a caller is, what its plan allows and what it has used (backend/geolytics/tenancy).
pub mod Plans
pub mod Principal
pub mod Quotas
