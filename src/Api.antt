-- ===== src/Api.antt =====
-- The HTTP interface (backend/geolytics/api): who a request comes from, and what the organisation
-- endpoints do to the tables. A handler that raises leaves the tables as they were, since `get_db`
-- rolls its session back.
pub mod Result
pub mod Deps
pub mod Slugs
pub mod Accounts
pub mod Members
pub mod Keys
pub mod Organizations
pub mod Audits
