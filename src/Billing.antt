-- ===== src/Billing.antt =====
-- Stripe subscriptions (backend/geolytics/billing.py): what a verified event says, what it does to
-- an organisation, and how deliveries that repeat or arrive out of order end.
pub mod Events
pub mod Apply
pub mod Signature
pub mod Webhook
