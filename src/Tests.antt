-- ===== src/Tests.antt =====
-- Concrete runs of the program, at which the theorems with hypotheses are applied.
mod Tenancy
mod Billing
mod Limits
mod Members
mod Keys
mod Crawl
mod Crawling
mod Audits
mod Chunking
mod Jwt
mod Sentences
mod Index
mod Webhook
mod Worker
mod Accounts
mod Tokens
