-- ===== src/Tests.antt =====
-- The theorems at concrete stores and inputs.
mod Fixtures
mod Accounts
mod Feed
mod Payments
mod Offers
mod Fees
mod Checkout
mod Members
mod Limits
mod Renewals
mod Durable
mod Memberships
mod Verifier
