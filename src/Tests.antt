-- ===== src/Tests.antt =====
-- The theorems at concrete inputs: one board with a manager, a reviewer and a contributor, and a
-- superuser who verified a second factor.
mod Samples
mod Decisions
mod Memberships
mod Sessions
mod Guards
mod Deliveries
mod Chains
mod Devices
mod Articles
