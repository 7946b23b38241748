-- ===== src/Tests.antt =====
-- Concrete inputs: an in-memory database and Redis, a small state, and the theorems at them.
mod Memory
mod MemoryRedis
mod Sample
mod Bookings
mod Payments
mod Lifecycle
mod Meetings
mod Locks
mod Accounts
mod Reviews
mod Tickets
mod Buses
mod Gateways
