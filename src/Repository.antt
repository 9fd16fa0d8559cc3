-- ===== src/Repository.antt =====
-- The order repository: the contract of src/application/*-repository.ts and its in-memory
-- implementation, src/infrastructure/memory/in-memory-order-repository.ts.
pub mod Listing
pub mod Contract
pub mod State
pub mod Orders
pub mod Saving
pub mod Stripe
pub mod WellFormed
pub mod Effects
pub mod Calls
pub mod Advances
pub mod Preserves
pub mod Idempotency
pub mod Payments
pub mod Binding
