-- ===== src/Domain.antt =====
-- src/domain: the order aggregate, its payment, and the rules by which they change.
pub mod Status
pub mod Order
pub mod Errors
pub mod Transition
pub mod PaymentChange
pub mod Lifecycle
