-- ===== src/Client.antt =====
-- src/client: what a caller of the service keeps.
pub mod IdempotentOperation
