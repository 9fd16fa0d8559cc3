-- ===== src/Tests.antt =====
-- Runs of the model on concrete orders, and each result at concrete data.
mod Samples
pub mod Orders
pub mod Calls
pub mod Services
pub mod Delivery
pub mod Webhooks
pub mod Creation
pub mod Listing
pub mod Stream
pub mod Worker
pub mod Validation
pub mod Bodies
pub mod Cursor
pub mod Retries
