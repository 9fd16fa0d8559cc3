-- ===== src/Lambda.antt =====
-- The handlers of src/lambda that work through a batch. Logging is left out: it changes nothing
-- that the handlers read.
pub mod StreamPublisher
pub mod DeliveryWorker
