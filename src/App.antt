-- ===== src/App.antt =====
-- src/application: the services, over a repository that other invocations use at the same time.
pub mod Validation
pub mod CreateOrder
pub mod World
pub mod ChangeStatus
pub mod ProviderWebhook
pub mod Delivery
pub mod PreparePayment
pub mod StripeProposal
pub mod StripeWebhook
