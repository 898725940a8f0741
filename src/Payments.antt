-- ===== src/Payments.antt =====
-- src/payments/: charges, their life cycle, settlements, and the webhook of Banco do Brasil.
pub mod Model
pub mod Fixtures
pub mod Store
pub mod Factory
pub mod Lifecycle
pub mod Settlement
pub mod PixWebhook
pub mod Charges
pub mod Agreements
