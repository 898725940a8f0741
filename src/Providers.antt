-- ===== src/Providers.antt =====
-- src/providers/: the inclusion of debts at Serasa and their removal. An operation is a set of
-- items, one for each contract; a queue worker sends each item as a request of its own, and Serasa
-- answers later by a webhook.
pub mod Model
pub mod Adapter
pub mod Selection
pub mod Operations
pub mod Removal
pub mod Requests
pub mod Processor
pub mod Created
pub mod Invariant
pub mod Payload
pub mod Webhooks
pub mod Stranded
pub mod Race
pub mod CreditorRemoval
mod Tests
