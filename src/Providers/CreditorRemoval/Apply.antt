-- ===== src/Providers/CreditorRemoval/Apply.antt =====
-- `applyInBackground`: the contracts of a confirmed batch are cancelled one by one. The counts are
-- written to the row after every 25 contracts, at the end, and where a cancellation throws.
pub mod Stuck
use cobdata_back.Base.{
  ℕ, zero, suc, ◌+◌, ◌%◌, Bool, ◌||◌, none, some, List, [], ◌∷◌, ◌==◌, if◌then◌else◌, length,
  Outcome, returns, throws,
}
use cobdata_back.Contracts.{Text, Date}
use cobdata_back.Providers.Model.{ProviderState}
use cobdata_back.Providers.Operations.{OperationError, Ids}
use cobdata_back.Providers.Removal.{Cancellation, cancel_contract}
use cobdata_back.Providers.CreditorRemoval.{
  CreditorRemovalBatch, CreditorRemovalBatchStatus, with_status,
}

-- The counters of the loop.
pub record Progress : Type 0 where
  pub cancelled : ℕ
  pub queued : ℕ

abbrev pub with_progress : Progress → CreditorRemovalBatch → CreditorRemovalBatch
with_progress p b = record b { cancelled_count = p.cancelled; queued_for_serasa_removal = p.queued }

-- The row and the state of the other tables.
pub record ApplyState : Type 0 where
  pub batch : CreditorRemovalBatch
  pub tables : ProviderState

abbrev pub no_reason : Cancellation
no_reason = record { reason = none; channel = none }

abbrev pub is_saved : ℕ → ℕ → Bool
is_saved cancelled total = cancelled % 25 == 0 || cancelled == total

abbrev pub one_more : Bool → Progress → Progress
one_more removal_queued p = record {
  cancelled = p.cancelled + 1;
  queued = if removal_queued then p.queued + 1 else p.queued;
}

-- The ids from an index on.
abbrev pub remaining : ℕ → List Text → List Text
remaining zero cs = cs
remaining (suc n) [] = []
remaining (suc n) (c ∷ cs) = remaining n cs

-- `ids` are the new ids of the call for a contract, `now` the clock.
module _ (ids : Text → Ids) (now : Date) where
  abbrev pub cancel_one :
      CreditorRemovalBatch → Text → ProviderState → Outcome OperationError Bool × ProviderState
  cancel_one b contract_id =
      cancel_contract (ids contract_id) now contract_id b.user_id b.account_id (some b.creditor_id)
        no_reason

  pub apply_from :
      List Text → Progress → ApplyState → Outcome OperationError (Unit {0}) × ApplyState
  apply_from [] p s = (
    returns tt,
    record s { batch = with_status CreditorRemovalBatchStatus.completed (with_progress p s.batch) },
  )
  apply_from (c ∷ cs) p s =
      let skipped = apply_from cs p s in
      let (r, t) = cancel_one s.batch c s.tables in
      let rest = λ (removal_queued : Bool).
        let q = one_more removal_queued p in
        apply_from cs q (record {
          batch =
              if is_saved q.cancelled (length s.batch.contract_ids)
              then with_progress q s.batch
              else s.batch;
          tables = t;
        }) in
      if c == 0 then skipped else elim r [
        | returns removal_queued ↦ rest removal_queued
        | throws e ↦ (
          throws e,
          record {
            batch = with_status CreditorRemovalBatchStatus.failed (with_progress p s.batch);
            tables = t;
          },
        )
      ]

  unfoldable pub apply_in_background : ApplyState → Outcome OperationError (Unit {0}) × ApplyState
  unfolding apply_from
  apply_in_background s =
      apply_from (remaining s.batch.cancelled_count s.batch.contract_ids)
        (record { cancelled = s.batch.cancelled_count; queued = s.batch.queued_for_serasa_removal })
        s
