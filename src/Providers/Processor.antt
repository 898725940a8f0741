-- ===== src/Providers/Processor.antt =====
-- src/providers/processors/operation.processor.ts: the worker that takes a job from the queue,
-- sends its items to Serasa and records the answer.
pub mod Queries
pub mod Answer
pub mod Completion
pub mod Run
use cobdata_back.Base.{
  ℕ, ◌+◌, Bool, true, false, not, ◌&&◌, Option, none, some, List, [], ◌∷◌, ◌==◌, if◌then◌else◌,
  or_default, or_else, find, any, keep, map, length, update_where,
}
use cobdata_back.Contracts.{Text, Date, Contract, SerasaStatus}
use cobdata_back.Payments.Store.{contract_has_id}
use cobdata_back.Providers.Model.{
  OperationAction, OperationStatus, OperationItemStatus, ErrorCode, ProviderOperation,
  ProviderOperationItem, OperationBatchJobData, ProviderRow, ProviderState, same_operation_status,
  operation_has_id, is_pending, is_item_of, is_pending_of, is_failed_of, is_one_of, has_text,
  update_contracts, update_items, update_operations, with_serasa,
}
use cobdata_back.Providers.Adapter.{
  PayloadWallet, portal, pre_calculada, Offer, DebtOrigin, DebtPayload, RemovePayload,
  ProviderConfig, SendResult, Request, sends, removes, Remote, is_success, send,
}
use cobdata_back.Providers.Requests.{
  Credentials, Texts, non_empty, wallet_name, debt_origin_of, offer_of, debt_type_of, debt_payload,
  debt_payloads, remove_payloads, request_of, key_of, provider_has_id, get_provider_config,
}

abbrev pub in_batch : Text → ℕ → ProviderOperationItem → Bool
in_batch operation_id batch_index i =
    is_item_of operation_id i && (i.batch_index == batch_index && is_pending i)

abbrev pub ids_of : List ProviderOperationItem → List Text
ids_of items = map (λ (i : ProviderOperationItem). i.id) items

abbrev pub contracts_of : List ProviderOperationItem → List Text
contracts_of items = map (λ (i : ProviderOperationItem). i.contract_id) items

-- One more attempt, with this status.
abbrev pub attempted : Date → OperationItemStatus → ProviderOperationItem → ProviderOperationItem
attempted now status i = record i {
  status = status;
  attempts = i.attempts + 1;
  last_attempt_at = some now;
}

abbrev pub accepted : Date → SendResult → ProviderOperationItem → ProviderOperationItem
accepted now result i = record (attempted now OperationItemStatus.waiting_provider_event i) {
  transaction_id = non_empty result.transaction_id;
}

abbrev pub rejected : Date → ErrorCode → ProviderOperationItem → ProviderOperationItem
rejected now code i = record (attempted now OperationItemStatus.failed i) { error_code = some code }

abbrev pub answer_items :
    Text
    → List ProviderOperationItem
    → (ProviderOperationItem → ProviderOperationItem)
    → ProviderState
    → ProviderState
answer_items operation_id items f =
    update_items (λ i. i.operation_id == operation_id && is_one_of (ids_of items) i.id) f

abbrev pub answer_contracts :
    List ProviderOperationItem → SerasaStatus → ProviderState → ProviderState
answer_contracts items status =
    update_contracts (λ c. is_one_of (contracts_of items) c.id) (with_serasa status)

abbrev pub accept :
    Date
    → Text
    → List ProviderOperationItem
    → SendResult
    → SerasaStatus
    → ProviderState
    → ProviderState
accept now operation_id items result status s =
    answer_contracts items status (answer_items operation_id items (accepted now result) s)

abbrev pub error_of : SendResult → ErrorCode
error_of result = elim (non_empty result.error) [
  | none ↦ ErrorCode.http result.http_status
  | some code ↦ ErrorCode.of_provider code
]

abbrev pub reject :
    Date → Text → List ProviderOperationItem → SendResult → ProviderState → ProviderState
reject now operation_id items result s =
    answer_contracts items SerasaStatus.failed
      (answer_items operation_id items (rejected now (error_of result)) s)

abbrev pub keep_debt_id : ProviderOperationItem → Option Text → ProviderState → ProviderState
keep_debt_id i debt s = record s {
  store = record s.store {
    contracts =
        if has_text debt
        then update_where (contract_has_id i.contract_id) (λ c. record c { debt_id = debt })
            s.store.contracts
        else s.store.contracts;
  };
}

-- The ids of the debts, which a response gives in the order of the items.
unfoldable pub keep_debt_ids :
    List ProviderOperationItem → List (Option Text) → ProviderState → ProviderState
keep_debt_ids [] debts s = s
keep_debt_ids (i ∷ is) [] s = s
keep_debt_ids (i ∷ is) (d ∷ ds) s = keep_debt_ids is ds (keep_debt_id i d s)

unfoldable pub process_create_batch :
    Date → Text → List ProviderOperationItem → SendResult → ProviderState → ProviderState
process_create_batch now operation_id items result s =
    if result.http_status == 202
    then keep_debt_ids items result.debt_ids
        (accept now operation_id items result SerasaStatus.sent s)
    else if is_success result.http_status
    then answer_contracts items SerasaStatus.registered
        (answer_items operation_id items (attempted now OperationItemStatus.updated) s)
    else reject now operation_id items result s

unfoldable pub process_remove_batch :
    Date → Text → List ProviderOperationItem → SendResult → ProviderState → ProviderState
process_remove_batch now operation_id items result s =
    if result.http_status == 202
    then accept now operation_id items result SerasaStatus.removing s
    else reject now operation_id items result s

abbrev pub process_batch :
    OperationAction
    → Date
    → Text
    → List ProviderOperationItem
    → SendResult
    → ProviderState
    → ProviderState
process_batch OperationAction.create_or_update = process_create_batch
process_batch OperationAction.remove = process_remove_batch

abbrev pub final_status : Text → ProviderState → OperationStatus
final_status operation_id s =
    let failed_items = length (keep (is_failed_of operation_id) s.items) in
    let total_items = length (keep (is_item_of operation_id) s.items) in
    if failed_items == 0
    then OperationStatus.completed
    else if failed_items == total_items
    then OperationStatus.failed
    else OperationStatus.partially_failed

unfoldable pub update_operation_status_if_complete : Text → ProviderState → ProviderState
update_operation_status_if_complete operation_id s =
    if any (is_pending_of operation_id) s.items
    then s
    else update_operations (operation_has_id operation_id)
        (λ o. record o { status = final_status operation_id s }) s

abbrev pub is_cancelled : Text → ProviderState → Bool
is_cancelled operation_id s = elim (find (operation_has_id operation_id) s.operations) [
  | none ↦ false
  | some o ↦ same_operation_status o.status OperationStatus.cancelled
]

abbrev pub start : Text → ProviderState → ProviderState
start operation_id s =
    update_operations
      (λ o. o.id == operation_id && same_operation_status o.status OperationStatus.pending)
      (λ o. record o { status = OperationStatus.processing }) s

-- The `catch` of `process`.
abbrev pub fail_batch : Date → Text → ℕ → ProviderState → ProviderState
fail_batch now operation_id batch_index s =
    update_items (in_batch operation_id batch_index) (rejected now ErrorCode.processing_error) s

module _ (remote : Remote) (texts : Texts) where
  -- What `process` does with the items of a batch.
  unfoldable pub handle_batch :
      Date → OperationBatchJobData → List ProviderOperationItem → ProviderState → ProviderState
  handle_batch now job items s = elim (get_provider_config texts job.provider_id s) [
    | none ↦ fail_batch now job.operation_id job.batch_index s
    | some config ↦
        process_batch job.action now job.operation_id items
          (send remote config (request_of texts job.action s.store.contracts items)) s
  ]

  unfoldable pub process : Date → OperationBatchJobData → ProviderState → ProviderState
  process now job s =
      let started = start job.operation_id s in
      let items = keep (in_batch job.operation_id job.batch_index) started.items in
      if is_cancelled job.operation_id started
      then started
      else update_operation_status_if_complete job.operation_id
          (if length items == 0 then started else handle_batch now job items started)
