-- ===== src/Providers/Operations.antt =====
-- src/providers/operations.service.ts: what creates and cancels an operation. The ids of new rows
-- and the clock are arguments.
use cobdata_back.Base.{
  ℕ, zero, suc, ◌+◌, ◌-◌, ◌/◌, Bool, true, false, not, ◌&&◌, none, some, List, [], ◌∷◌, ◌++◌, ◌==◌,
  find, keep, map, length, Method, return, throw_if, or_throw, gets, modify, ◌>>=◌, ◌>>◌,
}
use cobdata_back.Contracts.{
  Text, Date, Contract, ContractStatus, PaymentStatus, SerasaStatus, same_contract_status,
  same_payment_status,
}
use cobdata_back.Payments.Store.{contract_has_id}
use cobdata_back.Providers.Model.{
  OperationAction, OperationStatus, OperationItemStatus, ErrorCode, ProviderOperation,
  ProviderOperationItem, OperationBatchJobData, WalletRow, ProviderRow, ProviderState, same_action,
  same_operation_status, operation_has_id, is_pending_of, is_waiting, is_item_of, is_one_of,
  has_text, update_contracts, update_items, update_operations, with_serasa, add_jobs,
}
use cobdata_back.Providers.Selection.{
  OperationContractFilters, get_eligible_statuses, select_eligible_contracts, eligible_for_create,
  eligible_for_remove, includes,
}

-- The exceptions of the service, one for each message.
pub data OperationError : Type 0 where
  wallet_not_found serasa_not_active resync_is_an_update : OperationError
  no_eligible_contract contract_not_found debt_not_open not_eligible : OperationError
  debt_id_unknown operation_not_found nothing_to_send_again already_cancelled : OperationError
  no_active_user : OperationError
  not_cancellable : OperationStatus → OperationError

abbrev pub Service : Type 0 → Type 0
Service A = Method ProviderState OperationError A

abbrev pub batch_size : ℕ
batch_size = 1

-- `Math.ceil(total / BATCH_SIZE)`
abbrev pub batch_count : ℕ → ℕ
batch_count total = (total + batch_size - 1) / batch_size

abbrev pub is_wallet : Text → Text → WalletRow → Bool
is_wallet id account_id w = w.id == id && (w.account_id == account_id && not w.deleted)

abbrev pub of_account : Text → ProviderRow → Bool
of_account account_id p = p.account_id == account_id

abbrev pub get_wallet : Text → Text → Service WalletRow
get_wallet id account_id s = or_throw (find (is_wallet id account_id) s.wallets) wallet_not_found s

abbrev pub get_serasa_provider : Text → Service ProviderRow
get_serasa_provider account_id s =
    or_throw (find (of_account account_id) s.providers) serasa_not_active s

abbrev pub assert_resync_action : OperationAction → Bool → Service (Unit {0})
assert_resync_action action resync_only =
    throw_if (resync_only && not (same_action action OperationAction.create_or_update))
      resync_is_an_update

-- The status of a contract whose operation was queued.
abbrev pub submitted : OperationAction → SerasaStatus
submitted OperationAction.remove = SerasaStatus.removing
submitted OperationAction.create_or_update = SerasaStatus.sent

abbrev pub new_item : Text → Text → Text → ℕ → ProviderOperationItem
new_item id operation_id contract_id batch_index = record {
  id = id;
  operation_id = operation_id;
  contract_id = contract_id;
  batch_index = batch_index;
  status = OperationItemStatus.pending;
  transaction_id = none;
  debt_id = none;
  error_code = none;
  attempts = 0;
  last_attempt_at = none;
}

-- The items of a new operation from an index on, for these contracts.
unfoldable pub items_from : Text → (ℕ → Text) → ℕ → List Text → List ProviderOperationItem
items_from operation_id item_id index [] = []
items_from operation_id item_id index (c ∷ cs) =
    new_item (item_id index) operation_id c (index / batch_size)
    ∷ items_from operation_id item_id (index + 1) cs

-- The jobs of the next batches of an operation, from an index on.
unfoldable pub jobs_from : ProviderOperation → ℕ → ℕ → List OperationBatchJobData
jobs_from op index zero = []
jobs_from op index (suc n) =
    record {
      operation_id = op.id;
      batch_index = index;
      provider_id = op.provider_id;
      action = op.action;
    }
    ∷ jobs_from op (index + 1) n

abbrev pub contract_ids : List Contract → List Text
contract_ids cs = map (λ (c : Contract). c.id) cs

-- The transaction of `create` and `createForContract`.
unfoldable pub submit : ProviderOperation → (ℕ → Text) → List Text → ProviderState → ProviderState
submit op item_id ids s =
    update_contracts (λ c. is_one_of ids c.id) (with_serasa (submitted op.action))
      (record s {
        operations = s.operations ++ op ∷ [];
        items = s.items ++ items_from op.id item_id 0 ids;
      })

-- The rows that a call makes: its operation, and its items by their index.
pub record Ids : Type 0 where
  pub operation : Text
  pub item : ℕ → Text

abbrev pub new_operation :
    Text → Text → Text → Text → Text → OperationAction → ℕ → ProviderOperation
new_operation id account_id provider_id wallet_id user_id action total_items = record {
  id = id;
  account_id = account_id;
  provider_id = provider_id;
  wallet_id = wallet_id;
  user_id = user_id;
  action = action;
  status = OperationStatus.pending;
  total_items = total_items;
}

pub record CreateOperationParams : Type 0 where
  pub wallet_id : Text
  pub action : OperationAction
  pub user_id : Text
  pub account_id : Text
  pub filters : OperationContractFilters

module _ (contains : Text → Text → Bool) (today : Date) where
  abbrev pub selection : Text → OperationAction → OperationContractFilters → Service (List Contract)
  selection wallet_id action filters = gets (λ s.
      select_eligible_contracts contains today wallet_id action
        (get_eligible_statuses action filters.resync_only) filters s.store.contracts)

  -- The count of the eligible contracts and of their batches.
  pub preview : Text → OperationAction → Text → OperationContractFilters → Service (ℕ × ℕ)
  preview wallet_id action account_id filters = do
    get_wallet wallet_id account_id
    get_serasa_provider account_id
    assert_resync_action action filters.resync_only
    contracts ← selection wallet_id action filters
    return (length contracts, batch_count (length contracts))

  unfoldable pub create : Ids → CreateOperationParams → Service ProviderOperation
  create ids params = do
    get_wallet params.wallet_id params.account_id
    provider ← get_serasa_provider params.account_id
    assert_resync_action params.action params.filters.resync_only
    contracts ← selection params.wallet_id params.action params.filters
    throw_if (length contracts == 0) no_eligible_contract
    let op =
        new_operation ids.operation params.account_id provider.id params.wallet_id params.user_id
          params.action (length contracts)
    modify (submit op ids.item (contract_ids contracts))
    modify (add_jobs (jobs_from op 0 (batch_count (length contracts))))
    return op

-- The statuses from which one contract can be submitted.
abbrev pub contract_statuses : OperationAction → Bool → List SerasaStatus
contract_statuses OperationAction.remove allow = eligible_for_remove ++ SerasaStatus.sent ∷ []
contract_statuses OperationAction.create_or_update true =
    eligible_for_create ++ SerasaStatus.registered ∷ SerasaStatus.updated ∷ []
contract_statuses OperationAction.create_or_update false = eligible_for_create

abbrev pub is_active_contract : Text → Text → Contract → Bool
is_active_contract id account_id c =
    c.id == id
    && (c.account_id == account_id
        && (not c.deleted && same_contract_status c.status ContractStatus.active))

unfoldable pub create_for_contract :
    Ids → Text → Text → Text → OperationAction → Bool → Service ProviderOperation
create_for_contract ids contract_id user_id account_id action allow_registered_update = do
  found ← gets (λ s. find (is_active_contract contract_id account_id) s.store.contracts)
  contract ← or_throw found contract_not_found
  throw_if
      (same_action action OperationAction.create_or_update
        && not (same_payment_status contract.payment_status PaymentStatus.open_debt))
      debt_not_open
  provider ← get_serasa_provider account_id
  throw_if
      (not (includes (contract_statuses action allow_registered_update) contract.serasa_status))
      not_eligible
  throw_if (same_action action OperationAction.remove && not (has_text contract.debt_id))
      debt_id_unknown
  let op = new_operation ids.operation account_id provider.id contract.wallet.id user_id action 1
  modify (submit op ids.item (contract.id ∷ []))
  modify (add_jobs (jobs_from op 0 1))
  return op

-- An item that was sent and whose inclusion is not confirmed.
abbrev pub is_unconfirmed : Text → List Contract → ProviderOperationItem → Bool
is_unconfirmed operation_id contracts i =
    is_item_of operation_id i
    && (is_waiting i && elim (find (contract_has_id i.contract_id) contracts) [
      | none ↦ false
      | some c ↦
          same_contract_status c.status ContractStatus.active
          && (same_payment_status c.payment_status PaymentStatus.open_debt
              && includes (SerasaStatus.sent ∷ []) c.serasa_status)
    ])

abbrev pub is_creation_of : Text → Text → ProviderOperation → Bool
is_creation_of id account_id o =
    o.id == id
    && (o.account_id == account_id && same_action o.action OperationAction.create_or_update)

unfoldable pub retry_unconfirmed_create_operation :
    Ids → Text → Text → Text → Service ProviderOperation
retry_unconfirmed_create_operation ids source_operation_id user_id account_id = do
  found ← gets (λ s. find (is_creation_of source_operation_id account_id) s.operations)
  source ← or_throw found operation_not_found
  items ← gets (λ s. keep (is_unconfirmed source.id s.store.contracts) s.items)
  throw_if (length items == 0) nothing_to_send_again
  let op =
      new_operation ids.operation account_id source.provider_id source.wallet_id user_id
        OperationAction.create_or_update (length items)
  modify (λ s. record s {
    operations = s.operations ++ op ∷ [];
    items =
        s.items
        ++ items_from op.id ids.item 0 (map (λ (i : ProviderOperationItem). i.contract_id) items);
  })
  modify (add_jobs (jobs_from op 0 (length items)))
  return op

abbrev pub fail_with : ErrorCode → ProviderOperationItem → ProviderOperationItem
fail_with code i = record i { status = OperationItemStatus.failed; error_code = some code }

abbrev pub operation_of : Text → Text → ProviderOperation → Bool
operation_of id account_id o = o.id == id && o.account_id == account_id

unfoldable pub cancel : Text → Text → Service (Unit {0})
cancel operation_id account_id = do
  found ← gets (λ s. find (operation_of operation_id account_id) s.operations)
  operation ← or_throw found operation_not_found
  throw_if (not (same_operation_status operation.status OperationStatus.pending))
      (not_cancellable operation.status)
  modify (update_items (is_pending_of operation_id) (fail_with ErrorCode.cancelled))
  modify (
      update_operations (operation_has_id operation_id)
        (λ o. record o { status = OperationStatus.cancelled }))
