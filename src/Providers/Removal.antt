-- ===== src/Providers/Removal.antt =====
-- src/providers/operations.service.ts: the removal of a debt because its contract was cancelled or
-- paid, and the periodic job that sends unconfirmed removals again.
use cobdata_back.Base.{
  ℕ, ◌+◌, ◌*◌, ◌-◌, ◌^◌, min, Bool, true, false, not, ◌&&◌, ◌||◌, Option, none, some, List, [], ◌∷◌,
  ◌++◌, ltb, leb, ◌==◌, if◌then◌else◌, is_some, or_default, find, any, keep, take, order_by,
  returns, throws, return, throw_if, or_throw, gets, modify, ◌>>=◌, ◌>>◌,
}
use cobdata_back.Contracts.{
  Text, Date, Contract, ContractStatus, SerasaStatus, CancellationReason, same_contract_status,
  same_serasa,
}
use cobdata_back.Payments.Store.{contract_has_id}
use cobdata_back.Providers.Model.{
  OperationAction, OperationStatus, OperationItemStatus, ErrorCode, ProviderOperation,
  ProviderOperationItem, UserRow, Channel, ProviderState, same_action, same_operation_status,
  operation_has_id, item_has_id, is_waiting, has_text, update_contracts, update_items,
  update_operations, with_serasa, add_jobs,
}
use cobdata_back.Providers.Selection.{eligible_for_remove, includes}
use cobdata_back.Providers.Operations.{
  contract_not_found, already_cancelled, no_active_user, Service, Ids, create_for_contract,
  fail_with,
}

-- `creditorId ? { wallet: { creditorId } } : {}`
abbrev pub of_creditor : Option Text → Contract → Bool
of_creditor none c = true
of_creditor (some creditor_id) c = c.wallet.creditor_id == creditor_id

abbrev pub is_cancellable : Text → Text → Option Text → Contract → Bool
is_cancellable id account_id creditor_id c =
    c.id == id && (c.account_id == account_id && (not c.deleted && of_creditor creditor_id c))

abbrev pub removable : List SerasaStatus
removable = eligible_for_remove ++ SerasaStatus.sent ∷ []

-- The parameter `cancellation`, less the texts of the history.
pub record Cancellation : Type 0 where
  pub reason : Option CancellationReason
  pub channel : Option Channel

abbrev pub cancelled_row : Date → CancellationReason → Contract → Contract
cancelled_row now reason c = record c {
  status = ContractStatus.cancelled;
  cancelled_at = some now;
  cancellation_reason = some reason;
}

-- `try { createForContract(REMOVE) } catch { }`: whether the removal was queued.
abbrev pub try_removal : Ids → Text → Text → Text → Service Bool
try_removal ids contract_id user_id account_id s =
    let (r, s') =
      create_for_contract ids contract_id user_id account_id OperationAction.remove false s in
    (returns (elim r [ returns op ↦ true | throws e ↦ false ]), s')

abbrev pub queue_removal : Ids → Contract → Text → Text → Service Bool
queue_removal ids contract user_id account_id =
    if has_text contract.debt_id && includes removable contract.serasa_status
    then try_removal ids contract.id user_id account_id
    else return false

unfoldable pub cancel_contract :
    Ids → Date → Text → Text → Text → Option Text → Cancellation → Service Bool
cancel_contract ids now contract_id user_id account_id creditor_id cancellation = do
  found ← gets (λ s. find (is_cancellable contract_id account_id creditor_id) s.store.contracts)
  contract ← or_throw found contract_not_found
  throw_if (same_contract_status contract.status ContractStatus.cancelled) already_cancelled
  queued ← queue_removal ids contract user_id account_id
  let reason = or_default cancellation.reason CancellationReason.creditor_request
  modify (update_contracts (contract_has_id contract.id) (cancelled_row now reason))
  modify (λ s. record s {
    notes =
        s.notes
        ++ record {
          account_id = account_id;
          wallet_id = contract.wallet.id;
          contract_id = contract.id;
          channel = or_default cancellation.channel Channel.whatsapp;
          failed = false;
          external_id = none;
          reason = some reason;
          removal_queued = queued;
        }
          ∷ [];
  })
  return queued

abbrev pub is_active_user : Text → UserRow → Bool
is_active_user account_id u = u.account_id == account_id && u.is_active

unfoldable pub cancel_for_contest : Ids → Date → Text → Text → Service Bool
cancel_for_contest ids now contract_id account_id = do
  found ← gets (λ s. find (is_active_user account_id) s.users)
  user ← or_throw found no_active_user
  cancel_contract ids now contract_id user.id account_id none
      (record { reason = some CancellationReason.contestation; channel = some Channel.whatsapp })

abbrev pub is_removable : Text → Text → Contract → Bool
is_removable id account_id c =
    c.id == id
    && (c.account_id == account_id
        && (not c.deleted && (is_some c.debt_id && includes removable c.serasa_status)))

-- An item of a removal that is not finished.
abbrev pub is_open_removal : List ProviderOperation → Text → ProviderOperationItem → Bool
is_open_removal operations contract_id i =
    i.contract_id == contract_id && elim (find (operation_has_id i.operation_id) operations) [
      | none ↦ false
      | some o ↦
          same_action o.action OperationAction.remove
          && (same_operation_status o.status OperationStatus.pending
              || same_operation_status o.status OperationStatus.processing)
    ]

unfoldable pub create_automatic_removal_for_paid_contract : Ids → Text → Text → Service (Unit {0})
create_automatic_removal_for_paid_contract ids contract_id account_id s =
    elim (find (is_removable contract_id account_id) s.store.contracts) [
      | none ↦ (returns tt, s)
      | some contract ↦
          if any (is_open_removal s.operations contract_id) s.items
          then (returns tt, s)
          else elim (find (is_active_user account_id) s.users) [
            | none ↦ (returns tt, s)
            | some user ↦
                (create_for_contract ids contract_id user.id account_id OperationAction.remove false
                    >>= λ op. return tt)
                  s
          ]
    ]

abbrev pub removal_initial_retry_minutes : ℕ
removal_initial_retry_minutes = 30

abbrev pub removal_max_attempts : ℕ
removal_max_attempts = 5

-- The milliseconds to wait after an attempt: 30 minutes, doubled with each attempt up to 16 times.
abbrev pub retry_delay : ℕ → ℕ
retry_delay attempts = removal_initial_retry_minutes * min (2 ^ (attempts - 1)) 16 * 60000

abbrev pub is_too_early : Date → ProviderOperationItem → Bool
is_too_early now i = elim i.last_attempt_at [
  | none ↦ false
  | some last ↦ ltb now (last + retry_delay i.attempts)
]

abbrev pub is_removal_of : List ProviderOperation → Text → Bool
is_removal_of operations operation_id = elim (find (operation_has_id operation_id) operations) [
  | none ↦ false
  | some o ↦ same_action o.action OperationAction.remove
]

abbrev pub is_removing : List Contract → Text → Bool
is_removing contracts contract_id = elim (find (contract_has_id contract_id) contracts) [
  | none ↦ false
  | some c ↦ same_serasa c.serasa_status SerasaStatus.removing && not c.deleted
]

abbrev pub is_stale_removal : ProviderState → ProviderOperationItem → Bool
is_stale_removal s i =
    is_waiting i
    && (is_removal_of s.operations i.operation_id && is_removing s.store.contracts i.contract_id)

-- `orderBy: { lastAttemptAt: 'asc' }` puts the rows with a null last.
abbrev pub is_timed : ProviderOperationItem → Bool
is_timed i = is_some i.last_attempt_at

abbrev pub last_attempt : ProviderOperationItem → Date
last_attempt i = or_default i.last_attempt_at 0

unfoldable pub stale_removals : ProviderState → List ProviderOperationItem
stale_removals s =
    let candidates = keep (is_stale_removal s) s.items in
    take 100
      (order_by last_attempt (keep is_timed candidates) ++ keep (λ i. not (is_timed i)) candidates)

-- The provider of an item's operation.
abbrev pub provider_of : List ProviderOperation → Text → Text
provider_of operations operation_id = elim (find (operation_has_id operation_id) operations) [
  | none ↦ 0
  | some o ↦ o.provider_id
]

abbrev pub is_claimable : Text → ProviderOperationItem → Bool
is_claimable id i = i.id == id && is_waiting i

abbrev pub give_up : ProviderOperationItem → ProviderState → ProviderState
give_up i s =
    update_contracts (contract_has_id i.contract_id) (with_serasa SerasaStatus.failed)
      (update_items (item_has_id i.id) (fail_with ErrorCode.removal_webhook_timeout) s)

abbrev pub send_again : ProviderOperationItem → ProviderState → ProviderState
send_again i s =
    add_jobs
      (record {
        operation_id = i.operation_id;
        batch_index = i.batch_index;
        provider_id = provider_of s.operations i.operation_id;
        action = OperationAction.remove;
      }
        ∷ [])
      (update_operations (operation_has_id i.operation_id)
        (λ o. record o { status = OperationStatus.pending })
        (update_items (is_claimable i.id) (λ x. record x { status = OperationItemStatus.pending })
          s))

-- The loop's body for an item as the query of the cycle read it. `s` may have changed since.
unfoldable pub reconcile_item : Date → ProviderOperationItem → ProviderState → ProviderState
reconcile_item now i s =
    if is_too_early now i
    then s
    else if leb removal_max_attempts i.attempts
    then give_up i s
    else if any (is_claimable i.id) s.items
    then send_again i s
    else s

-- `meanwhile` is what others write between two items of a cycle.
unfoldable pub reconcile_items :
    (ProviderOperationItem → ProviderState → ProviderState)
    → Date
    → List ProviderOperationItem
    → ProviderState
    → ProviderState
reconcile_items meanwhile now [] s = s
reconcile_items meanwhile now (i ∷ is) s =
    reconcile_items meanwhile now is (reconcile_item now i (meanwhile i s))

unfoldable pub reconcile_stale_serasa_removals :
    (ProviderOperationItem → ProviderState → ProviderState) → Date → ProviderState → ProviderState
reconcile_stale_serasa_removals meanwhile now s = reconcile_items meanwhile now (stale_removals s) s
