-- ===== src/Providers/Model.antt =====
-- The rows of prisma/schema.prisma that src/providers reads and writes, and the state of its
-- services: the tables, the queue of jobs and the lines of the contracts' history.
use cobdata_back.Base.{
  ℕ, Bool, false, not, ◌&&◌, Option, none, some, List, ◌++◌, ◌==◌, any, update_where,
}
use cobdata_back.Contracts.{Text, Date, Contract, CancellationReason, SerasaStatus}
use cobdata_back.Payments.Store.{Store}

pub data OperationAction : Type 0 where
  create_or_update remove : OperationAction

pub data OperationStatus : Type 0 where
  pending processing completed partially_failed failed cancelled : OperationStatus

pub data OperationItemStatus : Type 0 where
  pending waiting_provider_event registered updated removed failed : OperationItemStatus

-- `===` on each enum, by the position of its member.
abbrev pub action_index : OperationAction → ℕ
action_index OperationAction.create_or_update = 0
action_index OperationAction.remove = 1

abbrev pub operation_index : OperationStatus → ℕ
operation_index OperationStatus.pending = 0
operation_index OperationStatus.processing = 1
operation_index OperationStatus.completed = 2
operation_index OperationStatus.partially_failed = 3
operation_index OperationStatus.failed = 4
operation_index OperationStatus.cancelled = 5

abbrev pub item_index : OperationItemStatus → ℕ
item_index OperationItemStatus.pending = 0
item_index OperationItemStatus.waiting_provider_event = 1
item_index OperationItemStatus.registered = 2
item_index OperationItemStatus.updated = 3
item_index OperationItemStatus.removed = 4
item_index OperationItemStatus.failed = 5

abbrev pub same_action : OperationAction → OperationAction → Bool
same_action a b = action_index a == action_index b

abbrev pub same_operation_status : OperationStatus → OperationStatus → Bool
same_operation_status a b = operation_index a == operation_index b

abbrev pub same_item_status : OperationItemStatus → OperationItemStatus → Bool
same_item_status a b = item_index a == item_index b

-- The texts of the column `errorCode`: those of the services, `HTTP_${status}`, and a provider's own.
pub data ErrorCode : Type 0 where
  cancelled processing_error removal_webhook_timeout : ErrorCode
  http : ℕ → ErrorCode
  of_provider : Text → ErrorCode

-- model ProviderOperation
pub record ProviderOperation : Type 0 where
  pub id : Text
  pub account_id : Text
  pub provider_id : Text
  pub wallet_id : Text
  pub user_id : Text
  pub action : OperationAction
  pub status : OperationStatus
  pub total_items : ℕ

-- model ProviderOperationItem, less the message that goes with an error code.
pub record ProviderOperationItem : Type 0 where
  pub id : Text
  pub operation_id : Text
  pub contract_id : Text
  pub batch_index : ℕ
  pub status : OperationItemStatus
  pub transaction_id : Option Text
  pub debt_id : Option Text
  pub error_code : Option ErrorCode
  pub attempts : ℕ
  pub last_attempt_at : Option Date

-- interface OperationBatchJobData: a job of the queue.
pub record OperationBatchJobData : Type 0 where
  pub operation_id : Text
  pub batch_index : ℕ
  pub provider_id : Text
  pub action : OperationAction

-- The columns of Wallet, Provider and User that the services look at. The only type of provider is
-- SERASA_LNOP; `credentials` is the encrypted column, `production` the environment.
pub record WalletRow : Type 0 where
  pub id : Text
  pub account_id : Text
  pub deleted : Bool

pub record ProviderRow : Type 0 where
  pub id : Text
  pub account_id : Text
  pub credentials : Text
  pub production : Bool

pub record UserRow : Type 0 where
  pub id : Text
  pub account_id : Text
  pub is_active : Bool

-- The texts of `eventType` in a webhook of Serasa.
pub data EventType : Type 0 where
  debt_created debt_updated debt_removed : EventType
  closed_agreement breached_agreement paid_agreement paid_installment : EventType
  other_event : Text → EventType

-- What identifies an event: the provider's own transaction id, or a text `SERASA:…` that the service
-- makes of the agreement, the installment and a date, or of the debt and a date.
pub data EventKey : Type 0 where
  given : Text → EventKey
  of_agreement : EventType → Text → Option ℕ → Option Text → EventKey
  of_debt : EventType → Text → Option Text → EventKey

pub data Channel : Type 0 where
  whatsapp serasa : Channel
  other_channel : Text → Channel

-- A line of ContractInteraction, as these services write it.
pub record Note : Type 0 where
  pub account_id : Text
  pub wallet_id : Text
  pub contract_id : Text
  pub channel : Channel
  pub failed : Bool
  pub external_id : Option EventKey
  pub reason : Option CancellationReason
  pub removal_queued : Bool

pub data WebhookStatus : Type 0 where
  received processed unmatched duplicate : WebhookStatus

-- model WebhookEvent, less its payload.
pub record WebhookEvent : Type 0 where
  pub id : Text
  pub event_type : EventType
  pub key : Option EventKey
  pub status : WebhookStatus

-- `store` has the contracts and the tables of the payment services.
pub record ProviderState : Type 0 where
  pub store : Store
  pub operations : List ProviderOperation
  pub items : List ProviderOperationItem
  pub jobs : List OperationBatchJobData
  pub notes : List Note
  pub webhook_events : List WebhookEvent
  pub wallets : List WalletRow
  pub providers : List ProviderRow
  pub users : List UserRow

abbrev pub operation_has_id : Text → ProviderOperation → Bool
operation_has_id k o = o.id == k

abbrev pub item_has_id : Text → ProviderOperationItem → Bool
item_has_id k i = i.id == k

abbrev pub is_pending : ProviderOperationItem → Bool
is_pending i = same_item_status i.status OperationItemStatus.pending

abbrev pub is_failed : ProviderOperationItem → Bool
is_failed i = same_item_status i.status OperationItemStatus.failed

abbrev pub is_waiting : ProviderOperationItem → Bool
is_waiting i = same_item_status i.status OperationItemStatus.waiting_provider_event

abbrev pub is_item_of : Text → ProviderOperationItem → Bool
is_item_of operation_id i = i.operation_id == operation_id

abbrev pub is_pending_of : Text → ProviderOperationItem → Bool
is_pending_of operation_id i = is_item_of operation_id i && is_pending i

abbrev pub is_failed_of : Text → ProviderOperationItem → Bool
is_failed_of operation_id i = is_item_of operation_id i && is_failed i

-- A nullable text as a condition: null and the empty text are false.
abbrev pub has_text : Option Text → Bool
has_text none = false
has_text (some t) = not (t == 0)

-- `id: { in: ids }`
abbrev pub is_one_of : List Text → Text → Bool
is_one_of ids k = any (λ x. x == k) ids

abbrev pub update_contracts :
    (Contract → Bool) → (Contract → Contract) → ProviderState → ProviderState
update_contracts p f s = record s {
  store = record s.store { contracts = update_where p f s.store.contracts };
}

abbrev pub update_items :
    (ProviderOperationItem → Bool)
    → (ProviderOperationItem → ProviderOperationItem)
    → ProviderState
    → ProviderState
update_items p f s = record s { items = update_where p f s.items }

abbrev pub update_operations :
    (ProviderOperation → Bool)
    → (ProviderOperation → ProviderOperation)
    → ProviderState
    → ProviderState
update_operations p f s = record s { operations = update_where p f s.operations }

abbrev pub with_serasa : SerasaStatus → Contract → Contract
with_serasa status c = record c { serasa_status = status }

abbrev pub add_jobs : List OperationBatchJobData → ProviderState → ProviderState
add_jobs js s = record s { jobs = s.jobs ++ js }
