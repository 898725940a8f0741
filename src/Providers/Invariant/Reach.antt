-- ===== src/Providers/Invariant/Reach.antt =====
-- The calls of the services, of the worker, of the periodic job and of the webhook, in any order.
use cobdata_back.Base.{ℕ, ◌≤◌, ◌≡◌, Bool, true, Option, List, [], ◌∷◌, arith, keep, length, All}
use cobdata_back.Contracts.{Text, Date, Contract}
use cobdata_back.Payments.Store.{Store}
use cobdata_back.Providers.Model.{
  EventType, OperationAction, ProviderOperationItem, OperationBatchJobData, ProviderState,
}
use cobdata_back.Providers.Adapter.{Remote, Request, sends, removes}
use cobdata_back.Providers.Operations.{
  CreateOperationParams, Ids, create, create_for_contract, retry_unconfirmed_create_operation,
  cancel,
}
use cobdata_back.Providers.Removal.{
  Cancellation, cancel_contract, cancel_for_contest, create_automatic_removal_for_paid_contract,
  reconcile_stale_serasa_removals,
}
use cobdata_back.Providers.Requests.{Texts, request_of, debt_payloads, remove_payloads}
use cobdata_back.Providers.Processor.{process}
use cobdata_back.Providers.Processor.Queries.{All-weaken}
use cobdata_back.Providers.Processor.Answer.{in_job}
use cobdata_back.Providers.Payload.{WebhookPayload}
use cobdata_back.Providers.Webhooks.Handler.{WebhookConfig, WebhookCall, handle_webhook}
use cobdata_back.Providers.Invariant.{IsSound, IsFresh, in_place}
use cobdata_back.Providers.Invariant.Effects.{
  create-IsSound, create_for_contract-IsSound, retry_unconfirmed_create_operation-IsSound,
  cancel_contract-IsSound, cancel_for_contest-IsSound,
  create_automatic_removal_for_paid_contract-IsSound, cancel-IsSound, process-IsSound,
}
use cobdata_back.Providers.Invariant.Removals.{alone, reconcile-IsSound}
use cobdata_back.Providers.Invariant.Events.{handle_webhook-IsSound}

abbrev pub Fresh : Ids → ProviderState → Type 0
Fresh ids s = IsFresh ids.operation ids.item s.items

-- One call, whether it returns or throws. What makes rows makes them with new ids.
pub data Step (s : ProviderState) : ProviderState → Type 0 where
  creates :
      (contains : Text → Text → Bool) (today : Date) (ids : Ids) (params : CreateOperationParams)
      → Fresh ids s
      → Step s (create contains today ids params s).1
  creates_for_contract :
      (ids : Ids) (contract_id user_id account_id : Text) (action : OperationAction) (allow : Bool)
      → Fresh ids s
      → Step s (create_for_contract ids contract_id user_id account_id action allow s).1
  retries :
      (ids : Ids) (source user_id account_id : Text)
      → Fresh ids s
      → Step s (retry_unconfirmed_create_operation ids source user_id account_id s).1
  cancels : (operation_id account_id : Text) → Step s (cancel operation_id account_id s).1
  cancels_contract :
      (ids : Ids) (now : Date) (contract_id user_id account_id : Text) (creditor : Option Text)
      (cancellation : Cancellation)
      → Fresh ids s
      → Step s (cancel_contract ids now contract_id user_id account_id creditor cancellation s).1
  contests :
      (ids : Ids) (now : Date) (contract_id account_id : Text)
      → Fresh ids s
      → Step s (cancel_for_contest ids now contract_id account_id s).1
  removes_paid :
      (ids : Ids) (contract_id account_id : Text)
      → Fresh ids s
      → Step s (create_automatic_removal_for_paid_contract ids contract_id account_id s).1
  works :
      (remote : Remote) (texts : Texts) (now : Date) (job : OperationBatchJobData)
      → Step s (process remote texts now job s)
  reconciles : (now : Date) → Step s (reconcile_stale_serasa_removals alone now s)
  hears :
      (reference : Text → EventType → Option ℕ → Option Text → Text) (now : Date)
      (meanwhile : Store → Store) (payload : WebhookPayload) (config : WebhookConfig)
      (call : WebhookCall) (id : Text)
      → Step s (handle_webhook reference now meanwhile payload config call id s).1

pub data Reach (s : ProviderState) : ProviderState → Type 0 where
  here : Reach s s
  next : {t u : ProviderState} → Reach s t → Step t u → Reach s u

Step-IsSound : {s t : ProviderState} → Step s t → IsSound s.items → IsSound t.items
Step-IsSound {s} (creates contains today ids params f) h =
    create-IsSound contains today ids s f h params
Step-IsSound {s} (creates_for_contract ids c u a action allow f) h =
    create_for_contract-IsSound (λ x y. true) 0 ids s f h c u a action allow
Step-IsSound {s} (retries ids source u a f) h =
    retry_unconfirmed_create_operation-IsSound (λ x y. true) 0 ids s f h source u a
Step-IsSound {s} (cancels k a) h = cancel-IsSound s h k a
Step-IsSound {s} (cancels_contract ids now c u a creditor cancellation f) h =
    cancel_contract-IsSound (λ x y. true) 0 ids s f h now c u a creditor cancellation
Step-IsSound {s} (contests ids now c a f) h =
    cancel_for_contest-IsSound (λ x y. true) 0 ids s f h now c a
Step-IsSound {s} (removes_paid ids c a f) h =
    create_automatic_removal_for_paid_contract-IsSound (λ x y. true) 0 ids s f h c a
Step-IsSound {s} (works remote texts now job) h = process-IsSound s h remote texts now job
Step-IsSound {s} (reconciles now) h = reconcile-IsSound now s h
Step-IsSound {s} (hears reference now meanwhile payload config call id) h =
    handle_webhook-IsSound reference now meanwhile payload config call id s h

Reach-IsSound : {s t : ProviderState} → IsSound s.items → Reach s t → IsSound t.items
Reach-IsSound h here = h
Reach-IsSound h (next r step) = Step-IsSound step (Reach-IsSound h r)

no_items-IsSound : (items : List ProviderOperationItem) → items ≡ [] → IsSound items
no_items-IsSound items e = rw e (record { one = λ k b. omega arith; distinct = tt; bounded = tt })

-- The number of debts in a request.
abbrev pub request_length : Request → ℕ
request_length (sends debts) = length debts
request_length (removes debts) = length debts

length-debt_payloads :
    (texts : Texts) (contracts : List Contract) (items : List ProviderOperationItem)
    → length (debt_payloads texts contracts items) ≤ length items
unfolding debt_payloads
length-debt_payloads texts contracts [] = omega arith
length-debt_payloads texts contracts (i ∷ is) =
    ground (arith, length-debt_payloads texts contracts is)

length-remove_payloads :
    (contracts : List Contract) (items : List ProviderOperationItem)
    → length (remove_payloads contracts items) ≤ length items
unfolding remove_payloads
length-remove_payloads contracts [] = omega arith
length-remove_payloads contracts (i ∷ is) = ground (arith, length-remove_payloads contracts is)

length-request_of :
    (texts : Texts) (action : OperationAction) (contracts : List Contract)
    (items : List ProviderOperationItem)
    → request_length (request_of texts action contracts items) ≤ length items
length-request_of texts OperationAction.create_or_update contracts items =
    length-debt_payloads texts contracts items
length-request_of texts OperationAction.remove contracts items =
    length-remove_payloads contracts items

length-in_job :
    (job : OperationBatchJobData) (items : List ProviderOperationItem)
    → length (keep (in_job job) items)
      ≤ length (keep (in_place job.operation_id job.batch_index) items)
length-in_job job [] = omega arith
length-in_job job (i ∷ is) = ground (arith, length-in_job job is)

-- Whatever calls were made since there was no item, in any order, with any answers of Serasa and
-- with new ids for new rows: the request of a job has one debt at most, and no item has had more
-- than five attempts.
pub reachable_requests :
    {s t : ProviderState} (texts : Texts) (job : OperationBatchJobData)
    → s.items ≡ []
    → Reach s t
    → (request_length (request_of texts job.action t.store.contracts (keep (in_job job) t.items))
        ≤ 1)
      × All (λ (i : ProviderOperationItem). i.attempts ≤ 5) t.items
reachable_requests {s} {t} texts job e r =
    let sound = Reach-IsSound (no_items-IsSound s.items e) r in
    (
      omega (
        arith,
        length-request_of texts job.action t.store.contracts (keep (in_job job) t.items),
        length-in_job job t.items,
        sound.one job.operation_id job.batch_index,
      ),
      All-weaken _ _ (λ i h. ground arith) t.items sound.bounded,
    )
