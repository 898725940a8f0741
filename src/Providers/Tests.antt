-- ===== src/Providers/Tests.antt =====
-- Runs of the operations on one contract.
use cobdata_back.Base.{
  ℕ, ◌+◌, ◌≡◌, ◌≤◌, refl, arith, true, false, Bool, Option, some, none, List, [], ◌∷◌, ◌++◌, ◌==◌,
  any, keep, All, returns,
}
use cobdata_back.Contracts.{Text, Date, SerasaStatus}
use cobdata_back.Payments.Fixtures.{contract, empty_store}
use cobdata_back.Payments.Model.{
  PaymentSettlement, PaymentSettlementSource, PaymentSettlementStatus,
}
use cobdata_back.Payments.Store.{Store}
use cobdata_back.Payments.Settlement.{process_event, map_provider_to_source}
use cobdata_back.Payments.Factory.{unique_violation}
use cobdata_back.Providers.Model.{
  OperationAction, OperationItemStatus, EventType, given, ProviderOperation, ProviderOperationItem,
  OperationBatchJobData, ProviderState, with_serasa,
}
use cobdata_back.Providers.Adapter.{Remote, SendResult}
use cobdata_back.Providers.Selection.{
  OperationContractFilters, select_eligible_contracts, get_eligible_statuses,
  apply_aging_comparison,
}
use cobdata_back.Providers.Operations.{
  CreateOperationParams, Ids, create, create_for_contract, submit, items_from, jobs_from,
  new_operation,
}
use cobdata_back.Providers.Removal.{create_automatic_removal_for_paid_contract, reconcile_item}
use cobdata_back.Providers.Requests.{Texts, request_of}
use cobdata_back.Providers.Processor.{process}
use cobdata_back.Providers.Payload.{
  AgreementFields, PaymentFields, WebhookPayload, scheduled_installment_amount,
  agreement_projection,
}
use cobdata_back.Providers.Webhooks.{
  process_contract_event, process_agreement_event, record_serasa_payment,
  process_debt_removed_event,
}
use cobdata_back.Providers.Webhooks.Handler.{
  WebhookConfig, WebhookCall, handle_webhook, duplicate_event, accepted, store_event,
  named_contract, matched_item,
}
use cobdata_back.Providers.Created.{create_then_run, IsFinished, turns_of}
use cobdata_back.Providers.Processor.Answer.{in_job}
use cobdata_back.Providers.Processor.Completion.{Ends}
use cobdata_back.Providers.Processor.Run.{run_jobs, Goes, process_summary}
use cobdata_back.Providers.Invariant.Reach.{
  Fresh, request_length, next, here, creates, reachable_requests,
}
use cobdata_back.Providers.Webhooks.Replay.{handle_webhook_twice, handle_webhook_lost}
use cobdata_back.Providers.Race.{automatic_removal_twice, confirmed_then_given_up, HasStatus}
use cobdata_back.Providers.Stranded.{cancel-strands, IsStranded}

abbrev filters : OperationContractFilters
filters = record {
  contract_status = none;
  search = none;
  serasa_status = none;
  payment_status = none;
  resync_only = false;
  installment_only = false;
  min_original_value = none;
  max_original_value = none;
  min_updated_value = some 100;
  max_updated_value = none;
  updated_value = none;
  updated_value_bound = 0;
  offer_value = none;
  offer_value_bound = 0;
  aging = none;
  aging_days = 0;
  date_from = none;
  date_to = none;
}

abbrev params : CreateOperationParams
params = record {
  wallet_id = 2;
  action = OperationAction.create_or_update;
  user_id = 6;
  account_id = 7;
  filters = filters;
}

abbrev ids : Ids
ids = record { operation = 100; item = λ n. 200 + n }

abbrev ids' : Ids
ids' = record { operation = 101; item = λ n. 300 + n }

abbrev contains : Text → Text → Bool
contains a b = a == b

abbrev texts : Texts
texts = record {
  trim = λ t. t;
  digits = λ t. t;
  decrypt = λ t. some (record { api_key = some t; token = none });
}

abbrev state : ProviderState
state = record {
  store = empty_store;
  operations = [];
  items = [];
  jobs = [];
  notes = [];
  webhook_events = [];
  wallets = record { id = 2; account_id = 7; deleted = false } ∷ [];
  providers = record { id = 8; account_id = 7; credentials = 9; production = true } ∷ [];
  users = record { id = 6; account_id = 7; is_active = true } ∷ [];
}

-- Serasa accepts each request.
abbrev answer : SendResult
answer = record {
  http_status = 202;
  transaction_id = some 55;
  debt_ids = some 74 ∷ [];
  error = none;
}

abbrev remote : Remote
remote config request attempt = some answer

abbrev clock : OperationBatchJobData → Date
clock job = 1000

abbrev created : ProviderState
created = (create contains 0 ids params state).1

abbrev operation : ProviderOperation
operation = new_operation 100 7 8 2 6 OperationAction.create_or_update 1

create_runs : create contains 0 ids params state ≡ (returns operation, created)
unfolding create select_eligible_contracts get_eligible_statuses apply_aging_comparison
create_runs = refl

create_then_run_example :
    (jobs : List OperationBatchJobData) × (created.jobs ≡ state.jobs ++ jobs)
    × IsFinished 100 (run_jobs remote texts (turns_of clock jobs) created)
create_then_run_example =
    create_then_run contains 0 ids params remote texts clock state created operation create_runs
      refl refl

abbrev job : OperationBatchJobData
job = record {
  operation_id = 100;
  batch_index = 0;
  provider_id = 8;
  action = OperationAction.create_or_update;
}

abbrev summarised : ProviderState
summarised = process remote texts 1000 job created

created-Goes : Goes 100 created
unfolding create select_eligible_contracts get_eligible_statuses apply_aging_comparison submit
    items_from jobs_from
created-Goes = record { operation = operation; found = refl; going = refl }

process_summary_example : (any (in_job job) summarised.items ≡ false) × Ends 100 summarised
process_summary_example = process_summary remote texts 1000 job created created-Goes

state-Fresh : Fresh ids state
state-Fresh = record { unused = refl; new = λ n. refl; apart = λ n m e. omega arith }

reachable_requests_example :
    (request_length
        (request_of texts job.action created.store.contracts (keep (in_job job) created.items))
      ≤ 1)
    × All (λ (i : ProviderOperationItem). i.attempts ≤ 5) created.items
reachable_requests_example =
    reachable_requests texts job refl (next here (creates contains 0 ids params state-Fresh))

abbrev no_agreement : AgreementFields
no_agreement = record {
  agreement_id = none;
  id = none;
  total_installments = none;
  installments_amount = none;
  installment_count = none;
  total_amount = none;
  agreement_value = none;
  amount = none;
  installments = none;
  discount_percentage = none;
}

abbrev no_payment : PaymentFields
no_payment = record { installment_number = none; number = none; amount = none; paid_amount = none }

abbrev removal_event : WebhookPayload
removal_event = record {
  event_type = EventType.debt_removed;
  transaction_id = some 56;
  status = some 200;
  debt_id = some 74;
  debt_ids = [];
  contract_number = some 73;
  document = none;
  error_code = none;
  agreement_total_amount = none;
  top = no_agreement;
  agreement = none;
  top_payment = no_payment;
  payment = none;
  installment = none;
  payment_date = none;
  date = none;
  paid_at = none;
  breach_date = none;
  created_at = none;
}

abbrev paid_event : WebhookPayload
paid_event = record removal_event {
  event_type = EventType.paid_agreement;
  status = none;
  top_payment = record no_payment { amount = some 9000 };
}

abbrev config : WebhookConfig
config = record { token = some 77; secret = none }

abbrev call : WebhookCall
call = record { token = some 77; signed = λ k. false }

abbrev reference : Text → EventType → Option ℕ → Option Text → Text
reference agreement event number date = agreement + 1000

abbrev quiet : Store → Store
quiet st = st

abbrev handled_once : ProviderState
handled_once = (handle_webhook reference 2000 quiet removal_event config call 400 state).1

handle_webhook_twice_example :
    handle_webhook reference 2000 quiet removal_event config call 401 handled_once
    ≡ (returns duplicate_event, handled_once)
handle_webhook_twice_example =
    handle_webhook_twice reference 2000 quiet removal_event config call (given 56)
      (record { id = 8; account_id = 7; credentials = 9; production = true }) refl refl 400 401
      state refl

-- Another delivery of the payment stores its settlement in between.
abbrev settlement : PaymentSettlement
settlement = record {
  account_id = 7;
  contract_id = 3;
  payment_charge_id = none;
  agreement_reference = none;
  installment_number = none;
  source = PaymentSettlementSource.serasa;
  status = PaymentSettlementStatus.confirmed;
  amount = 9000;
  paid_at = 2000;
  external_payment_id = 56;
  channel_event_id = some 56;
  debt_reference = some 3;
  provider_payload = none;
}

abbrev raced : Store → Store
raced st = record st { settlements = settlement ∷ st.settlements }

abbrev with_event : ProviderState
with_event = store_event 400 paid_event state

abbrev lost : ProviderState
lost = record with_event { store = raced empty_store }

handle_webhook_lost_example :
    (handle_webhook reference 2000 raced paid_event config call 400 state
      ≡ (returns accepted, lost))
    × (handle_webhook reference 2000 raced paid_event config call 401 lost
        ≡ (returns duplicate_event, lost))
unfolding named_contract matched_item process_contract_event process_agreement_event
    record_serasa_payment process_event map_provider_to_source scheduled_installment_amount
    agreement_projection
handle_webhook_lost_example =
    handle_webhook_lost reference 2000 raced paid_event config call (given 56)
      (record { id = 8; account_id = 7; credentials = 9; production = true }) refl refl 400 401
      state lost unique_violation refl refl refl refl

abbrev submitted_alone : ProviderState
submitted_alone = (create_for_contract ids 3 6 7 OperationAction.create_or_update false state).1

cancel-strands_example : IsStranded ids 3 6 7 false ids' 6 operation submitted_alone
unfolding create_for_contract submit items_from jobs_from
cancel-strands_example =
    cancel-strands ids 3 6 7 false ids' 6 state submitted_alone operation refl refl

-- The contract with a debt at Serasa.
abbrev registered : ProviderState
registered = record state {
  store = record empty_store { contracts = with_serasa SerasaStatus.registered contract ∷ [] };
}

abbrev removed_once : ProviderState
removed_once = (create_automatic_removal_for_paid_contract ids 3 7 registered).1

automatic_removal_twice_example :
    (create_automatic_removal_for_paid_contract ids' 3 7 removed_once).1 ≡ removed_once
automatic_removal_twice_example = automatic_removal_twice 3 7 ids ids' registered

-- An item whose removal was sent five times.
abbrev stale : ProviderOperationItem
stale = record {
  id = 200;
  operation_id = 100;
  contract_id = 3;
  batch_index = 0;
  status = OperationItemStatus.waiting_provider_event;
  transaction_id = some 56;
  debt_id = none;
  error_code = none;
  attempts = 5;
  last_attempt_at = some 1000;
}

abbrev waiting : ProviderState
waiting = record registered { items = stale ∷ [] }

abbrev confirmed_state : ProviderState
confirmed_state = (process_debt_removed_event reference 2000 quiet removal_event stale waiting).1

confirmed_then_given_up_example :
    HasStatus waiting stale OperationItemStatus.removed SerasaStatus.removed confirmed_state
    × HasStatus confirmed_state stale OperationItemStatus.failed SerasaStatus.failed
        (reconcile_item 30000000 stale confirmed_state)
confirmed_then_given_up_example =
    confirmed_then_given_up reference 2000 30000000 quiet removal_event stale waiting refl refl
      (omega arith)
