-- ===== src/Providers/Processor/Answer.antt =====
-- What the worker does to the items of a job: each item of the batch has one more attempt and is no
-- longer pending, and no item changes its place in its operation.
use cobdata_back.Base.{
  ◌+◌, ◌≡◌, refl, Bool, true, false, ◌&&◌, inl, inr, Option, List, [], ◌∷◌, arith, ◌==◌, Bool-cases,
  Option-cases, keep, update_where, All, Distinct,
}
use cobdata_back.Contracts.{Text, Date, SerasaStatus}
use cobdata_back.Providers.Model.{
  OperationAction, OperationItemStatus, ErrorCode, ProviderOperationItem, OperationBatchJobData,
  ProviderState, is_one_of,
}
use cobdata_back.Providers.Adapter.{Remote, SendResult, is_success}
use cobdata_back.Providers.Requests.{Texts, get_provider_config}
use cobdata_back.Providers.Processor.{
  keep_debt_id, keep_debt_ids, accepted, attempted, rejected, error_of, accept,
  process_create_batch, process_remove_batch, process_batch, handle_batch, in_batch, ids_of,
}
use cobdata_back.Providers.Processor.Queries.{
  All-weaken, All-trivial, ids_of-keep, ids_of-keep_only, row_id,
}

pub keep_debt_ids-items :
    (items : List ProviderOperationItem) (debts : List (Option Text)) (s : ProviderState)
    → (keep_debt_ids items debts s).items ≡ s.items
unfolding keep_debt_ids
keep_debt_ids-items [] debts s = refl
keep_debt_ids-items (i ∷ is) [] s = refl
keep_debt_ids-items (i ∷ is) (d ∷ ds) s = keep_debt_ids-items is ds (keep_debt_id i d s)

pub keep_debt_ids-operations :
    (items : List ProviderOperationItem) (debts : List (Option Text)) (s : ProviderState)
    → (keep_debt_ids items debts s).operations ≡ s.operations
unfolding keep_debt_ids
keep_debt_ids-operations [] debts s = refl
keep_debt_ids-operations (i ∷ is) [] s = refl
keep_debt_ids-operations (i ∷ is) (d ∷ ds) s = keep_debt_ids-operations is ds (keep_debt_id i d s)

-- The statuses that an item can have after an attempt.
abbrev pub is_reply : OperationItemStatus → Bool
is_reply OperationItemStatus.waiting_provider_event = true
is_reply OperationItemStatus.updated = true
is_reply OperationItemStatus.failed = true
is_reply _ = false

-- One attempt with an item.
pub record Answer (i j : ProviderOperationItem) : Type 0 where
  pub same_id : j.id ≡ i.id
  pub same_operation : j.operation_id ≡ i.operation_id
  pub same_contract : j.contract_id ≡ i.contract_id
  pub same_batch : j.batch_index ≡ i.batch_index
  pub one_more : j.attempts ≡ i.attempts + 1
  pub answered : is_reply j.status ≡ true

-- Some rows had an attempt, among them those that pass `p`, and only those if the ids differ; the
-- others stayed.
pub record Attempt (p : ProviderOperationItem → Bool) (before after : List ProviderOperationItem)
    : Type 0 where
  pub test : ProviderOperationItem → Bool
  pub change : ProviderOperationItem → ProviderOperationItem
  pub equation : after ≡ update_where test change before
  pub answers : (i : ProviderOperationItem) → Answer i (change i)
  pub covers : All (λ i. p i ≡ true → test i ≡ true) before
  pub only : Distinct row_id before → All (λ i. test i ≡ true → p i ≡ true) before

module _ (p : ProviderOperationItem → Bool) (now : Date) (operation_id : Text)
    (items : List ProviderOperationItem) (result : SendResult) (s : ProviderState)
    (only : Distinct row_id s.items
      → All
          (λ i.
            (i.operation_id == operation_id && is_one_of (ids_of items) i.id) ≡ true → p i ≡ true)
          s.items) where
  abbrev asked : ProviderOperationItem → Bool
  asked i = i.operation_id == operation_id && is_one_of (ids_of items) i.id

  asked-Attempt :
      (f : ProviderOperationItem → ProviderOperationItem) {after : List ProviderOperationItem}
      → ((i : ProviderOperationItem) → Answer i (f i))
      → after ≡ update_where asked f s.items
      → All (λ i. p i ≡ true → asked i ≡ true) s.items
      → Attempt p s.items after
  asked-Attempt f answers e h = record {
    test = asked;
    change = f;
    equation = e;
    answers = answers;
    covers = h;
    only = only;
  }

  process_create_batch-Attempt :
      All (λ i. p i ≡ true → asked i ≡ true) s.items
      → Attempt p s.items (process_create_batch now operation_id items result s).items
  unfolding process_create_batch
  process_create_batch-Attempt h = elim (Bool-cases (result.http_status == 202)) [
    | inl e ↦
        asked-Attempt (accepted now result) (λ i. ground arith)
          (rw (e, process_create_batch) (keep_debt_ids-items items result.debt_ids _)) h
    | inr e ↦ elim (Bool-cases (is_success result.http_status)) [
      | inl d ↦
          asked-Attempt (attempted now OperationItemStatus.updated) (λ i. ground arith)
            (rw e (rw d refl)) h
      | inr d ↦
          asked-Attempt (rejected now (error_of result)) (λ i. ground arith) (rw e (rw d refl)) h
    ]
  ]

  process_remove_batch-Attempt :
      All (λ i. p i ≡ true → asked i ≡ true) s.items
      → Attempt p s.items (process_remove_batch now operation_id items result s).items
  unfolding process_remove_batch
  process_remove_batch-Attempt h = elim (Bool-cases (result.http_status == 202)) [
    | inl e ↦ asked-Attempt (accepted now result) (λ i. ground arith) (rw e refl) h
    | inr e ↦ asked-Attempt (rejected now (error_of result)) (λ i. ground arith) (rw e refl) h
  ]

  process_batch-Attempt :
      (action : OperationAction)
      → All (λ i. p i ≡ true → asked i ≡ true) s.items
      → Attempt p s.items (process_batch action now operation_id items result s).items
  process_batch-Attempt OperationAction.create_or_update = process_create_batch-Attempt
  process_batch-Attempt OperationAction.remove = process_remove_batch-Attempt

-- The items of a job.
abbrev pub in_job : OperationBatchJobData → ProviderOperationItem → Bool
in_job job = in_batch job.operation_id job.batch_index

module _ (remote : Remote) (texts : Texts) (now : Date) (job : OperationBatchJobData) where
  pub handle_batch-Attempt :
      (s : ProviderState)
      → Attempt
          (in_job job)
          s.items
          (handle_batch remote texts now job (keep (in_job job) s.items) s).items
  unfolding handle_batch
  handle_batch-Attempt s = elim (Option-cases (get_provider_config texts job.provider_id s)) [
    | inl e ↦ record {
      test = in_job job;
      change = rejected now ErrorCode.processing_error;
      equation = rw (e, handle_batch) refl;
      answers = λ i. ground arith;
      covers = All-trivial _ (λ i h. h) s.items;
      only = λ d. All-trivial _ (λ i h. h) s.items;
    }
    | inr (config, e) ↦
        rw (e, handle_batch)
          (process_batch-Attempt (in_job job) now job.operation_id (keep (in_job job) s.items) _ s
            (λ d.
              All-weaken _ _ (λ i k h. ground (arith, k)) s.items
                (ids_of-keep_only (in_job job) s.items d))
            job.action
            (All-weaken _ _ (λ i k h. ground arith) s.items (ids_of-keep (in_job job) s.items)))
  ]

  process_batch-operations :
      (action : OperationAction) (items : List ProviderOperationItem) (result : SendResult)
      (s : ProviderState)
      → (process_batch action now job.operation_id items result s).operations ≡ s.operations
  unfolding process_create_batch process_remove_batch
  process_batch-operations OperationAction.create_or_update items result s = ground (
    arith,
    keep_debt_ids-operations items result.debt_ids
        (accept now job.operation_id items result SerasaStatus.sent s),
  )
  process_batch-operations OperationAction.remove items result s = ground arith

  pub handle_batch-operations :
      (items : List ProviderOperationItem) (s : ProviderState)
      → (handle_batch remote texts now job items s).operations ≡ s.operations
  unfolding handle_batch
  handle_batch-operations items s =
      elim (Option-cases (get_provider_config texts job.provider_id s)) [
        | inl e ↦ rw (e, handle_batch) refl
        | inr (config, e) ↦ rw (e, handle_batch) (process_batch-operations job.action items _ s)
      ]
