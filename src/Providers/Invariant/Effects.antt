-- ===== src/Providers/Invariant/Effects.antt =====
-- Every call of the services keeps the items sound.
use cobdata_back.Base.{
  ◌≡◌, refl, Bool, true, false, inl, inr, Option, none, some, List, [], ◌∷◌, arith, Option-cases,
  find, keep, map, update_where,
}
use cobdata_back.Contracts.{Text, Date, CancellationReason}
use cobdata_back.Providers.Model.{
  OperationAction, ErrorCode, ProviderOperationItem, OperationBatchJobData, Channel, ProviderState,
  is_pending, is_pending_of,
}
use cobdata_back.Providers.Selection.{get_eligible_statuses, select_eligible_contracts}
use cobdata_back.Providers.Adapter.{Remote}
use cobdata_back.Providers.Operations.{
  CreateOperationParams, Ids, create, create_for_contract, retry_unconfirmed_create_operation,
  cancel, submit, contract_ids, fail_with, is_unconfirmed, is_creation_of, is_active_contract,
  operation_of,
}
use cobdata_back.Providers.Removal.{
  Cancellation, is_cancellable, is_active_user, cancel_contract, cancel_for_contest,
  create_automatic_removal_for_paid_contract,
}
use cobdata_back.Providers.Requests.{Texts}
use cobdata_back.Providers.Processor.{process}
use cobdata_back.Providers.Processor.Queries.{All-trivial, All-weaken}
use cobdata_back.Providers.Processor.Answer.{Answer, Attempt, in_job}
use cobdata_back.Providers.Processor.Completion.{
  is_reply-not_pending, update_operation_status_if_complete-items,
}
use cobdata_back.Providers.Processor.Run.{handled, handled-Attempt}
use cobdata_back.Providers.Invariant.{IsSound, IsFresh, is_bounded, update-IsSound, grow-IsSound}

module _ (contains : Text → Text → Bool) (today : Date) (ids : Ids) (s : ProviderState)
    (fresh : IsFresh ids.operation ids.item s.items) (sound : IsSound s.items) where
  pub create-IsSound :
      (params : CreateOperationParams) → IsSound (create contains today ids params s).1.items
  unfolding create submit
  create-IsSound params = ground (
    arith,
    grow-IsSound ids.operation ids.item s.items fresh
        (contract_ids (
          select_eligible_contracts contains today params.wallet_id params.action
            (get_eligible_statuses params.action params.filters.resync_only) params.filters
            s.store.contracts))
        sound,
  )

  pub create_for_contract-IsSound :
      (contract_id user_id account_id : Text) (action : OperationAction) (allow : Bool)
      → IsSound (create_for_contract ids contract_id user_id account_id action allow s).1.items
  unfolding create_for_contract submit
  create_for_contract-IsSound contract_id user_id account_id action allow =
      elim (Option-cases (find (is_active_contract contract_id account_id) s.store.contracts)) [
        | inl e ↦ ground (arith, e)
        | inr (c, e) ↦
            ground (arith, e, grow-IsSound ids.operation ids.item s.items fresh (c.id ∷ []) sound)
      ]

  pub retry_unconfirmed_create_operation-IsSound :
      (source user_id account_id : Text)
      → IsSound (retry_unconfirmed_create_operation ids source user_id account_id s).1.items
  unfolding retry_unconfirmed_create_operation
  retry_unconfirmed_create_operation-IsSound source user_id account_id =
      elim (Option-cases (find (is_creation_of source account_id) s.operations)) [
        | inl e ↦ ground (arith, e)
        | inr (o, e) ↦ ground (
          arith,
          e,
          grow-IsSound ids.operation ids.item s.items fresh
              (map (λ (i : ProviderOperationItem). i.contract_id)
                (keep (is_unconfirmed o.id s.store.contracts) s.items))
              sound,
        )
      ]

  pub cancel_contract-IsSound :
      (now : Date) (contract_id user_id account_id : Text) (creditor_id : Option Text)
      (cancellation : Cancellation)
      → IsSound
          (cancel_contract ids now contract_id user_id account_id creditor_id cancellation
            s).1.items
  unfolding cancel_contract
  cancel_contract-IsSound now contract_id user_id account_id creditor_id cancellation =
      elim (Option-cases
        (find (is_cancellable contract_id account_id creditor_id) s.store.contracts)) [
          | inl e ↦ ground (arith, e)
          | inr (c, e) ↦ ground (
            arith,
            e,
            create_for_contract-IsSound c.id user_id account_id OperationAction.remove false,
          )
        ]

  pub cancel_for_contest-IsSound :
      (now : Date) (contract_id account_id : Text)
      → IsSound (cancel_for_contest ids now contract_id account_id s).1.items
  unfolding cancel_for_contest
  cancel_for_contest-IsSound now contract_id account_id =
      elim (Option-cases (find (is_active_user account_id) s.users)) [
        | inl e ↦ ground (arith, e)
        | inr (u, e) ↦ ground (
          arith,
          e,
          cancel_contract-IsSound now contract_id u.id account_id none (record {
            reason = some CancellationReason.contestation;
            channel = some Channel.whatsapp;
          }),
        )
      ]

  pub create_automatic_removal_for_paid_contract-IsSound :
      (contract_id account_id : Text)
      → IsSound (create_automatic_removal_for_paid_contract ids contract_id account_id s).1.items
  unfolding create_automatic_removal_for_paid_contract
  create_automatic_removal_for_paid_contract-IsSound contract_id account_id =
      elim (Option-cases (find (is_active_user account_id) s.users)) [
        | inl e ↦ ground (arith, e)
        | inr (u, e) ↦ ground (
          arith,
          e,
          create_for_contract-IsSound contract_id u.id account_id OperationAction.remove false,
        )
      ]

module _ (s : ProviderState) (sound : IsSound s.items) where
  pub fail_with-IsSound :
      (q : ProviderOperationItem → Bool) (code : ErrorCode)
      → IsSound (update_where q (fail_with code) s.items)
  fail_with-IsSound q code =
      update-IsSound q (fail_with code)
        (record { id = λ i. refl; operation = λ i. refl; batch = λ i. refl }) s.items
        (All-trivial _ (λ i e h. ground arith) s.items) sound

  pub cancel-IsSound :
      (operation_id account_id : Text) → IsSound (cancel operation_id account_id s).1.items
  unfolding cancel
  cancel-IsSound operation_id account_id =
      elim (Option-cases (find (operation_of operation_id account_id) s.operations)) [
        | inl e ↦ ground (arith, e)
        | inr (o, e) ↦
            ground (arith, e, fail_with-IsSound (is_pending_of operation_id) ErrorCode.cancelled)
      ]

  is_reply-bounded :
      (i j : ProviderOperationItem)
      → Answer i j
      → is_pending i ≡ true
      → is_bounded i ≡ true
      → is_bounded j ≡ true
  is_reply-bounded i j a p b = ground (arith, a.one_more, is_reply-not_pending j.status a.answered)

  Attempt-IsSound :
      (p : ProviderOperationItem → Bool) (after : List ProviderOperationItem)
      → ((i : ProviderOperationItem) → p i ≡ true → is_pending i ≡ true)
      → Attempt p s.items after
      → IsSound after
  Attempt-IsSound p after pends a = rw a.equation (
      update-IsSound a.test a.change
        (record {
          id = λ i. (a.answers i).same_id;
          operation = λ i. (a.answers i).same_operation;
          batch = λ i. (a.answers i).same_batch;
        })
        s.items
        (All-weaken _ _ (λ i o e h. is_reply-bounded i (a.change i) (a.answers i) (pends i (o e)) h)
          s.items (a.only sound.distinct))
        sound)

  pub process-IsSound :
      (remote : Remote) (texts : Texts) (now : Date) (job : OperationBatchJobData)
      → IsSound (process remote texts now job s).items
  unfolding process
  process-IsSound remote texts now job = ground (
    arith,
    update_operation_status_if_complete-items job.operation_id (handled remote texts now job s),
    Attempt-IsSound (in_job job) (handled remote texts now job s).items (λ i h. ground arith)
        (handled-Attempt remote texts now job s),
  )
