-- ===== src/Providers/Race.antt =====
-- Two races of src/providers/operations.service.ts: a removal that is confirmed while the periodic
-- job gives it up, and the automatic removal of a debt that is asked for twice.
use cobdata_back.Base.{
  ℕ, ◌⊎◌, ◌≤◌, ◌≡◌, refl, ap, ◌∙◌, true, false, Option, some, inl, inr, List, [], ◌∷◌, arith, leb,
  ◌==◌, Bool-cases, Option-cases, find, find-passes, find-eq-none, any, update_where, All,
  All-updated, Outcome-cases, returns, throws,
}
use cobdata_back.Contracts.{Text, Date, Contract, SerasaStatus}
use cobdata_back.Payments.Store.{Store, contract_has_id}
use cobdata_back.Providers.Model.{
  EventType, UserRow, OperationAction, OperationItemStatus, ProviderOperation,
  ProviderOperationItem, ProviderState, is_one_of, item_has_id, with_serasa,
}
use cobdata_back.Providers.Operations.{
  Ids, Service, OperationError, create_for_contract, submit, is_active_contract, of_account,
}
use cobdata_back.Providers.Payload.{WebhookPayload}
use cobdata_back.Providers.Webhooks.{process_debt_removed_event}
use cobdata_back.Providers.Removal.{
  is_too_early, reconcile_item, removal_max_attempts, is_removable, is_open_removal, is_active_user,
  create_automatic_removal_for_paid_contract,
}

module _ (s : ProviderState) (read : ProviderOperationItem) where
  -- All rows of the item and of its contract have these statuses.
  abbrev pub HasStatus : OperationItemStatus → SerasaStatus → ProviderState → Type 0
  HasStatus item serasa t =
      All (λ i. (i.id == read.id) ≡ true → i.status ≡ item) t.items
      × All (λ c. (c.id == read.contract_id) ≡ true → c.serasa_status ≡ serasa) t.store.contracts

  confirmed :
      (reference : Text → EventType → Option ℕ → Option Text → Text) (now : Date)
      (meanwhile : Store → Store) (payload : WebhookPayload)
      → payload.status ≡ some 200
      → HasStatus OperationItemStatus.removed SerasaStatus.removed
          (process_debt_removed_event reference now meanwhile payload read s).1
  unfolding process_debt_removed_event
  confirmed reference now meanwhile payload e =
      rw (e, process_debt_removed_event)
        (
          All-updated _ (item_has_id read.id) _ (λ i h g. refl) (λ i h g. ground (arith, h))
              s.items,
          All-updated _ (contract_has_id read.contract_id) _ (λ c h g. refl)
              (λ c h g. ground (arith, h)) s.store.contracts,
        )

  given_up :
      (now : Date)
      → is_too_early now read ≡ false
      → leb removal_max_attempts read.attempts ≡ true
      → HasStatus OperationItemStatus.failed SerasaStatus.failed (reconcile_item now read s)
  unfolding reconcile_item
  given_up now late many = rw late (
      rw many (
        All-updated _ (item_has_id read.id) _ (λ i h g. refl) (λ i h g. ground (arith, h)) s.items,
        All-updated _ (contract_has_id read.contract_id) _ (λ c h g. refl)
            (λ c h g. ground (arith, h)) s.store.contracts,
      ))

-- The periodic job has read an item that it will give up, and before it does, Serasa confirms the
-- removal: the event makes the item and the contract REMOVED, and then the job makes both FAILED.
pub confirmed_then_given_up :
    (reference : Text → EventType → Option ℕ → Option Text → Text) (now later : Date)
    (meanwhile : Store → Store) (payload : WebhookPayload) (read : ProviderOperationItem)
    (s : ProviderState)
    → payload.status ≡ some 200
    → is_too_early later read ≡ false
    → removal_max_attempts ≤ read.attempts
    → let t = (process_debt_removed_event reference now meanwhile payload read s).1 in
      HasStatus s read OperationItemStatus.removed SerasaStatus.removed t
      × HasStatus t read OperationItemStatus.failed SerasaStatus.failed
          (reconcile_item later read t)
confirmed_then_given_up reference now later meanwhile payload read s e late many =
    let t = (process_debt_removed_event reference now meanwhile payload read s).1 in
    (confirmed s read reference now meanwhile payload e, given_up t read later late (ground arith))

module _ (contract_id account_id user : Text) where
  abbrev submission : Ids → Service ProviderOperation
  submission ids = create_for_contract ids contract_id user account_id OperationAction.remove false

  -- Once the contract is REMOVING, none of its rows is removable.
  none_removable :
      (c : Contract)
      → c.id ≡ contract_id
      → (xs : List Contract)
      → any
          (is_removable contract_id account_id)
          (update_where (λ x. is_one_of (c.id ∷ []) x.id) (with_serasa SerasaStatus.removing) xs)
        ≡ false
  none_removable c same [] = refl
  none_removable c same (x ∷ xs) = ground (arith, same, none_removable c same xs)

  submission-returns :
      (ids : Ids) (s : ProviderState) (op : ProviderOperation)
      → (submission ids s).0 ≡ returns op
      → any (is_removable contract_id account_id) (submission ids s).1.store.contracts ≡ false
  unfolding create_for_contract submit
  submission-returns ids s op h =
      elim (Option-cases (find (is_active_contract contract_id account_id) s.store.contracts)) [
        | inl e ↦ absurd (ground (arith, e))
        | inr (c, e) ↦ ground (
          arith,
          e,
          none_removable c
              (ground (
                arith,
                find-passes (is_active_contract contract_id account_id) s.store.contracts c e,
              ))
              s.store.contracts,
        )
      ]

  -- Whether a submission is refused does not depend on the ids.
  submission-throws :
      (ids ids' : Ids) (s : ProviderState) (error : OperationError)
      → (submission ids s).0 ≡ throws error
      → submission ids' s ≡ (throws error, s)
  unfolding create_for_contract
  submission-throws ids ids' s error h =
      elim (Option-cases (find (is_active_contract contract_id account_id) s.store.contracts)) [
        | inl e ↦ ground (arith, e)
        | inr (c, e) ↦ elim (Option-cases (find (of_account account_id) s.providers)) [
          | inl d ↦ ground (arith, e, d)
          | inr (p, d) ↦ ground (arith, e, d)
        ]
      ]

module _ (contract_id account_id : Text) where
  abbrev removal : Ids → ProviderState → ProviderState
  removal ids s = (create_automatic_removal_for_paid_contract ids contract_id account_id s).1

  not_removable :
      (ids : Ids) (s : ProviderState)
      → any (is_removable contract_id account_id) s.store.contracts ≡ false
      → removal ids s ≡ s
  unfolding create_automatic_removal_for_paid_contract
  not_removable ids s h =
      ground (arith, find-eq-none (is_removable contract_id account_id) s.store.contracts h)

  -- What is left of the removal is the submission for the first active user, or nothing.
  removal-cases :
      (ids ids' : Ids) (s : ProviderState)
      → ((removal ids s ≡ s) × (removal ids' s ≡ s))
        ⊎ ((user : UserRow) × (removal ids s ≡ (submission contract_id account_id user.id ids s).1)
            × (removal ids' s ≡ (submission contract_id account_id user.id ids' s).1))
  unfolding create_automatic_removal_for_paid_contract
  removal-cases ids ids' s = elim (Option-cases (find (is_active_user account_id) s.users)) [
    | inl e ↦ inl (ground (arith, e), ground (arith, e))
    | inr (u, e) ↦
        elim (Option-cases (find (is_removable contract_id account_id) s.store.contracts)) [
          | inl d ↦ inl (ground (arith, d), ground (arith, d))
          | inr (c, d) ↦
              elim (Bool-cases (any (is_open_removal s.operations contract_id) s.items)) [
                | inl o ↦ inl (ground (arith, d, o), ground (arith, d, o))
                | inr o ↦ inr (u, ground (arith, e, d, o), ground (arith, e, d, o))
              ]
        ]
  ]

  -- A debt that was paid twice, or whose payment was reported twice, is removed from Serasa once:
  -- the second request for the automatic removal changes nothing, whatever the first one did.
  pub automatic_removal_twice :
      (ids ids' : Ids) (s : ProviderState)
      → let t = (create_automatic_removal_for_paid_contract ids contract_id account_id s).1 in
        (create_automatic_removal_for_paid_contract ids' contract_id account_id t).1 ≡ t
  automatic_removal_twice ids ids' s = elim (removal-cases ids ids' s) [
    | inl (first, second) ↦ rw first second
    | inr (user, first, second) ↦
        elim (Outcome-cases (submission contract_id account_id user.id ids s).0) [
          | inl (op, e) ↦ rw first (
              not_removable ids' (submission contract_id account_id user.id ids s).1
                (submission-returns contract_id account_id user.id ids s op e))
          | inr (error, e) ↦
              let refused = submission-throws contract_id account_id user.id ids in
              rw (first ∙ ap (λ r. r.1) (refused ids s error e))
                (second ∙ ap (λ r. r.1) (refused ids' s error e))
        ]
  ]
