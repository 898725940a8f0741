-- ===== src/Providers/Stranded.antt =====
-- A contract whose operation was cancelled keeps the status of a contract that was sent.
use cobdata_back.Base.{
  ◌≡◌, refl, Bool, true, false, some, inl, inr, List, [], ◌∷◌, arith, ◌==◌, ==_refl, ==→≡,
  Option-cases, find, find-append_new, find-passes, any, All, All-updated, returns, throws,
}
use cobdata_back.Contracts.{Text, Contract, SerasaStatus, PaymentStatus, same_payment_status}
use cobdata_back.Providers.Model.{
  OperationAction, OperationStatus, ProviderOperation, ProviderRow, ProviderState, operation_has_id,
  is_one_of, with_serasa, add_jobs,
}
use cobdata_back.Providers.Operations.{
  Ids, create_for_contract, cancel, submit, jobs_from, new_operation, not_eligible,
  is_active_contract, of_account, operation_of,
}
use cobdata_back.Providers.Processor.Queries.{find-updated_if}

module _ (ids : Ids) (contract_id user_id account_id : Text) (allow : Bool) where
  -- What the submission of an inclusion did that returned.
  record Submitted (s : ProviderState) (op : ProviderOperation) (s1 : ProviderState) : Type 0 where
    contract : Contract
    provider : ProviderRow
    found : find (is_active_contract contract_id account_id) s.store.contracts ≡ some contract
    payable : same_payment_status contract.payment_status PaymentStatus.open_debt ≡ true
    connected : find (of_account account_id) s.providers ≡ some provider
    operation :
        op
        ≡ new_operation ids.operation account_id provider.id contract.wallet.id user_id
            OperationAction.create_or_update 1
    state : s1 ≡ add_jobs (jobs_from op 0 1) (submit op ids.item (contract.id ∷ []) s)

  create_for_contract-Submitted :
      (s s1 : ProviderState) (op : ProviderOperation)
      → create_for_contract ids contract_id user_id account_id OperationAction.create_or_update
          allow s
        ≡ (returns op, s1)
      → Submitted s op s1
  unfolding create_for_contract
  create_for_contract-Submitted s s1 op h =
      elim (Option-cases (find (is_active_contract contract_id account_id) s.store.contracts)) [
        | inl e ↦ absurd (ground (arith, e))
        | inr (c, e) ↦ elim (Option-cases (find (of_account account_id) s.providers)) [
          | inl d ↦ absurd (ground (arith, e, d))
          | inr (p, d) ↦ record {
            contract = c;
            provider = p;
            found = e;
            payable = ground (arith, e, d);
            connected = d;
            operation = ground (arith, e, d);
            state = ground (arith, e, d);
          }
        ]
      ]

  no_operation :
      (k : Text) (xs : List ProviderOperation)
      → any (operation_has_id k) xs ≡ false
      → any (operation_of k account_id) xs ≡ false
  no_operation k [] h = refl
  no_operation k (x ∷ xs) h = ground (arith, no_operation k xs)

  module _ (s : ProviderState) (c : Contract) (p : ProviderRow) where
    abbrev op : ProviderOperation
    op =
        new_operation ids.operation account_id p.id c.wallet.id user_id
          OperationAction.create_or_update 1

    abbrev after : ProviderState
    after = submit op ids.item (c.id ∷ []) s

    queued-found :
        any (operation_has_id ids.operation) s.operations ≡ false
        → find (operation_of ids.operation account_id) after.operations ≡ some op
    unfolding submit
    queued-found new =
        find-append_new (operation_of ids.operation account_id) s.operations op
          (no_operation ids.operation s.operations new)
          (ground (arith, ==_refl ids.operation, ==_refl account_id))

    sent-found :
        find (is_active_contract contract_id account_id) s.store.contracts ≡ some c
        → find (is_active_contract contract_id account_id) after.store.contracts
          ≡ some (with_serasa SerasaStatus.sent c)
    unfolding submit
    sent-found found = ground (
      arith,
      ==_refl c.id,
      find-updated_if (is_active_contract contract_id account_id) (λ x. is_one_of (c.id ∷ []) x.id)
          (with_serasa SerasaStatus.sent) (λ x. refl) s.store.contracts c found,
    )

    submit-providers : after.providers ≡ s.providers
    unfolding submit
    submit-providers = refl

    All-sent :
        c.id ≡ contract_id
        → All
            (λ x. (x.id == contract_id) ≡ true → x.serasa_status ≡ SerasaStatus.sent)
            after.store.contracts
    unfolding submit
    All-sent same =
        All-updated _ (λ x. is_one_of (c.id ∷ []) x.id) (with_serasa SerasaStatus.sent)
          (λ x e h. refl) (λ x e h. ground (arith, ==→≡ x.id contract_id h, ==_refl contract_id))
          s.store.contracts

  module _ (ids' : Ids) (user' : Text) where
    -- The operation can be cancelled; the contract stays SENT, and is refused for a new inclusion.
    abbrev pub IsStranded : ProviderOperation → ProviderState → Type 0
    IsStranded op s1 =
        let r = cancel op.id account_id s1 in
        (r.0 ≡ returns tt)
        × All (λ c. (c.id == contract_id) ≡ true → c.serasa_status ≡ SerasaStatus.sent)
            r.1.store.contracts
        × (create_for_contract ids' contract_id user' account_id OperationAction.create_or_update
              false r.1
            ≡ (throws not_eligible, r.1))

    cancel-contracts : (k : Text) (s : ProviderState) → (cancel k account_id s).1.store ≡ s.store
    unfolding cancel
    cancel-contracts k s = ground arith

    cancel-providers :
        (k : Text) (s : ProviderState) → (cancel k account_id s).1.providers ≡ s.providers
    unfolding cancel
    cancel-providers k s = ground arith

    cancel-returns :
        (k : Text) (s : ProviderState) (o : ProviderOperation)
        → find (operation_of k account_id) s.operations ≡ some o
        → o.status ≡ OperationStatus.pending
        → (cancel k account_id s).0 ≡ returns tt
    unfolding cancel
    cancel-returns k s o e h = ground (arith, e, h)

    sent-refused :
        (s : ProviderState) (c : Contract) (p : ProviderRow)
        → find (is_active_contract contract_id account_id) s.store.contracts ≡ some c
        → find (of_account account_id) s.providers ≡ some p
        → same_payment_status c.payment_status PaymentStatus.open_debt ≡ true
        → c.serasa_status ≡ SerasaStatus.sent
        → create_for_contract ids' contract_id user' account_id OperationAction.create_or_update
            false s
          ≡ (throws not_eligible, s)
    unfolding create_for_contract
    sent-refused s c p e d payable sent = ground (arith, e, d, payable, sent)

    Submitted-IsStranded :
        (s s1 : ProviderState) (op : ProviderOperation)
        → Submitted s op s1
        → any (operation_has_id ids.operation) s.operations ≡ false
        → IsStranded op s1
    Submitted-IsStranded s s1 op g new =
        let c = g.contract in
        let p = g.provider in
        let found =
          find-passes (is_active_contract contract_id account_id) s.store.contracts c g.found in
        rw g.state (
          rw g.operation (
            cancel-returns ids.operation _ _ (queued-found s c p new) refl,
            rw (cancel-contracts ids.operation _) (All-sent s c p (ground arith)),
            sent-refused _ (with_serasa SerasaStatus.sent c) p
                (rw (cancel-contracts ids.operation _) (sent-found s c p g.found))
                (rw (cancel-providers ids.operation _) (rw (submit-providers s c p) g.connected))
                g.payable refl,
          ))

    -- An inclusion that was submitted and is cancelled before the worker takes it: the cancellation
    -- succeeds, nothing was sent, and yet the contract stays SENT, so that a new inclusion of it is
    -- refused as not eligible.
    pub cancel-strands :
        (s s1 : ProviderState) (op : ProviderOperation)
        → create_for_contract ids contract_id user_id account_id OperationAction.create_or_update
            allow s
          ≡ (returns op, s1)
        → any (operation_has_id ids.operation) s.operations ≡ false
        → IsStranded op s1
    cancel-strands s s1 op h =
        Submitted-IsStranded s s1 op (create_for_contract-Submitted s s1 op h)
