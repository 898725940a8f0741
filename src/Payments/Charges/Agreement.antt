-- ===== src/Payments/Charges/Agreement.antt =====
-- The agreement of a contract: what an issued Pix changes in it, and what a second Pix does not.
use cobdata_back.Base.{
  ℕ, ℤ, ◌≡◌, refl, Bool, true, ◌&&◌, Option, none, some, arith, find, find-update_where,
  Option-cases, Bool-cases, inl, inr, ==_refl, Outcome, returns, throws,
}
use cobdata_back.Payments.Model.{
  Text, Date, Contract, PaymentCharge, PaymentChargeChannel, AuditAction,
}
use cobdata_back.Payments.Store.{Store, contract_has_id}
use cobdata_back.Payments.Factory.{
  not_found, ServiceError, Adapter, IssueInput, IssuedPaymentCharge,
}
use cobdata_back.Payments.Charges.{
  Service, Call, keeps_agreement, with_agreement, register_agreement_from_issued_charge,
  record_pix_issued_interaction, find_existing_valid_pix, resolve_pix_gateway,
}
use cobdata_back.Payments.Charges.Issue.{ChargeParams, same_key, issue_charge}
use cobdata_back.Payments.Charges.Steps.{alone, after_issue, issue_charge-cases}
use cobdata_back.Payments.Charges.Inputs.{PixOptions, is_contract_of, has_creditor}
use cobdata_back.Payments.Charges.Create.{create_pix_for_contract, issue_pix}

-- The contracts after a method that began at `s`, by how it ended.
abbrev Registers : Date → Contract → Store → Outcome ServiceError PaymentCharge × Store → Type 0
Registers now contract s (returns c, s') =
    s'.contracts ≡ (register_agreement_from_issued_charge now contract c s).contracts
Registers now contract s (throws e, s') = s'.contracts ≡ s.contracts

module _ (service : Service) (call : Call) (contract : Contract) where
  interaction-contracts :
      (c : PaymentCharge) (s : Store)
      → (record_pix_issued_interaction call.now contract c s).contracts ≡ s.contracts
  unfolding record_pix_issued_interaction
  interaction-contracts c s = ground arith

  register-contracts :
      (c : PaymentCharge) (s t : Store)
      → s.contracts ≡ t.contracts
      → (register_agreement_from_issued_charge call.now contract c s).contracts
        ≡ (register_agreement_from_issued_charge call.now contract c t).contracts
  unfolding register_agreement_from_issued_charge
  register-contracts c s t same = ground arith

  after_issue-contracts :
      (action : AuditAction) (c : PaymentCharge) (s : Store)
      → (after_issue service call contract action c s).contracts
        ≡ (register_agreement_from_issued_charge call.now contract c s).contracts
  after_issue-contracts action c s = grind (arith, interaction-contracts, register-contracts)

  issue-Registers :
      (adapter : Adapter) (config : Text) (input : IssueInput) (params : ChargeParams)
      (action : AuditAction) (row : IssuedPaymentCharge → PaymentCharge) (s : Store)
      → ((issued : IssuedPaymentCharge)
          → same_key (row issued).idempotency_key (row issued).payment_gateway_id
            ≡ same_key params.idempotency_key params.payment_gateway_id)
      → Registers call.now contract s
          (issue_charge service call alone adapter config input params contract action row s)
  issue-Registers adapter config input params action row s keys =
      elim (issue_charge-cases service call adapter config input params contract action row s
        keys) [
          | inl (issued, _, e) ↦ rw e (after_issue-contracts action (row issued) s)
          | inr (inl (error, _, e)) ↦ rw e refl
          | inr (inr e) ↦ rw e refl
        ]

  issue_pix-Registers :
      (amount base : ℕ) (discount : ℤ) (key document : Text) (channel : PaymentChargeChannel)
      (action : AuditAction) (s : Store)
      → Registers call.now contract s
          (issue_pix service call alone contract amount base discount key document channel action s)
  unfolding issue_pix find_existing_valid_pix resolve_pix_gateway
  issue_pix-Registers amount base discount key document channel action s =
      grind (arith, issue-Registers, interaction-contracts, register-contracts)

abbrev is_asked : Text → Text → Option Text → Contract → Bool
is_asked contract_id account_id creditor_id c =
    is_contract_of contract_id account_id c && has_creditor creditor_id c

-- One request for a Pix of a contract.
module _ (service : Service) (call : Call) (contract_id : Text) (options : PixOptions)
    (contract : Contract) (s : Store)
    (found : find (is_asked contract_id call.account_id options.creditor_id) s.contracts
      ≡ some contract) where
  abbrev asked : Outcome ServiceError PaymentCharge × Store
  asked = create_pix_for_contract service call alone contract_id options s

  asked-Registers : Registers call.now contract s asked
  unfolding create_pix_for_contract
  asked-Registers = grind (arith, found, issue_pix-Registers)

  Registers-kept :
      (r : Outcome ServiceError PaymentCharge × Store)
      → Registers call.now contract s r
      → keeps_agreement contract ≡ true
      → r.1.contracts ≡ s.contracts
  unfolding register_agreement_from_issued_charge
  Registers-kept (returns c, s') h kept = ground arith
  Registers-kept (throws e, s') h kept = h

  -- Where it returns, the contract has an agreement that the next request keeps.
  register-keeps :
      (c : PaymentCharge)
      → (contract' : Contract) × (find
            (is_asked contract_id call.account_id options.creditor_id)
            (register_agreement_from_issued_charge call.now contract c s).contracts
          ≡ some contract')
        × (keeps_agreement contract' ≡ true)
  unfolding register_agreement_from_issued_charge
  register-keeps c = elim (Bool-cases (keeps_agreement contract)) [
    | inl kept ↦ (contract, ground arith, kept)
    | inr open_ ↦
        let p = is_asked contract_id call.account_id options.creditor_id in
        let same =
          find-update_where p (contract_has_id contract.id) (with_agreement call.now contract c)
            (λ x. ground arith) s.contracts in
        (
          with_agreement call.now contract c contract,
          rw (open_, register_agreement_from_issued_charge, same, found, ==_refl contract.id) refl,
          refl,
        )
  ]

Registers-returns :
    (now : Date) (contract : Contract) (s : Store) (c : PaymentCharge)
    (r : Outcome ServiceError PaymentCharge × Store)
    → Registers now contract s r
    → r.0 ≡ returns c
    → r.1.contracts ≡ (register_agreement_from_issued_charge now contract c s).contracts
Registers-returns now contract s c (returns d, s') h e = ground arith
Registers-returns now contract s c (throws d, s') h e = ground arith

create_missing :
    (service : Service) (call : Call) (contract_id : Text) (options : PixOptions) (s : Store)
    → find (is_asked contract_id call.account_id options.creditor_id) s.contracts ≡ none
    → (create_pix_for_contract service call alone contract_id options s).0 ≡ throws not_found
unfolding create_pix_for_contract
create_missing service call contract_id options s h = rw (create_pix_for_contract, h) refl

-- Two requests.
module _ (service : Service) (call call' : Call) (contract_id : Text)
    (options options' : PixOptions) (same_account : call'.account_id ≡ call.account_id)
    (same_creditor : options'.creditor_id ≡ options.creditor_id) where
  -- After a request that returned a Pix, another request for a Pix of the contract, by the same
  -- account and creditor, whenever it comes and however it ends, changes nothing in the contracts:
  -- the agreement keeps its amount and its deadline.
  pub create_pix_for_contract-keeps_deadline :
      (charge : PaymentCharge) (s : Store)
      → (create_pix_for_contract service call alone contract_id options s).0 ≡ returns charge
      → let s' = (create_pix_for_contract service call alone contract_id options s).1 in
        (create_pix_for_contract service call' alone contract_id options' s').1.contracts
        ≡ s'.contracts
  create_pix_for_contract-keeps_deadline charge s returned =
      let p = is_asked contract_id call.account_id options.creditor_id in
      elim (Option-cases (find p s.contracts)) [
        | inl absent ↦ ground (arith, create_missing service call contract_id options s absent)
        | inr (contract, found) ↦
            let s' = (create_pix_for_contract service call alone contract_id options s).1 in
            let (contract', found', kept) =
              register-keeps service call contract_id options contract s found charge in
            let same =
              Registers-returns call.now contract s charge
                (create_pix_for_contract service call alone contract_id options s)
                (asked-Registers service call contract_id options contract s found) returned in
            let asked_again : find (is_asked contract_id call'.account_id options'.creditor_id)
                  s'.contracts
                ≡ some contract' =
              rw (same_account, same_creditor, same) found' in
            Registers-kept service call' contract_id options' contract' s' asked_again
              (create_pix_for_contract service call' alone contract_id options' s')
              (asked-Registers service call' contract_id options' contract' s' asked_again) kept
      ]
