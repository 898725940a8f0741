-- ===== src/Payments/Charges/KeyTaken.antt =====
-- `createPixByDocument` with an idempotency key that another contract has used on the gateway.
use cobdata_back.Base.{
  ℕ, ℤ, ◌≡◌, refl, arith, true, false, ◌||◌, Option, none, some, List, [], ◌∷◌, any, find, keep,
  length, ◌==◌, returns, throws, inl, inr, or_default,
}
use cobdata_back.Payments.Model.{
  Text, Contract, PaymentCharge, PaymentGateway, PaymentMethod, PaymentChargeChannel, AuditAction,
  payment_charge_pix_by_document,
}
use cobdata_back.Payments.Store.{Store}
use cobdata_back.Payments.Factory.{
  Adapter, IssuedPaymentCharge, unique_violation, get_and_validate_method,
}
use cobdata_back.Payments.Charges.{
  Service, Call, expires_at, find_newest, is_valid_pix, can_issue_pix, find_existing_valid_pix,
  resolve_pix_gateway, resolve_pix_pricing,
}
use cobdata_back.Payments.Charges.Issue.{same_key, ChargeParams, issue_charge}
use cobdata_back.Payments.Charges.Inputs.{
  GeneratePixByDocumentDto, is_digit, is_eligible, same_request, input_of, issued_row,
  pix_artefacts,
}
use cobdata_back.Payments.Charges.Create.{issue_pix, create_pix_by_document}
use cobdata_back.Payments.Charges.Steps.{alone, issue_charge-cases}

module _ (service : Service) (call : Call) (contract : Contract) (gateway : PaymentGateway)
    (adapter : Adapter) (config : Text) (s : Store)
    (found_gateway : find (can_issue_pix service.environment call.account_id) s.gateways
      ≡ some gateway)
    (decrypted : service.decrypt gateway ≡ returns config)
    (found_adapter : get_and_validate_method service.adapters gateway.provider_type
        PaymentMethod.pix
      ≡ returns adapter) where
  module _ (amount base : ℕ) (discount : ℤ) (key document : Text) (channel : PaymentChargeChannel)
      (action : AuditAction)
      (no_pix : find_newest (is_valid_pix call.now contract.id gateway.id amount) s.charges ≡ none)
      (taken : any (same_key key gateway.id) s.charges ≡ true) where
    abbrev params : ChargeParams
    params = record {
      contract_id = contract.id;
      payment_gateway_id = gateway.id;
      method = PaymentMethod.pix;
      amount = amount;
      due_date = or_default contract.due_date call.now;
      idempotency_key = key;
      txid = some call.txid;
      expires_at = some (expires_at service call);
    }

    abbrev row : IssuedPaymentCharge → PaymentCharge
    row issued =
        issued_row call params (some base) discount channel (pix_artefacts issued.artefacts) issued

    issue_pix-issues :
        issue_pix service call alone contract amount base discount key document channel action s
        ≡ issue_charge service call alone adapter config
            (input_of contract document params)
            params
            contract
            action
            row
            s
    unfolding issue_pix resolve_pix_gateway find_existing_valid_pix
    issue_pix-issues = ground arith

    issue_pix-refused :
        issue_pix service call alone contract amount base discount key document channel action s
        ≡ (throws unique_violation, s)
    issue_pix-refused =
        elim (issue_charge-cases service call adapter config (input_of contract document params)
          params contract action row s (λ issued. refl)) [
            | inl (issued, free, e) ↦ ground arith
            | inr (inl (error, free, e)) ↦ ground arith
            | inr (inr e) ↦ rw issue_pix-issues e
          ]

  module _ (text_of : List ℕ → Text) (dto : GeneratePixByDocumentDto) (creditor_id : Option Text)
      (is_length : (length (keep is_digit dto.debtor_document) == 11
          || length (keep is_digit dto.debtor_document) == 14)
        ≡ true)
      (eligible : keep
          (is_eligible call.account_id
            (text_of (keep is_digit dto.debtor_document))
            dto.contract_number
            creditor_id)
          s.contracts
        ≡ contract ∷ [])
      (has_value : (contract.updated_value == 0) ≡ false)
      (is_new : find (same_request contract.id dto.idempotency_key) s.charges ≡ none)
      (no_pix : find_newest
          (is_valid_pix call.now contract.id gateway.id (resolve_pix_pricing contract).amount)
          s.charges
        ≡ none)
      (taken : any (same_key dto.idempotency_key gateway.id) s.charges ≡ true) where
    -- A request by document for the only eligible contract, which has no charge with the key and no
    -- valid Pix, while the gateway has a charge with the key: whatever the provider answers, the
    -- request ends with the violation of the unique key and stores nothing, neither an issued Pix
    -- nor a failed charge.
    pub create_pix_by_document-key_taken :
        create_pix_by_document service call alone text_of dto creditor_id s
        ≡ (throws unique_violation, s)
    unfolding create_pix_by_document
    create_pix_by_document-key_taken =
        let pricing = resolve_pix_pricing contract in
        let refused =
          issue_pix-refused pricing.amount pricing.base_amount pricing.discount_percent
            dto.idempotency_key (text_of (keep is_digit dto.debtor_document))
            PaymentChargeChannel.landing_page payment_charge_pix_by_document no_pix taken in
        ground (arith, refused)
