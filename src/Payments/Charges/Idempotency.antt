-- ===== src/Payments/Charges/Idempotency.antt =====
-- The idempotency key of a charge.
use cobdata_back.Base.{
  pos, ◌≡◌, ◌≢◌, inl, inr, refl, sym, Bool, true, false, none, some, [], ◌∷◌, ◌++◌, arith, any,
  find, find-append_new, Option-cases, Bool-cases, Outcome-cases, if◌then◌else◌, ◌==◌, ==_refl,
  Outcome, returns, throws, or_default,
}
use cobdata_back.Payments.Model.{
  PaymentChargeChannel, payment_charge_issued, PaymentProviderType, Text, Date, Contract,
  PaymentCharge, PaymentGateway, AuditAction,
}
use cobdata_back.Payments.Store.{Store}
use cobdata_back.Payments.Factory.{
  bad_request, get, Adapter, IssueInput, IssuedPaymentCharge, ServiceError, not_issued, not_found,
  get_and_validate_method,
}
use cobdata_back.Payments.Charges.{has_pix, expires_at, Service, Call}
use cobdata_back.Payments.Charges.Issue.{same_key, ChargeParams, issue_charge}
use cobdata_back.Payments.Charges.Inputs.{
  is_contract_of, input_of, issued_row, CreatePaymentChargeDto, is_enabled_gateway,
}
use cobdata_back.Payments.Charges.Create.{create_charge}
use cobdata_back.Payments.Charges.Steps.{
  failed, alone, after_issue, after_failure, after_issue-charges, issue_charge-cases,
}

module _ (service : Service) (call' : Call) (contract_id : Text)
    (dto : CreatePaymentChargeDto) where
  -- What a second request does at the state that the first one left.
  abbrev pub Repeats : Store → Outcome ServiceError PaymentCharge × Store → Type 0
  Repeats s (returns c, s') = create_charge service call' alone contract_id dto s' ≡ (returns c, s')
  Repeats s (throws (ServiceError.not_issued code charge_id), s') =
      (c : PaymentCharge) × (c.id ≡ charge_id)
      × (create_charge service call' alone contract_id dto s' ≡ (returns c, s'))
  Repeats s (throws _, s') = s' ≡ s

  abbrev params_of : Call → Date → Contract → ChargeParams
  params_of call due_date contract = record {
    contract_id = contract.id;
    payment_gateway_id = dto.payment_gateway_id;
    method = dto.method;
    amount = or_default dto.amount 0;
    due_date = due_date;
    idempotency_key = dto.idempotency_key;
    txid = if has_pix dto.method then some call.txid else none;
    expires_at = if has_pix dto.method then some (expires_at service call) else none;
  }

  abbrev row_of : Call → Date → Contract → IssuedPaymentCharge → PaymentCharge
  row_of call due_date contract issued =
      issued_row call (params_of call due_date contract) none (pos 0) PaymentChargeChannel.cobcom
        issued.artefacts issued

  abbrev issue_of :
      Call → Date → Contract → Adapter → Text → Store → Outcome ServiceError PaymentCharge × Store
  issue_of call due_date contract adapter config =
      let params = params_of call due_date contract in
      issue_charge service call alone adapter config
        (input_of contract contract.debtor_document params) params contract payment_charge_issued
        (row_of call due_date contract)

  abbrev has_the_key : PaymentCharge → Bool
  has_the_key = same_key dto.idempotency_key dto.payment_gateway_id

  module _ (due_date : Date) (gateway : PaymentGateway) (adapter : Adapter) (s : Store)
      (has_amount : (or_default dto.amount 0 == 0) ≡ false)
      (has_date : dto.due_date ≡ some due_date)
      (found_gateway : find (is_enabled_gateway dto.payment_gateway_id call'.account_id) s.gateways
        ≡ some gateway)
      (found_adapter : get_and_validate_method service.adapters gateway.provider_type dto.method
        ≡ returns adapter) where
    create_again :
        (c : PaymentCharge) (t : Store)
        → t.gateways ≡ s.gateways
        → find has_the_key t.charges ≡ some c
        → create_charge service call' alone contract_id dto t ≡ (returns c, t)
    unfolding create_charge
    create_again c t same found = grind (arith, same)

    -- A state with a new row of the key.
    abbrev IsAdded : PaymentCharge → Store → Type 0
    IsAdded c t =
        (t.charges ≡ s.charges ++ c ∷ [])
        × (t.gateways ≡ s.gateways)
        × (c.idempotency_key ≡ dto.idempotency_key)
        × (c.payment_gateway_id ≡ dto.payment_gateway_id)

    create_again_added :
        (c : PaymentCharge) (t : Store)
        → IsAdded c t
        → any has_the_key s.charges ≡ false
        → create_charge service call' alone contract_id dto t ≡ (returns c, t)
    create_again_added c t (charges, gateways, key, gateway_id) free =
        let is_it : has_the_key c ≡ true =
          rw (key, gateway_id, ==_refl dto.idempotency_key, ==_refl dto.payment_gateway_id) refl in
        create_again c t gateways (rw charges (find-append_new has_the_key s.charges c free is_it))

    issue-Repeats :
        (call : Call) (config : Text) (input : IssueInput) (params : ChargeParams)
        (contract : Contract) (action : AuditAction) (row : IssuedPaymentCharge → PaymentCharge)
        → ((issued : IssuedPaymentCharge)
            → same_key (row issued).idempotency_key (row issued).payment_gateway_id
              ≡ same_key params.idempotency_key params.payment_gateway_id)
        → ((issued : IssuedPaymentCharge)
            → ((row issued).idempotency_key ≡ dto.idempotency_key)
              × ((row issued).payment_gateway_id ≡ dto.payment_gateway_id))
        → (params.idempotency_key ≡ dto.idempotency_key)
          × (params.payment_gateway_id ≡ dto.payment_gateway_id)
        → Repeats s
            (issue_charge service call alone adapter config input params contract action row s)
    issue-Repeats call config input params contract action row keys row_keys params_keys =
        elim (issue_charge-cases service call adapter config input params contract action row s
          keys) [
            | inl (issued, free, e) ↦
                let added = after_issue-charges service call contract action (row issued) s in
                let k = row_keys issued in
                rw e (
                  create_again_added (row issued)
                    (after_issue service call contract action (row issued) s)
                    (added.0, added.1, k.0, k.1) (rw (sym params_keys.0, sym params_keys.1) free))
            | inr (inl (error, free, e)) ↦ rw e (
              failed service call params error,
              refl,
              create_again_added (failed service call params error)
                  (after_failure service call params error s)
                  (refl, refl, params_keys.0, params_keys.1)
                  (rw (sym params_keys.0, sym params_keys.1) free),
            )
            | inr (inr e) ↦ rw e refl
          ]

  module _ (call : Call) (same_account : call'.account_id ≡ call.account_id)
      (decrypts : (g : PaymentGateway) (code charge_id : Text)
        → service.decrypt g ≢ throws (not_issued code charge_id)) where
    validate-Repeats :
        (t : PaymentProviderType) (e : ServiceError) (s : Store)
        → get_and_validate_method service.adapters t dto.method ≡ throws e
        → Repeats s (throws e, s)
    unfolding get_and_validate_method get
    validate-Repeats t e s h = ground arith

    decrypt-Repeats :
        (g : PaymentGateway) (e : ServiceError) (s : Store)
        → service.decrypt g ≡ throws e
        → Repeats s (throws e, s)
    decrypt-Repeats g (ServiceError.not_issued code charge_id) s h =
        elim (decrypts g code charge_id h) [ ]
    decrypt-Repeats g _ s h = refl

    ended :
        (s : Store) (r : Outcome ServiceError PaymentCharge × Store)
        → create_charge service call alone contract_id dto s ≡ r
        → Repeats s r
        → Repeats s (create_charge service call alone contract_id dto s)
    ended s r e h = rw e h

    -- A request for a charge, repeated with its key by the same account: where the first one
    -- returned a charge, the second one returns it again and changes nothing; where the first one
    -- left a failed charge behind, the second one returns that charge and changes nothing; any
    -- other failure of the first one left the state as it was.
    pub create_charge-Repeats :
        (s : Store) → Repeats s (create_charge service call alone contract_id dto s)
    unfolding create_charge
    create_charge-Repeats s = elim (Bool-cases (or_default dto.amount 0 == 0)) [
      | inl e ↦ ended s (throws bad_request, s) (ground arith) refl
      | inr has_amount ↦ elim (Option-cases dto.due_date) [
        | inl e ↦ ended s (throws bad_request, s) (ground arith) refl
        | inr (due_date, has_date) ↦
            elim (Option-cases
              (find (is_enabled_gateway dto.payment_gateway_id call.account_id) s.gateways)) [
                | inl e ↦ ended s (throws not_found, s) (ground arith) refl
                | inr (gateway, found_gateway) ↦
                    elim (Outcome-cases
                      (get_and_validate_method service.adapters gateway.provider_type dto.method)) [
                        | inr (error, e) ↦
                            ended s (throws error, s) (ground arith)
                              (validate-Repeats gateway.provider_type error s e)
                        | inl (adapter, found_adapter) ↦
                            let found' : find
                                  (is_enabled_gateway dto.payment_gateway_id call'.account_id)
                                  s.gateways
                                ≡ some gateway =
                              rw same_account found_gateway in
                            elim (Option-cases (find has_the_key s.charges)) [
                              | inr (c, e) ↦
                                  ended s (returns c, s) (ground arith)
                                    (create_again due_date gateway adapter s has_amount has_date
                                      found' found_adapter c s refl e)
                              | inl unused ↦
                                  elim (Option-cases (
                                    find (is_contract_of contract_id call.account_id)
                                      s.contracts)) [
                                        | inl e ↦ ended s (throws not_found, s) (ground arith) refl
                                        | inr (contract, found) ↦
                                            elim (Outcome-cases (service.decrypt gateway)) [
                                              | inr (error, e) ↦
                                                  ended s (throws error, s) (ground arith)
                                                    (decrypt-Repeats gateway error s e)
                                              | inl (config, e) ↦
                                                  ended s
                                                    (issue_of call due_date contract adapter config
                                                      s)
                                                    (ground arith)
                                                    (issue-Repeats due_date gateway adapter s
                                                      has_amount has_date found' found_adapter call
                                                      config
                                                      (input_of contract contract.debtor_document
                                                        (params_of call due_date contract))
                                                      (params_of call due_date contract) contract
                                                      payment_charge_issued
                                                      (row_of call due_date contract)
                                                      (λ issued. refl) (λ issued. (refl, refl))
                                                      (refl, refl))
                                            ]
                                      ]
                            ]
                      ]
              ]
      ]
    ]
