-- ===== src/Payments/Charges/Pricing.antt =====
-- The price of a Pix, and the Pix that is handed out again.
use cobdata_back.Base.{
  ℤ, ℕ, ◌≡◌, ◌≤◌, ◌+◌, ◌-◌, ◌*◌, refl, Bool, true, false, ◌&&◌, Option, none, some, List, [], ◌∷◌,
  arith, any, find, or_default, Option-cases, inl, inr, is_some, ◌==◌, returns,
}
use cobdata_back.Payments.Model.{
  PaymentGateway, PaymentChargeChannel, AuditAction, payment_charge_pix_issued, is_paid_off, Text,
  Contract, PaymentCharge,
}
use cobdata_back.Payments.Store.{Store}
use cobdata_back.Payments.Charges.{
  PixPricing, discount_of, Service, Call, resolve_pix_pricing, find_newest, is_valid_pix,
  can_issue_pix, find_existing_valid_pix, resolve_pix_gateway,
  register_agreement_from_issued_charge, record_pix_issued_interaction,
}
use cobdata_back.Payments.Charges.Inputs.{PixOptions, is_contract_of, has_creditor}
use cobdata_back.Payments.Charges.Create.{create_pix_for_contract, issue_pix}

abbrev pub exact_price : Contract → ℕ
exact_price c = c.updated_value * (10000 - or_default c.wallet.cobcom_discount_percent 0)

-- An amount in cents against a contract's offer, or against its exact price in ten-thousandths.
abbrev pub IsPrice : Contract → Option ℕ → ℕ → Type 0
IsPrice c (some offer) amount = amount ≡ offer
IsPrice c none amount =
    (2 * exact_price c ≤ 20000 * amount + 10000)
    × (20000 * amount ≤ 2 * exact_price c + 10000)
    × (amount ≤ c.updated_value)

module _ (p : PaymentCharge → Bool) where
  find_newest-passes :
      (cs : List PaymentCharge) (c : PaymentCharge) → find_newest p cs ≡ some c → p c ≡ true
  find_newest-passes [] c h = ground arith
  find_newest-passes (d ∷ ds) c h = ground (arith, find_newest-passes ds c)

  find_newest-is_some :
      (cs : List PaymentCharge) → any p cs ≡ true → is_some (find_newest p cs) ≡ true
  find_newest-is_some [] h = ground arith
  find_newest-is_some (d ∷ ds) h = ground (arith, find_newest-is_some ds)

-- Where the gateway is found and a valid Pix is.
module _ (service : Service) (call : Call) (meanwhile : Store → Store) (contract : Contract)
    (amount base : ℕ) (discount : ℤ) (key document : Text) (channel : PaymentChargeChannel)
    (action : AuditAction) (gateway : PaymentGateway) (c : PaymentCharge) (s : Store)
    (found_gateway : find (can_issue_pix service.environment call.account_id) s.gateways
      ≡ some gateway)
    (valid : find_newest (is_valid_pix call.now contract.id gateway.id amount) s.charges
      ≡ some c) where
  abbrev reused : Store
  reused =
      register_agreement_from_issued_charge call.now contract c
        (record_pix_issued_interaction call.now contract c s)

  issue_pix-reuses :
      issue_pix service call meanwhile contract amount base discount key document channel action s
      ≡ (returns c, reused)
  unfolding issue_pix find_existing_valid_pix resolve_pix_gateway
  issue_pix-reuses = ground arith

  reused-rest :
      (reused.charges ≡ s.charges)
      × (reused.settlements ≡ s.settlements)
      × (reused.events ≡ s.events)
      × (reused.audits ≡ s.audits)
  unfolding record_pix_issued_interaction register_agreement_from_issued_charge
  reused-rest = ground arith

-- A contract that may have a Pix, and the gateway of its account.
module _ (service : Service) (call : Call) (meanwhile : Store → Store) (contract_id : Text)
    (creditor_id : Option Text) (contract : Contract) (gateway : PaymentGateway) (s : Store)
    (found : find
        (λ c. is_contract_of contract_id call.account_id c && has_creditor creditor_id c)
        s.contracts
      ≡ some contract)
    (unpaid : is_paid_off contract.payment_status ≡ false)
    (has_value : (contract.updated_value == 0) ≡ false)
    (has_price : ((resolve_pix_pricing contract).amount == 0) ≡ false)
    (found_gateway : find (can_issue_pix service.environment call.account_id) s.gateways
      ≡ some gateway) where
  abbrev is_valid : PaymentCharge → Bool
  is_valid = is_valid_pix call.now contract.id gateway.id (resolve_pix_pricing contract).amount

  abbrev options : PixOptions
  options = record { agreement_amount_only = false; creditor_id = creditor_id }

  abbrev price : PixPricing
  price = resolve_pix_pricing contract

  create-issues :
      create_pix_for_contract service call meanwhile contract_id options s
      ≡ issue_pix service call meanwhile contract price.amount price.base_amount
          (discount_of price.base_amount price.amount)
          call.idempotency_key
          contract.debtor_document
          PaymentChargeChannel.cobcom
          payment_charge_pix_issued
          s
  unfolding create_pix_for_contract
  create-issues = rw (found, unpaid, has_value, has_price) refl

  -- A contract with a valid Pix of today's price gets that Pix again: the provider is not asked,
  -- and no charge, settlement, event or audit entry is added.
  pub create_pix_for_contract-reuses :
      any
          (is_valid_pix call.now contract.id gateway.id (resolve_pix_pricing contract).amount)
          s.charges
        ≡ true
      → let (r, s') =
          create_pix_for_contract service call meanwhile contract_id
            (record { agreement_amount_only = false; creditor_id = creditor_id })
            s in
        ((c : PaymentCharge) × (r ≡ returns c)
          × (is_valid_pix call.now contract.id gateway.id (resolve_pix_pricing contract).amount c
              ≡ true))
        × (s'.charges ≡ s.charges)
        × (s'.settlements ≡ s.settlements)
        × (s'.events ≡ s.events)
        × (s'.audits ≡ s.audits)
  create_pix_for_contract-reuses valid = elim (Option-cases (find_newest is_valid s.charges)) [
    | inl e ↦ ground (arith, find_newest-is_some is_valid s.charges valid)
    | inr (c, e) ↦
        let reuses =
          issue_pix-reuses service call meanwhile contract price.amount price.base_amount
            (discount_of price.base_amount price.amount) call.idempotency_key
            contract.debtor_document PaymentChargeChannel.cobcom payment_charge_pix_issued gateway c
            s found_gateway e in
        let same =
          reused-rest service call meanwhile contract price.amount price.base_amount
            (discount_of price.base_amount price.amount) call.idempotency_key
            contract.debtor_document PaymentChargeChannel.cobcom payment_charge_pix_issued gateway c
            s found_gateway e in
        rw (create-issues, reuses)
          ((c, refl, find_newest-passes is_valid s.charges c e), same.0, same.1, same.2, same.3)
  ]
