-- ===== src/Payments/Charges/Create.antt =====
-- src/payments/payment-charges.service.ts: `createCharge`, `createPixForContract` and
-- `createPixByDocument`. What the last two have in common is `issue_pix`.
use cobdata_back.Base.{
  ℕ, ℤ, pos, not, ◌&&◌, ◌||◌, Option, none, some, List, ◌==◌, if◌then◌else◌, or_default, is_some,
  find, keep, length, Method, return, throw_if, gets, modify, lift, or_throw, ◌>>=◌, ◌>>◌,
}
use cobdata_back.Payments.Model.{
  Text, PaymentCharge, PaymentChargeChannel, PaymentMethod, Contract, AuditAction,
  payment_charge_issued, payment_charge_pix_issued, payment_charge_pix_by_document, is_paid_off,
}
use cobdata_back.Payments.Store.{Store}
use cobdata_back.Payments.Factory.{
  ServiceError, bad_request, not_found, unprocessable, get_and_validate_method,
}
use cobdata_back.Payments.Charges.{
  Service, Call, expires_at, has_pix, resolve_pix_pricing, discount_of, find_existing_valid_pix,
  resolve_pix_gateway, record_pix_issued_interaction, register_agreement_from_issued_charge,
}
use cobdata_back.Payments.Charges.Issue.{same_key, ChargeParams, issue_charge}
use cobdata_back.Payments.Charges.Inputs.{
  CreatePaymentChargeDto, GeneratePixByDocumentDto, PixOptions, input_of, issued_row, pix_artefacts,
  is_enabled_gateway, is_contract_of, has_creditor, is_empty, is_digit, is_eligible, same_request,
  the_only,
}

-- `meanwhile` is what others write while the provider is asked.
module _ (service : Service) (call : Call) (meanwhile : Store → Store) where
  unfoldable pub create_charge :
      Text → CreatePaymentChargeDto → Method Store ServiceError PaymentCharge
  unfolding get_and_validate_method issue_charge
  create_charge contract_id dto = do
    throw_if (or_default dto.amount 0 == 0) bad_request
    due_date ← or_throw dto.due_date bad_request
    found_gateway ←
        gets λ s. find (is_enabled_gateway dto.payment_gateway_id call.account_id) s.gateways
    gateway ← or_throw found_gateway not_found
    adapter ← lift (get_and_validate_method service.adapters gateway.provider_type dto.method)
    existing ← gets λ s. find (same_key dto.idempotency_key dto.payment_gateway_id) s.charges
    elim existing [
      | some charge ↦ return charge
      | none ↦ do
        found_contract ← gets λ s. find (is_contract_of contract_id call.account_id) s.contracts
        contract ← or_throw found_contract not_found
        config ← lift (service.decrypt gateway)
        let params : ChargeParams = record {
          contract_id = contract.id;
          payment_gateway_id = dto.payment_gateway_id;
          method = dto.method;
          amount = or_default dto.amount 0;
          due_date = due_date;
          idempotency_key = dto.idempotency_key;
          txid = if has_pix dto.method then some call.txid else none;
          expires_at = if has_pix dto.method then some (expires_at service call) else none;
        }
        issue_charge service call meanwhile adapter config
            (input_of contract contract.debtor_document params) params contract
            payment_charge_issued
            (λ issued.
              issued_row call params none (pos 0) PaymentChargeChannel.cobcom issued.artefacts
                issued)
    ]

  -- From the gateway on: an existing valid Pix is handed out again, and otherwise one is issued.
  unfoldable pub issue_pix :
      Contract
      → ℕ
      → ℕ
      → ℤ
      → Text
      → Text
      → PaymentChargeChannel
      → AuditAction
      → Method Store ServiceError PaymentCharge
  unfolding resolve_pix_gateway get_and_validate_method issue_charge
  issue_pix contract amount base discount key document channel action = do
    gateway ← resolve_pix_gateway service call.account_id
    existing ← gets (find_existing_valid_pix call.now contract.id gateway.id amount)
    elim existing [
      | some charge ↦ do
        modify (record_pix_issued_interaction call.now contract charge)
        modify (register_agreement_from_issued_charge call.now contract charge)
        return charge
      | none ↦ do
        config ← lift (service.decrypt gateway)
        adapter ←
            lift (get_and_validate_method service.adapters gateway.provider_type PaymentMethod.pix)
        let params : ChargeParams = record {
          contract_id = contract.id;
          payment_gateway_id = gateway.id;
          method = PaymentMethod.pix;
          amount = amount;
          due_date = or_default contract.due_date call.now;
          idempotency_key = key;
          txid = some call.txid;
          expires_at = some (expires_at service call);
        }
        issue_charge service call meanwhile adapter config (input_of contract document params)
            params contract action
            (λ issued.
              issued_row call params (some base) discount channel (pix_artefacts issued.artefacts)
                issued)
    ]

  unfoldable pub create_pix_for_contract :
      Text → PixOptions → Method Store ServiceError PaymentCharge
  unfolding issue_pix
  create_pix_for_contract contract_id options = do
    found_contract ← gets λ s.
        find
          (λ c. is_contract_of contract_id call.account_id c && has_creditor options.creditor_id c)
          s.contracts
    contract ← or_throw found_contract not_found
    throw_if (is_paid_off contract.payment_status) unprocessable
    throw_if (contract.updated_value == 0) unprocessable
    throw_if (options.agreement_amount_only && is_empty contract.agreement_reference) unprocessable
    let agreed = contract.agreement_total_amount
    throw_if (options.agreement_amount_only && not (is_some agreed)) unprocessable
    let pricing = resolve_pix_pricing contract
    let amount = if options.agreement_amount_only then or_default agreed 0 else pricing.amount
    throw_if (amount == 0) unprocessable
    issue_pix contract amount pricing.base_amount (discount_of pricing.base_amount amount)
        call.idempotency_key contract.debtor_document PaymentChargeChannel.cobcom
        payment_charge_pix_issued

  -- `text_of` is the text with the given characters.
  unfoldable pub create_pix_by_document :
      (List ℕ → Text)
      → GeneratePixByDocumentDto
      → Option Text
      → Method Store ServiceError PaymentCharge
  unfolding issue_pix
  create_pix_by_document text_of dto creditor_id = do
    let digits = keep is_digit dto.debtor_document
    let document = text_of digits
    throw_if (not (length digits == 11 || length digits == 14)) bad_request
    contracts ←
        gets λ s.
          keep (is_eligible call.account_id document dto.contract_number creditor_id) s.contracts
    contract ← the_only contracts
    throw_if (contract.updated_value == 0) unprocessable
    let pricing = resolve_pix_pricing contract
    existing ← gets λ s. find (same_request contract.id dto.idempotency_key) s.charges
    elim existing [
      | some charge ↦ return charge
      | none ↦
          issue_pix contract pricing.amount pricing.base_amount pricing.discount_percent
            dto.idempotency_key document PaymentChargeChannel.landing_page
            payment_charge_pix_by_document
    ]
