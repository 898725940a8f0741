-- ===== src/Payments/Charges/Issue.antt =====
-- src/payments/payment-charges.service.ts: what an issuing method does once the provider has answered,
-- its `catch` included.
use cobdata_back.Base.{
  ℕ, pos, Bool, ◌&&◌, Option, none, some, [], ◌∷◌, ◌++◌, ◌==◌, if◌then◌else◌, or_default, any,
  returns, throws, Method, return, throw, modify, gets, throw_if, ◌>>=◌, ◌>>◌,
}
use cobdata_back.Payments.Model.{
  Text, Date, PaymentCharge, PaymentChargeStatus, PaymentChargeChannel, PaymentMethod,
  PaymentEventSource, Contract, Artefacts, AuditAction, payment_charge_failed,
}
use cobdata_back.Payments.Store.{Store, add_event, add_audit}
use cobdata_back.Payments.Factory.{
  Adapter, IssueInput, IssuedPaymentCharge, ServiceError, not_issued, unique_violation,
}
use cobdata_back.Payments.Charges.{
  Service, Call, has_pix, record_pix_issued_interaction, register_agreement_from_issued_charge,
}

-- The unique key of a charge.
abbrev pub same_key : Text → Text → PaymentCharge → Bool
same_key key gateway_id c = c.idempotency_key == key && c.payment_gateway_id == gateway_id

-- `prisma.paymentCharge.create`: a second row with the key is refused (P2002).
unfoldable pub insert_charge : PaymentCharge → Method Store ServiceError (Unit {0})
insert_charge c = do
  used ← gets λ s. any (same_key c.idempotency_key c.payment_gateway_id) s.charges
  throw_if used unique_violation
  modify λ s. record s { charges = s.charges ++ c ∷ [] }

-- The parameters of `handleAdapterError`.
pub record ChargeParams : Type 0 where
  pub contract_id : Text
  pub payment_gateway_id : Text
  pub method : PaymentMethod
  pub amount : ℕ
  pub due_date : Date
  pub idempotency_key : Text
  pub txid : Option Text
  pub expires_at : Option Date

pub record Failure : Type 0 where
  pub status : PaymentChargeStatus
  pub failure_code : Option Text
  pub failure_message : Option Text

abbrev pub failure_of : Service → ServiceError → Failure
failure_of service ServiceError.timeout = record {
  status = PaymentChargeStatus.pending;
  failure_code = none;
  failure_message = some service.timeout_message;
}
failure_of service ServiceError.rate_limited = record {
  status = PaymentChargeStatus.failed;
  failure_code = some service.rate_limited_code;
  failure_message = some service.rate_limited_message;
}
failure_of service (ServiceError.provider_error code message) = record {
  status = PaymentChargeStatus.failed;
  failure_code = some code;
  failure_message = some message;
}
failure_of service error = record {
  status = PaymentChargeStatus.failed;
  failure_code = some service.unknown_error;
  failure_message = some (service.message_of error);
}

abbrev pub no_artefacts : Artefacts
no_artefacts = record {
  our_number = none;
  digitable_line = none;
  barcode = none;
  pix_copy_paste = none;
  qr_code_url = none;
  document_url = none;
}

-- The row that a failure leaves, the defaults of the table included.
abbrev pub failed_row : Call → ChargeParams → Failure → PaymentCharge
failed_row call params failure = record {
  id = call.charge_id;
  account_id = call.account_id;
  contract_id = params.contract_id;
  payment_gateway_id = params.payment_gateway_id;
  method = params.method;
  status = failure.status;
  amount = params.amount;
  base_amount = none;
  discount_percent = pos 0;
  due_date = params.due_date;
  idempotency_key = params.idempotency_key;
  external_id = none;
  external_status = none;
  txid = params.txid;
  artefacts = no_artefacts;
  provider_payload = none;
  failure_code = failure.failure_code;
  failure_message = failure.failure_message;
  issued_at = none;
  paid_at = none;
  expires_at = params.expires_at;
  attributed_channel = some PaymentChargeChannel.cobcom;
  version = 0;
  created_at = call.now;
}

module _ (service : Service) (call : Call) where
  abbrev pub audit : AuditAction → PaymentCharge → Store → Store
  audit action charge s =
      add_audit
        (record {
          action = action;
          user_id = call.user_id;
          resource_id = charge.id;
          request_id = call.request_id;
        })
        s

  unfoldable pub handle_adapter_error :
      ServiceError → ChargeParams → Method Store ServiceError PaymentCharge
  unfolding insert_charge
  handle_adapter_error error params = do
    let failure = failure_of service error
    let charge = failed_row call params failure
    insert_charge charge
    modify (add_event charge.id none failure.status PaymentEventSource.manual)
    modify (audit payment_charge_failed charge)
    return charge

  -- The `try` of the three issuing methods, after `adapter.issue`.
  unfoldable pub persist_issued :
      Contract → AuditAction → PaymentCharge → Method Store ServiceError PaymentCharge
  unfolding insert_charge
  persist_issued contract action charge = do
    insert_charge charge
    modify (add_event charge.id none PaymentChargeStatus.issued PaymentEventSource.manual)
    modify (λ s.
        if has_pix charge.method
        then record_pix_issued_interaction call.now contract charge s
        else s)
    modify (register_agreement_from_issued_charge call.now contract charge)
    modify (audit action charge)
    return charge

  -- Their `catch`.
  abbrev pub fail : ChargeParams → ServiceError → Method Store ServiceError PaymentCharge
  fail params error = do
    charge ← handle_adapter_error error params
    throw (not_issued (or_default charge.failure_code service.provider_not_processed) charge.id)

  -- `meanwhile` is what others write while the provider is asked.
  unfoldable pub issue_charge :
      (Store → Store)
      → Adapter
      → Text
      → IssueInput
      → ChargeParams
      → Contract
      → AuditAction
      → (IssuedPaymentCharge → PaymentCharge)
      → Method Store ServiceError PaymentCharge
  unfolding persist_issued handle_adapter_error
  issue_charge meanwhile adapter config input params contract action row s =
      elim (adapter.issue input config) [
        | throws error ↦ fail params error (meanwhile s)
        | returns issued ↦
            let (r, s') = persist_issued contract action (row issued) (meanwhile s) in
            elim r [ returns charge ↦ (returns charge, s') | throws error ↦ fail params error s' ]
      ]
