-- ===== src/Payments/Charges/Inputs.antt =====
-- src/payments/payment-charges.service.ts: the inputs of the issuing methods, the rows that they
-- write and the conditions of their queries.
use cobdata_back.Base.{
  ℕ, ℤ, Bool, true, false, not, ◌&&◌, Option, none, some, List, [], ◌∷◌, leb, ◌==◌, if◌then◌else◌,
  or_default, or_else, Method, return, throw,
}
use cobdata_back.Payments.Model.{
  Text, Date, PaymentCharge, PaymentChargeStatus, PaymentChargeChannel, PaymentMethod,
  PaymentGateway, ContractStatus, Contract, Artefacts, is_paid_off,
}
use cobdata_back.Payments.Store.{Store}
use cobdata_back.Payments.Factory.{
  IssueInput, IssuedPaymentCharge, ServiceError, not_found, conflict,
}
use cobdata_back.Payments.Charges.{Call}
use cobdata_back.Payments.Charges.Issue.{ChargeParams, no_artefacts}

-- CreatePaymentChargeDto, parsed: `none` is a text that is no amount, or no date.
pub record CreatePaymentChargeDto : Type 0 where
  pub payment_gateway_id : Text
  pub method : PaymentMethod
  pub amount : Option ℕ
  pub due_date : Option Date
  pub idempotency_key : Text

-- GeneratePixByDocumentDto; the document is given by the codes of its characters.
pub record GeneratePixByDocumentDto : Type 0 where
  pub debtor_document : List ℕ
  pub contract_number : Text
  pub idempotency_key : Text

pub record PixOptions : Type 0 where
  pub agreement_amount_only : Bool
  pub creditor_id : Option Text

abbrev pub input_of : Contract → Text → ChargeParams → IssueInput
input_of contract document params = record {
  contract_id = contract.id;
  method = params.method;
  amount = params.amount;
  due_date = params.due_date;
  idempotency_key = params.idempotency_key;
  txid = params.txid;
  expires_at = params.expires_at;
  debtor_name = contract.debtor_name;
  debtor_document = document;
}

-- The row of an issued charge.
abbrev pub issued_row :
    Call
    → ChargeParams
    → Option ℕ
    → ℤ
    → PaymentChargeChannel
    → Artefacts
    → IssuedPaymentCharge
    → PaymentCharge
issued_row call params base discount channel artefacts issued = record {
  id = call.charge_id;
  account_id = call.account_id;
  contract_id = params.contract_id;
  payment_gateway_id = params.payment_gateway_id;
  method = params.method;
  status = PaymentChargeStatus.issued;
  amount = params.amount;
  base_amount = base;
  discount_percent = discount;
  due_date = params.due_date;
  idempotency_key = params.idempotency_key;
  external_id = issued.external_id;
  external_status = issued.external_status;
  txid = or_else issued.txid params.txid;
  artefacts = artefacts;
  provider_payload = issued.provider_payload;
  failure_code = none;
  failure_message = none;
  issued_at = some (or_default issued.issued_at call.now);
  paid_at = none;
  expires_at = or_else issued.expires_at params.expires_at;
  attributed_channel = some channel;
  version = 0;
  created_at = call.now;
}

-- Of the artefacts, a Pix keeps these two.
abbrev pub pix_artefacts : Artefacts → Artefacts
pix_artefacts a = record no_artefacts {
  pix_copy_paste = a.pix_copy_paste;
  qr_code_url = a.qr_code_url;
}

abbrev pub is_enabled_gateway : Text → Text → PaymentGateway → Bool
is_enabled_gateway gateway_id account_id g =
    g.id == gateway_id && g.account_id == account_id && g.enabled

abbrev pub is_contract_of : Text → Text → Contract → Bool
is_contract_of contract_id account_id c =
    c.id == contract_id && c.account_id == account_id && not c.deleted

-- `creditorId ? { wallet: { creditorId } } : {}`
abbrev pub has_creditor : Option Text → Contract → Bool
has_creditor none c = true
has_creditor (some k) c = if k == 0 then true else c.wallet.creditor_id == k

-- `!text` for a nullable text.
abbrev pub is_empty : Option Text → Bool
is_empty none = true
is_empty (some t) = t == 0

abbrev pub is_digit : ℕ → Bool
is_digit c = leb 48 c && leb c 57

abbrev pub is_active : ContractStatus → Bool
is_active ContractStatus.active = true
is_active _ = false

abbrev pub is_eligible : Text → Text → Text → Option Text → Contract → Bool
is_eligible account_id document number creditor_id c =
    c.account_id == account_id
    && c.debtor_document == document
    && c.contract_number == number
    && is_active c.status
    && not (is_paid_off c.payment_status)
    && not c.deleted
    && not (c.updated_value == 0)
    && has_creditor creditor_id c

abbrev pub same_request : Text → Text → PaymentCharge → Bool
same_request contract_id key c =
    c.contract_id == contract_id
    && c.idempotency_key == key
    && (elim c.method [ PaymentMethod.pix ↦ true | _ ↦ false ])

-- No contract is not found, and several are a conflict.
abbrev pub the_only : List Contract → Method Store ServiceError Contract
the_only [] = throw not_found
the_only (c ∷ []) = return c
the_only (c ∷ _ ∷ _) = throw conflict
