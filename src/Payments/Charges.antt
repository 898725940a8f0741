-- ===== src/Payments/Charges.antt =====
-- src/payments/payment-charges.service.ts: the private helpers of the service, and what a request
-- does once the provider has answered. Ids, transaction ids and the clock are arguments; an amount
-- is in cents and a percentage in hundredths, as the Decimal(15, 2) and Decimal(5, 2) columns.
pub mod Issue
pub mod Inputs
pub mod Create
pub mod Sync
pub mod Steps
pub mod Pricing
pub mod Agreement
pub mod Idempotency
pub mod Stale
pub mod KeyTaken
mod Tests
use cobdata_back.Base.{
  ℕ, ℤ, pos, negative, div_round, ◌+◌, ◌-◌, ◌*◌, Bool, true, false, ◌&&◌, ◌||◌, Option, none, some,
  List, [], ◌∷◌, ◌++◌, ltb, leb, ◌==◌, if◌then◌else◌, or_default, is_some, find, any, max, Outcome,
  returns, throws, Method, return, throw, modify, lift, or_throw, ◌>>=◌, ◌>>◌,
}
use cobdata_back.Payments.Model.{
  Text, Date, PaymentCharge, PaymentChargeStatus, PaymentChargeChannel, PaymentMethod,
  PaymentEventSource, PaymentGateway, PaymentGatewayEnvironment, PaymentStatus, Contract, Artefacts,
  AuditAction, payment_charge_failed, pix_issued, same_method, same_status, same_environment,
}
use cobdata_back.Payments.Store.{
  Store, interaction_of, add_event, add_interaction, add_audit, update_contract,
}
use cobdata_back.Payments.Factory.{
  Adapter, IssueInput, IssuedPaymentCharge, ServiceError, timeout, rate_limited, provider_error,
  not_found, not_issued, unique_violation,
}

-- What the service is built with: its adapters, `decryptCredentials`, the configuration, the texts
-- that it writes, and the message of an error.
pub record Service : Type 0 where
  pub adapters : List Adapter
  pub decrypt : PaymentGateway → Outcome ServiceError Text
  pub environment : PaymentGatewayEnvironment
  -- `parseInt(process.env.PIX_EXPIRATION_HOURS)`, `none` for NaN.
  pub pix_expiration_hours : Option ℕ
  pub message_of : ServiceError → Text
  pub timeout_message : Text
  pub rate_limited_code : Text
  pub rate_limited_message : Text
  pub unknown_error : Text
  pub provider_not_processed : Text

-- A request: who makes it and when, and the identifiers that are drawn while it is handled.
pub record Call : Type 0 where
  pub account_id : Text
  pub user_id : Option Text
  pub request_id : Text
  pub now : Date
  pub charge_id : Text
  pub txid : Text
  pub idempotency_key : Text

abbrev pub default_pix_expiration_hours : ℕ
default_pix_expiration_hours = 24

-- `parseInt(…) || DEFAULT_PIX_EXPIRATION_HOURS`
abbrev pub expiration_hours : Option ℕ → ℕ
expiration_hours none = default_pix_expiration_hours
expiration_hours (some hours) = if hours == 0 then default_pix_expiration_hours else hours

abbrev pub expires_at : Service → Call → Date
expires_at service call = call.now + expiration_hours service.pix_expiration_hours * 60 * 60 * 1000

-- PIX or BOLEPIX.
abbrev pub has_pix : PaymentMethod → Bool
has_pix m = same_method m PaymentMethod.pix || same_method m PaymentMethod.bolepix

pub record PixPricing : Type 0 where
  pub base_amount : ℕ
  pub amount : ℕ
  pub discount_percent : ℤ

-- `(base - amount) / base * 100`, to two places.
abbrev pub discount_of : ℕ → ℕ → ℤ
discount_of base amount =
    if base == 0
    then pos 0
    else if leb amount base
    then pos (div_round ((base - amount) * 10000) base)
    else negative (div_round ((amount - base) * 10000) base)

-- The discount of a wallet is at most 100, by its DTO.
unfoldable pub resolve_pix_pricing : Contract → PixPricing
resolve_pix_pricing contract =
    let base = contract.updated_value in
    let amount : ℕ = elim contract.offer_value [
      | some offer ↦ offer
      | none ↦
          div_round (base * (10000 - or_default contract.wallet.cobcom_discount_percent 0)) 10000
    ] in
    record { base_amount = base; amount = amount; discount_percent = discount_of base amount }

-- `orderBy: { createdAt: 'desc' }`: the newest row that passes.
abbrev pub find_newest : (PaymentCharge → Bool) → List PaymentCharge → Option PaymentCharge
find_newest p [] = none
find_newest p (c ∷ cs) =
    let rest = find_newest p cs in
    if p c
    then elim rest [
      | none ↦ some c
      | some d ↦ some (if ltb c.created_at d.created_at then d else c)
    ]
    else rest

abbrev pub is_after : Date → Option Date → Bool
is_after now none = false
is_after now (some at) = ltb now at

abbrev pub is_valid_pix : Date → Text → Text → ℕ → PaymentCharge → Bool
is_valid_pix now contract_id gateway_id amount c =
    c.contract_id == contract_id
    && c.payment_gateway_id == gateway_id
    && same_method c.method PaymentMethod.pix
    && same_status c.status PaymentChargeStatus.issued
    && c.amount == amount
    && is_after now c.expires_at

unfoldable pub find_existing_valid_pix : Date → Text → Text → ℕ → Store → Option PaymentCharge
find_existing_valid_pix now contract_id gateway_id amount s =
    find_newest (is_valid_pix now contract_id gateway_id amount) s.charges

abbrev pub can_issue_pix : PaymentGatewayEnvironment → Text → PaymentGateway → Bool
can_issue_pix environment account_id g =
    g.account_id == account_id
    && same_environment g.environment environment
    && g.enabled
    && any (same_method PaymentMethod.pix) g.supported_methods

unfoldable pub resolve_pix_gateway : Service → Text → Method Store ServiceError PaymentGateway
resolve_pix_gateway service account_id s =
    or_throw (find (can_issue_pix service.environment account_id) s.gateways) not_found s

unfoldable pub record_pix_issued_interaction : Date → Contract → PaymentCharge → Store → Store
record_pix_issued_interaction now contract charge s =
    if any (interaction_of contract.id (pix_issued charge.id)) s.interactions
    then s
    else add_interaction
        (record {
          account_id = contract.account_id;
          wallet_id = contract.wallet.id;
          contract_id = contract.id;
          external_id = pix_issued charge.id;
          amount = charge.amount;
          payment_charge_id = charge.id;
          txid = charge.txid;
          source = none;
          occurred_at = now;
        })
        s

-- `PAID`, `INSTALLMENT`, or `IN_AGREEMENT` with a deadline.
abbrev pub keeps_agreement : Contract → Bool
keeps_agreement c = elim c.payment_status [
  | PaymentStatus.paid_off ↦ true
  | PaymentStatus.installment ↦ true
  | PaymentStatus.in_agreement ↦ is_some c.agreement_due_at
  | _ ↦ false
]

abbrev pub agreement_deadline : Date → Contract → Date
agreement_deadline now contract =
    now + max 1 contract.wallet.offer_first_installment_days * 24 * 60 * 60 * 1000

abbrev pub with_agreement : Date → Contract → PaymentCharge → Contract → Contract
with_agreement now contract charge c = record c {
  payment_status = PaymentStatus.in_agreement;
  agreement_reference = some (or_default charge.external_id (or_default charge.txid charge.id));
  agreement_total_amount = some charge.amount;
  agreement_created_at = some now;
  agreed_payment_amount = some charge.amount;
  total_installments = some 1;
  paid_installments = 0;
  agreement_due_at = some (agreement_deadline now contract);
}

unfoldable pub register_agreement_from_issued_charge :
    Date → Contract → PaymentCharge → Store → Store
register_agreement_from_issued_charge now contract charge s =
    if keeps_agreement contract
    then s
    else update_contract contract.id (with_agreement now contract charge) s
