-- ===== src/Payments/Model.antt =====
-- The enums of src/payments/enums.ts and the rows of prisma/schema.prisma that the payment services
-- read and write. A text that the code only compares (an id, a reference) is a number, 0 being the
-- empty text; an amount is in cents, a percentage in hundredths, a date in milliseconds.
use cobdata_back.Base.{ℕ, ℤ, Bool, true, false, Option, List, ◌==◌}
pub use cobdata_back.Contracts.{
  Text, Date, PaymentStatus, ContractStatus, SerasaStatus, is_paid_off, Wallet, Contract,
}

pub data PaymentProviderType : Type 0 where
  banco_do_brasil : PaymentProviderType

pub data PaymentMethod : Type 0 where
  boleto pix bolepix : PaymentMethod

pub data PaymentGatewayEnvironment : Type 0 where
  sandbox production : PaymentGatewayEnvironment

pub data PaymentChargeStatus : Type 0 where
  pending issued paid cancelled expired failed : PaymentChargeStatus

pub data PaymentChargeChannel : Type 0 where
  cobcom landing_page whatsapp chatbot : PaymentChargeChannel

pub data PaymentEventSource : Type 0 where
  webhook sync job manual : PaymentEventSource

pub data PaymentSettlementSource : Type 0 where
  pix serasa manual : PaymentSettlementSource

pub data PaymentSettlementStatus : Type 0 where
  confirmed reversed : PaymentSettlementStatus

-- `===` on each enum, by the position of its member.
abbrev pub method_index : PaymentMethod → ℕ
method_index PaymentMethod.boleto = 0
method_index PaymentMethod.pix = 1
method_index PaymentMethod.bolepix = 2

abbrev pub environment_index : PaymentGatewayEnvironment → ℕ
environment_index PaymentGatewayEnvironment.sandbox = 0
environment_index PaymentGatewayEnvironment.production = 1

abbrev pub status_index : PaymentChargeStatus → ℕ
status_index PaymentChargeStatus.pending = 0
status_index PaymentChargeStatus.issued = 1
status_index PaymentChargeStatus.paid = 2
status_index PaymentChargeStatus.cancelled = 3
status_index PaymentChargeStatus.expired = 4
status_index PaymentChargeStatus.failed = 5

abbrev pub source_index : PaymentSettlementSource → ℕ
source_index PaymentSettlementSource.pix = 0
source_index PaymentSettlementSource.serasa = 1
source_index PaymentSettlementSource.manual = 2

abbrev pub same_method : PaymentMethod → PaymentMethod → Bool
same_method a b = method_index a == method_index b

abbrev pub same_environment : PaymentGatewayEnvironment → PaymentGatewayEnvironment → Bool
same_environment a b = environment_index a == environment_index b

abbrev pub same_status : PaymentChargeStatus → PaymentChargeStatus → Bool
same_status a b = status_index a == status_index b

abbrev pub same_source : PaymentSettlementSource → PaymentSettlementSource → Bool
same_source a b = source_index a == source_index b

abbrev pub is_confirmed : PaymentSettlementStatus → Bool
is_confirmed PaymentSettlementStatus.confirmed = true
is_confirmed PaymentSettlementStatus.reversed = false

-- model PaymentGateway. `credentials` stands for the encrypted columns.
pub record PaymentGateway : Type 0 where
  pub id : Text
  pub account_id : Text
  pub provider_type : PaymentProviderType
  pub environment : PaymentGatewayEnvironment
  pub enabled : Bool
  pub supported_methods : List PaymentMethod
  pub credentials : Text

-- What the provider returns for the payer: model PaymentCharge, `digitableLine` to `documentUrl`.
pub record Artefacts : Type 0 where
  pub our_number : Option Text
  pub digitable_line : Option Text
  pub barcode : Option Text
  pub pix_copy_paste : Option Text
  pub qr_code_url : Option Text
  pub document_url : Option Text

-- model PaymentCharge
pub record PaymentCharge : Type 0 where
  pub id : Text
  pub account_id : Text
  pub contract_id : Text
  pub payment_gateway_id : Text
  pub method : PaymentMethod
  pub status : PaymentChargeStatus
  pub amount : ℕ
  pub base_amount : Option ℕ
  pub discount_percent : ℤ
  pub due_date : Date
  pub idempotency_key : Text
  pub external_id : Option Text
  pub external_status : Option Text
  pub txid : Option Text
  pub artefacts : Artefacts
  pub provider_payload : Option Text
  pub failure_code : Option Text
  pub failure_message : Option Text
  pub issued_at : Option Date
  pub paid_at : Option Date
  pub expires_at : Option Date
  pub attributed_channel : Option PaymentChargeChannel
  pub version : ℕ
  pub created_at : Date

-- model PaymentEvent
pub record PaymentEvent : Type 0 where
  pub payment_charge_id : Text
  pub from_status : Option PaymentChargeStatus
  pub to_status : PaymentChargeStatus
  pub source : PaymentEventSource

-- model PaymentSettlement
pub record PaymentSettlement : Type 0 where
  pub account_id : Text
  pub contract_id : Text
  pub payment_charge_id : Option Text
  pub agreement_reference : Option Text
  pub installment_number : Option ℕ
  pub source : PaymentSettlementSource
  pub status : PaymentSettlementStatus
  pub amount : ℕ
  pub paid_at : Date
  pub external_payment_id : Text
  pub channel_event_id : Option Text
  pub debt_reference : Option Text
  pub provider_payload : Option Text

-- The texts `PIX_ISSUED:${id}` and `PIX_PAID:${id}`.
pub data InteractionReference : Type 0 where
  pix_issued pix_paid : Text → InteractionReference

abbrev pub same_reference : InteractionReference → InteractionReference → Bool
same_reference (pix_issued a) (pix_issued b) = a == b
same_reference (pix_paid a) (pix_paid b) = a == b
same_reference _ _ = false

-- model ContractInteraction, as the payment services write it: its channel is PAYMENT, its status
-- COMPLETED and its provider BANCO_DO_BRASIL.
pub record ContractInteraction : Type 0 where
  pub account_id : Text
  pub wallet_id : Text
  pub contract_id : Text
  pub external_id : InteractionReference
  pub amount : ℕ
  pub payment_charge_id : Text
  pub txid : Option Text
  pub source : Option PaymentEventSource
  pub occurred_at : Date

pub data AuditAction : Type 0 where
  payment_charge_issued payment_charge_pix_issued payment_charge_pix_by_document : AuditAction
  payment_charge_failed payment_charge_synced : AuditAction

-- One call of `AuditService.log`.
pub record AuditEntry : Type 0 where
  pub action : AuditAction
  pub user_id : Option Text
  pub resource_id : Text
  pub request_id : Text
