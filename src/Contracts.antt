-- ===== src/Contracts.antt =====
-- The row of a contract with its wallet, as prisma/schema.prisma has it, less the columns that none of
-- the modelled services reads or writes. A text that the code only compares (an id, a reference) is
-- a number, 0 being the empty text; an amount is in cents, a percentage in hundredths, a date in
-- milliseconds.
use cobdata_back.Base.{ℕ, ℤ, Bool, true, false, Option, List, ◌==◌}

abbrev pub Text : Type 0
Text = ℕ

abbrev pub Date : Type 0
Date = ℕ

-- The enum PaymentStatus of a contract.
pub data PaymentStatus : Type 0 where
  open_debt in_agreement installment agreement_breached paid_off : PaymentStatus

pub data ContractStatus : Type 0 where
  active suspended cancelled : ContractStatus

pub data SerasaStatus : Type 0 where
  not_enabled pending sent registered updated failed removing removed : SerasaStatus

pub data CancellationReason : Type 0 where
  creditor_request contestation procon reclame_aqui email_request : CancellationReason

-- `===` on each enum, by the position of its member.
abbrev pub contract_status_index : ContractStatus → ℕ
contract_status_index ContractStatus.active = 0
contract_status_index ContractStatus.suspended = 1
contract_status_index ContractStatus.cancelled = 2

abbrev pub payment_status_index : PaymentStatus → ℕ
payment_status_index PaymentStatus.open_debt = 0
payment_status_index PaymentStatus.in_agreement = 1
payment_status_index PaymentStatus.installment = 2
payment_status_index PaymentStatus.agreement_breached = 3
payment_status_index PaymentStatus.paid_off = 4

abbrev pub serasa_index : SerasaStatus → ℕ
serasa_index SerasaStatus.not_enabled = 0
serasa_index SerasaStatus.pending = 1
serasa_index SerasaStatus.sent = 2
serasa_index SerasaStatus.registered = 3
serasa_index SerasaStatus.updated = 4
serasa_index SerasaStatus.failed = 5
serasa_index SerasaStatus.removing = 6
serasa_index SerasaStatus.removed = 7

abbrev pub same_contract_status : ContractStatus → ContractStatus → Bool
same_contract_status a b = contract_status_index a == contract_status_index b

abbrev pub same_payment_status : PaymentStatus → PaymentStatus → Bool
same_payment_status a b = payment_status_index a == payment_status_index b

abbrev pub same_serasa : SerasaStatus → SerasaStatus → Bool
same_serasa a b = serasa_index a == serasa_index b

abbrev pub is_paid_off : PaymentStatus → Bool
is_paid_off PaymentStatus.paid_off = true
is_paid_off _ = false

-- model Wallet with its creditor, as the services include them in a contract.
pub record Wallet : Type 0 where
  pub id : Text
  pub creditor_id : Text
  pub creditor_name : Text
  pub creditor_trade_name : Option Text
  pub creditor_cnpj : Option Text
  pub serasa_wallet_external_id : Option Text
  pub cobcom_discount_percent : Option ℕ
  pub offer_first_installment_days : ℕ

-- One installment of an agreement, as a provider reports it: the column `agreementInstallments`.
pub record Installment : Type 0 where
  pub number : Option ℕ
  pub installment_number : Option ℕ
  pub value : Option ℕ
  pub amount : Option ℕ
  pub due_date : Option Date
  pub payment_limit_date : Option Date

-- model Contract, with its wallet.
pub record Contract : Type 0 where
  pub id : Text
  pub account_id : Text
  pub wallet : Wallet
  pub debtor_document : Text
  pub debtor_name : Text
  pub debt_type : Text
  pub occurrence_date : Date
  pub contract_number : Text
  pub debt_id : Option Text
  pub deleted : Bool
  pub status : ContractStatus
  pub payment_status : PaymentStatus
  pub serasa_status : SerasaStatus
  pub cancelled_at : Option Date
  pub cancellation_reason : Option CancellationReason
  pub original_value : ℕ
  pub updated_value : ℕ
  pub offer_value : Option ℕ
  pub offer_first_installment_days : Option ℕ
  pub offer_max_installments : Option ℕ
  pub due_date : Option Date
  pub agreement_reference : Option Text
  pub agreement_total_amount : Option ℕ
  pub agreement_created_at : Option Date
  pub agreement_installments : Option (List Installment)
  pub agreement_due_at : Option Date
  pub agreed_payment_amount : Option ℕ
  pub accepted_discount_percent : Option ℤ
  pub total_installments : Option ℕ
  pub paid_installments : ℕ
  pub total_paid_amount : ℕ
  pub last_payment_at : Option Date
