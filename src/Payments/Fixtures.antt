-- ===== src/Payments/Fixtures.antt =====
-- Rows for the tests of the payment services: one contract, one gateway, and a Pix issued for it.
use cobdata_back.Base.{pos, true, false, none, some, List, [], ◌∷◌, Outcome, returns}
use cobdata_back.Payments.Model.{
  Text, PaymentGateway, PaymentGatewayEnvironment, PaymentMethod, PaymentCharge,
  PaymentChargeStatus, PaymentChargeChannel, PaymentProviderType, PaymentStatus, ContractStatus,
  SerasaStatus, Contract, Wallet, Artefacts,
}
use cobdata_back.Payments.Store.{Store}
use cobdata_back.Payments.Factory.{Adapter, IssuedPaymentCharge, PaymentChargeUpdate, ServiceError}

abbrev pub gateway : PaymentGateway
gateway = record {
  id = 1;
  account_id = 7;
  provider_type = PaymentProviderType.banco_do_brasil;
  environment = PaymentGatewayEnvironment.sandbox;
  enabled = true;
  supported_methods = PaymentMethod.boleto ∷ PaymentMethod.pix ∷ [];
  credentials = 9;
}

abbrev pub artefacts : Artefacts
artefacts = record {
  our_number = none;
  digitable_line = none;
  barcode = none;
  pix_copy_paste = some 31;
  qr_code_url = some 32;
  document_url = none;
}

abbrev pub issued : IssuedPaymentCharge
issued = record {
  external_id = some 41;
  external_status = none;
  txid = some 42;
  artefacts = artefacts;
  issued_at = none;
  expires_at = none;
  provider_payload = none;
}

abbrev pub says_paid : PaymentChargeUpdate
says_paid = record {
  status = PaymentChargeStatus.paid;
  external_status = some 51;
  paid_at = some 35;
  failure_code = none;
  failure_message = none;
  provider_payload = none;
}

abbrev pub fetch : PaymentCharge → Text → Outcome ServiceError PaymentChargeUpdate
fetch charge config = returns says_paid

abbrev pub adapter : Adapter
adapter = record {
  provider_type = PaymentProviderType.banco_do_brasil;
  capabilities = record { method = PaymentMethod.pix; supported = true } ∷ [];
  issue = λ input config. returns issued;
  fetch_status = some fetch;
}

abbrev pub adapters : List Adapter
adapters = adapter ∷ []

abbrev pub decrypt : PaymentGateway → Outcome ServiceError Text
decrypt g = returns g.credentials

abbrev pub wallet : Wallet
wallet = record {
  id = 2;
  creditor_id = 4;
  creditor_name = 61;
  creditor_trade_name = none;
  creditor_cnpj = none;
  serasa_wallet_external_id = none;
  cobcom_discount_percent = some 1000;
  offer_first_installment_days = 5;
}

abbrev pub contract : Contract
contract = record {
  id = 3;
  account_id = 7;
  wallet = wallet;
  debtor_document = 71;
  debtor_name = 72;
  debt_type = 75;
  occurrence_date = 5;
  contract_number = 73;
  debt_id = some 74;
  deleted = false;
  status = ContractStatus.active;
  payment_status = PaymentStatus.open_debt;
  serasa_status = SerasaStatus.not_enabled;
  cancelled_at = none;
  cancellation_reason = none;
  original_value = 8000;
  updated_value = 10000;
  offer_value = none;
  offer_first_installment_days = none;
  offer_max_installments = none;
  due_date = none;
  agreement_reference = none;
  agreement_total_amount = none;
  agreement_created_at = none;
  agreement_installments = none;
  agreement_due_at = none;
  agreed_payment_amount = none;
  accepted_discount_percent = none;
  total_installments = none;
  paid_installments = 0;
  total_paid_amount = 0;
  last_payment_at = none;
}

abbrev pub charge : PaymentCharge
charge = record {
  id = 5;
  account_id = 7;
  contract_id = 3;
  payment_gateway_id = 1;
  method = PaymentMethod.pix;
  status = PaymentChargeStatus.issued;
  amount = 9000;
  base_amount = some 10000;
  discount_percent = pos 1000;
  due_date = 50;
  idempotency_key = 11;
  external_id = none;
  external_status = none;
  txid = some 21;
  artefacts = artefacts;
  provider_payload = none;
  failure_code = none;
  failure_message = none;
  issued_at = some 10;
  paid_at = none;
  expires_at = some 40;
  attributed_channel = some PaymentChargeChannel.cobcom;
  version = 0;
  created_at = 10;
}

-- The same charge after another process has changed it.
abbrev pub changed : PaymentCharge
changed = record charge { version = 1; external_status = some 52 }

abbrev pub empty_store : Store
empty_store = record {
  charges = [];
  events = [];
  settlements = [];
  interactions = [];
  contracts = contract ∷ [];
  gateways = gateway ∷ [];
  audits = [];
}

abbrev pub store : Store
store = record empty_store { charges = charge ∷ [] }
