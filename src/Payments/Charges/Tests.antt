-- ===== src/Payments/Charges/Tests.antt =====
-- Runs of the charge service on one contract.
use cobdata_back.Base.{
  arith, ◌≡◌, refl, true, false, some, none, [], ◌∷◌, find, any, returns, throws,
}
use cobdata_back.Payments.Model.{
  PaymentStatus, PaymentEventSource, PaymentCharge, PaymentChargeStatus, PaymentGatewayEnvironment,
  PaymentMethod,
}
use cobdata_back.Payments.Store.{Store, charge_has_id, settles_charge}
use cobdata_back.Payments.Factory.{unique_violation, timeout, get_and_validate_method, get}
use cobdata_back.Payments.Fixtures.{
  contract, charge, store, empty_store, adapter, adapters, decrypt, issued, says_paid,
}
use cobdata_back.Payments.Lifecycle.{transition_to_expired}
use cobdata_back.Payments.Lifecycle.Cycle.{no_result}
use cobdata_back.Payments.Charges.{
  Service, Call, resolve_pix_pricing, is_valid_pix, resolve_pix_gateway, find_existing_valid_pix,
}
use cobdata_back.Payments.Charges.Issue.{
  insert_charge, handle_adapter_error, persist_issued, issue_charge,
}
use cobdata_back.Payments.Charges.Inputs.{
  GeneratePixByDocumentDto, CreatePaymentChargeDto, PixOptions, pix_artefacts,
}
use cobdata_back.Payments.Charges.Create.{
  create_pix_by_document, create_charge, create_pix_for_contract, issue_pix,
}
use cobdata_back.Payments.Charges.Sync.{apply_sync, synced_row}
use cobdata_back.Payments.Charges.Steps.{alone}
use cobdata_back.Payments.Charges.Pricing.{create_pix_for_contract-reuses}
use cobdata_back.Payments.Charges.Agreement.{create_pix_for_contract-keeps_deadline}
use cobdata_back.Payments.Charges.Idempotency.{Repeats, create_charge-Repeats}
use cobdata_back.Payments.Charges.KeyTaken.{create_pix_by_document-key_taken}
use cobdata_back.Payments.Charges.Stale.{sync_then_expired}
use cobdata_back.Payments.Fixtures.{gateway}

abbrev service : Service
service = record {
  adapters = adapters;
  decrypt = decrypt;
  environment = PaymentGatewayEnvironment.sandbox;
  pix_expiration_hours = none;
  message_of = λ e. 60;
  timeout_message = 61;
  rate_limited_code = 62;
  rate_limited_message = 63;
  unknown_error = 64;
  provider_not_processed = 65;
}

-- A provider that does not answer in time.
abbrev slow_service : Service
slow_service = record service {
  adapters = record adapter { issue = λ input config. throws timeout } ∷ [];
}

abbrev call : Call
call = record {
  account_id = 7;
  user_id = some 8;
  request_id = 9;
  now = 20;
  charge_id = 6;
  txid = 22;
  idempotency_key = 12;
}

abbrev later : Call
later = record call { now = 30; charge_id = 16; txid = 23; idempotency_key = 13 }

abbrev dto : CreatePaymentChargeDto
dto = record {
  payment_gateway_id = 1;
  method = PaymentMethod.pix;
  amount = some 9000;
  due_date = some 50;
  idempotency_key = 14;
}

abbrev options : PixOptions
options = record { agreement_amount_only = false; creditor_id = none }

-- The row of the Pix that the first request issues.
abbrev issued_charge : PaymentCharge
issued_charge = record charge {
  id = 6;
  external_id = some 41;
  txid = some 42;
  due_date = 20;
  idempotency_key = 12;
  issued_at = some 20;
  expires_at = some 86400020;
  created_at = 20;
  artefacts = pix_artefacts issued.artefacts;
}

issues :
    (create_pix_for_contract service call alone 3 options empty_store).0 ≡ returns issued_charge
unfolding create_pix_for_contract issue_pix issue_charge persist_issued insert_charge
    resolve_pix_pricing resolve_pix_gateway find_existing_valid_pix get_and_validate_method get
issues = refl

-- The contract after it.
abbrev in_agreement : Store
in_agreement = record empty_store {
  contracts =
      record contract {
        payment_status = PaymentStatus.in_agreement;
        agreement_due_at = some 432000020;
      }
      ∷ [];
}

-- A timeout leaves a charge PENDING.
leaves_pending :
    (create_charge slow_service call alone 3 dto empty_store).1.events
    ≡ record {
      payment_charge_id = 6;
      from_status = none;
      to_status = PaymentChargeStatus.pending;
      source = PaymentEventSource.manual;
    }
      ∷ []
unfolding create_charge issue_charge handle_adapter_error insert_charge get_and_validate_method get
leaves_pending = refl

create_pix_for_contract-reuses_example :
    let (r, s') = create_pix_for_contract service call alone 3 options store in
    ((c : PaymentCharge) × (r ≡ returns c)
      × (is_valid_pix 20 3 1 (resolve_pix_pricing contract).amount c ≡ true))
    × (s'.charges ≡ charge ∷ [])
    × (s'.settlements ≡ [])
    × (s'.events ≡ [])
    × (s'.audits ≡ [])
unfolding resolve_pix_pricing
create_pix_for_contract-reuses_example =
    create_pix_for_contract-reuses service call alone 3 none contract gateway store refl refl refl
      refl refl refl

create_pix_for_contract-keeps_deadline_example :
    let s' = (create_pix_for_contract service call alone 3 options empty_store).1 in
    (create_pix_for_contract service later alone 3 options s').1.contracts ≡ s'.contracts
create_pix_for_contract-keeps_deadline_example =
    create_pix_for_contract-keeps_deadline service call later 3 options options refl refl
      issued_charge empty_store issues

create_charge-Repeats_example :
    Repeats slow_service later 3 dto empty_store
      (create_charge slow_service call alone 3 dto empty_store)
create_charge-Repeats_example =
    create_charge-Repeats slow_service later 3 dto call refl (λ g code charge_id e. ground arith)
      empty_store

sync_then_expired_example :
    let synced = apply_sync service call charge says_paid store in
    let expired =
      (transition_to_expired charge (record { store = synced; result = no_result })).store in
    (find (charge_has_id 5) synced.charges ≡ some (synced_row charge says_paid charge))
    × (find (charge_has_id 5) expired.charges
        ≡ some (record (synced_row charge says_paid charge) {
          status = PaymentChargeStatus.expired;
          version = 1;
        }))
    × (any (settles_charge 5) expired.settlements ≡ true)
sync_then_expired_example =
    sync_then_expired service call charge says_paid store refl refl refl no_result

-- A charge of another contract has the key 14 on the gateway.
abbrev taken_store : Store
taken_store = record store {
  charges = record charge { contract_id = 99; idempotency_key = 14 } ∷ [];
}

abbrev by_document : GeneratePixByDocumentDto
by_document = record {
  debtor_document = 53 ∷ 50 ∷ 57 ∷ 57 ∷ 56 ∷ 50 ∷ 50 ∷ 52 ∷ 55 ∷ 50 ∷ 53 ∷ [];
  contract_number = 73;
  idempotency_key = 14;
}

create_pix_by_document-key_taken_example :
    create_pix_by_document service call alone (λ cs. 71) by_document none taken_store
    ≡ (throws unique_violation, taken_store)
unfolding get_and_validate_method get resolve_pix_pricing
create_pix_by_document-key_taken_example =
    create_pix_by_document-key_taken service call contract gateway adapter 9 taken_store refl refl
      refl (λ cs. 71) by_document none refl refl refl refl refl refl
