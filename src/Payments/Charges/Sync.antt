-- ===== src/Payments/Charges/Sync.antt =====
-- src/payments/payment-charges.service.ts: `listCharges` and `syncCharge`.
use cobdata_back.Base.{
  Bool, true, not, ◌&&◌, Option, none, some, List, [], ◌∷◌, ltb, ◌==◌, if◌then◌else◌, or_default,
  or_else, find, any, keep, update_where, Method, return, throw_if, gets, modify, lift, or_throw,
  ◌>>=◌, ◌>>◌,
}
use cobdata_back.Payments.Model.{
  Text, Date, PaymentCharge, PaymentChargeStatus, PaymentEventSource, PaymentSettlementSource,
  PaymentSettlementStatus, Contract, pix_paid, payment_charge_synced, same_status,
}
use cobdata_back.Payments.Store.{
  Store, charge_has_id, contract_has_id, gateway_has_id, settles_charge, interaction_of,
  insert_settlement, add_event, add_interaction,
}
use cobdata_back.Payments.Factory.{
  ServiceError, PaymentChargeUpdate, not_found, unprocessable, record_not_found, get,
}
use cobdata_back.Payments.Charges.{Service, Call}
use cobdata_back.Payments.Charges.Issue.{audit}
use cobdata_back.Payments.Charges.Inputs.{is_contract_of}

abbrev pub is_charge_of : Text → Text → PaymentCharge → Bool
is_charge_of charge_id account_id c = c.id == charge_id && c.account_id == account_id

-- `orderBy: { createdAt: 'desc' }`
abbrev pub insert_newest : PaymentCharge → List PaymentCharge → List PaymentCharge
insert_newest c [] = c ∷ []
insert_newest c (d ∷ ds) =
    if ltb c.created_at d.created_at then d ∷ insert_newest c ds else c ∷ d ∷ ds

abbrev pub newest_first : List PaymentCharge → List PaymentCharge
newest_first [] = []
newest_first (c ∷ cs) = insert_newest c (newest_first cs)

abbrev pub is_in_scopes : Option (List Text) → Contract → Bool
is_in_scopes none c = true
is_in_scopes (some scopes) c = any (λ w. w == c.wallet.id) scopes

unfoldable pub list_charges :
    Text → Text → Option (List Text) → Method Store ServiceError (List PaymentCharge)
list_charges contract_id account_id scopes = do
  found ← gets λ s. find (is_contract_of contract_id account_id) s.contracts
  contract ← or_throw found not_found
  throw_if (not (is_in_scopes scopes contract)) not_found
  gets λ s.
      newest_first
        (keep (λ c. c.contract_id == contract_id && c.account_id == account_id) s.charges)

unfoldable pub record_synced_payment : PaymentCharge → Date → Store → Store
record_synced_payment charge paid_at s =
    if any (interaction_of charge.contract_id (pix_paid charge.id)) s.interactions
    then s
    else elim (find (contract_has_id charge.contract_id) s.contracts) [
      | none ↦ s
      | some contract ↦
          add_interaction
            (record {
              account_id = contract.account_id;
              wallet_id = contract.wallet.id;
              contract_id = charge.contract_id;
              external_id = pix_paid charge.id;
              amount = charge.amount;
              payment_charge_id = charge.id;
              txid = charge.txid;
              source = some PaymentEventSource.sync;
              occurred_at = paid_at;
            })
            s
    ]

-- A refusal by the database is caught.
unfoldable pub settle : PaymentCharge → Date → Text → Store → Store
settle charge paid_at account_id s =
    if any (settles_charge charge.id) s.settlements
    then s
    else (insert_settlement
        (record {
          account_id = account_id;
          contract_id = charge.contract_id;
          payment_charge_id = some charge.id;
          agreement_reference = none;
          installment_number = none;
          source = PaymentSettlementSource.pix;
          status = PaymentSettlementStatus.confirmed;
          amount = charge.amount;
          paid_at = paid_at;
          external_payment_id = or_default charge.external_id (or_default charge.txid charge.id);
          channel_event_id = none;
          debt_reference = none;
          provider_payload = none;
        })
        s).1

-- What the provider says, over the row as it was read: the version stays.
abbrev pub synced_row : PaymentCharge → PaymentChargeUpdate → PaymentCharge → PaymentCharge
synced_row charge update c = record c {
  status = update.status;
  external_status = or_else update.external_status charge.external_status;
  paid_at = or_else update.paid_at charge.paid_at;
  failure_code = or_else update.failure_code charge.failure_code;
  failure_message = or_else update.failure_message charge.failure_message;
  provider_payload = or_else update.provider_payload charge.provider_payload;
}

abbrev pub becomes_paid : PaymentCharge → PaymentChargeUpdate → Bool
becomes_paid charge update =
    same_status update.status PaymentChargeStatus.paid
    && not (same_status charge.status PaymentChargeStatus.paid)

module _ (service : Service) (call : Call) where
  -- From the update of the row on.
  unfoldable pub apply_sync : PaymentCharge → PaymentChargeUpdate → Store → Store
  apply_sync charge update s =
      let updated = record s {
        charges = update_where (charge_has_id charge.id) (synced_row charge update) s.charges;
      } in
      let logged =
        if same_status charge.status update.status
        then updated
        else add_event charge.id (some charge.status) update.status PaymentEventSource.sync
            updated in
      let paid_at = or_default update.paid_at call.now in
      let settled =
        if becomes_paid charge update
        then record_synced_payment charge paid_at (settle charge paid_at call.account_id logged)
        else logged in
      audit service call payment_charge_synced charge settled

  -- `meanwhile` is what others write while the provider is asked.
  unfoldable pub sync_charge : (Store → Store) → Text → Method Store ServiceError PaymentCharge
  unfolding get apply_sync
  sync_charge meanwhile charge_id = do
    found ← gets λ s. find (is_charge_of charge_id call.account_id) s.charges
    charge ← or_throw found not_found
    found_gateway ← gets λ s. find (gateway_has_id charge.payment_gateway_id) s.gateways
    gateway ← or_throw found_gateway not_found
    adapter ← lift (get service.adapters gateway.provider_type)
    fetch_status ← or_throw adapter.fetch_status unprocessable
    config ← lift (service.decrypt gateway)
    update ← lift (fetch_status charge config)
    modify meanwhile
    row ← gets λ s. find (charge_has_id charge_id) s.charges
    current ← or_throw row record_not_found
    modify (apply_sync charge update)
    return (synced_row charge update current)
