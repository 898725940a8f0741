-- ===== src/Payments/Settlement.antt =====
-- src/payments/settlement/settlement-processor.service.ts: the immutable settlements, and the
-- projection of their sum on the contract.
pub mod Projection
pub mod Replay
pub mod Reversal
mod Tests
use cobdata_back.Base.{
  ℕ, ◌-◌, ◌≤◌, Bool, true, false, not, ◌&&◌, ◌||◌, Option, none, some, List, ltb, ◌==◌,
  if◌then◌else◌, or_default, is, find, any, sum_where, Outcome, returns, throws, Method,
}
use cobdata_back.Payments.Model.{
  Text, Date, PaymentSettlement, PaymentSettlementSource, PaymentSettlementStatus, Contract,
  is_confirmed,
}
use cobdata_back.Payments.Store.{
  Store, settles, settlement_amount, confirmed_total, last_confirmed, insert_settlement,
  update_contract,
}
use cobdata_back.Payments.Factory.{ServiceError, unique_violation}

-- The texts that `provider` takes in interface PaymentSettlementEvent.
pub data Provider : Type 0 where
  banco_do_brasil serasa_lnop : Provider
  another : Text → Provider

unfoldable pub map_provider_to_source : Provider → PaymentSettlementSource
map_provider_to_source Provider.banco_do_brasil = PaymentSettlementSource.pix
map_provider_to_source Provider.serasa_lnop = PaymentSettlementSource.serasa
map_provider_to_source (Provider.another name) = PaymentSettlementSource.manual

-- interface PaymentSettlementEvent, less `eventType` and `status`, which the processor ignores.
pub record PaymentSettlementEvent : Type 0 where
  pub provider : Provider
  pub external_event_id : Text
  pub external_transaction_id : Option Text
  pub contract_reference : Text
  pub agreement_reference : Option Text
  pub installment_number : Option ℕ
  pub amount : ℕ
  pub paid_at : Date
  pub provider_payload : Option Text

-- The `where` of the two contract queries: a reversal does not look at the contract's id.
abbrev pub is_event_contract : Text → PaymentSettlementEvent → Contract → Bool
is_event_contract account_id event c =
    c.account_id == account_id
    && (c.id == event.contract_reference
        || (c.contract_number == event.contract_reference || is c.debt_id event.contract_reference))

abbrev pub is_reversal_contract : Text → PaymentSettlementEvent → Contract → Bool
is_reversal_contract account_id event c =
    c.account_id == account_id
    && (c.contract_number == event.contract_reference || is c.debt_id event.contract_reference)

abbrev pub settlement_of :
    Text → PaymentSettlementEvent → PaymentSettlementStatus → Contract → PaymentSettlement
settlement_of account_id event status contract = record {
  account_id = account_id;
  contract_id = contract.id;
  payment_charge_id = none;
  agreement_reference = event.agreement_reference;
  installment_number = event.installment_number;
  source = map_provider_to_source event.provider;
  status = status;
  amount = event.amount;
  paid_at = event.paid_at;
  external_payment_id = event.external_event_id;
  channel_event_id = event.external_transaction_id;
  debt_reference = some event.contract_reference;
  provider_payload = event.provider_payload;
}

abbrev pub reversed_for : Text → PaymentSettlement → Bool
reversed_for contract_id t = t.contract_id == contract_id && not (is_confirmed t.status)

abbrev pub reversed_total : Text → Store → ℕ
reversed_total contract_id s = sum_where (reversed_for contract_id) settlement_amount s.settlements

-- What the two aggregates of an event write to the contract.
abbrev pub project_event : PaymentSettlementEvent → Contract → Store → Store
project_event event contract s =
    update_contract contract.id
      (λ c. record c {
        total_paid_amount = confirmed_total contract.id s;
        last_payment_at = some (or_default (last_confirmed contract.id s) event.paid_at);
      })
      s

-- `netTotal.isNegative() ? 0 : netTotal`
abbrev pub net_total : Text → Store → ℕ
net_total contract_id s =
    if ltb (confirmed_total contract_id s) (reversed_total contract_id s)
    then 0
    else confirmed_total contract_id s - reversed_total contract_id s

abbrev pub project_reversal : Contract → Store → Store
project_reversal contract s =
    update_contract contract.id
      (λ c. record c {
        total_paid_amount = net_total contract.id s;
        last_payment_at = last_confirmed contract.id s;
      })
      s

-- A transaction that inserts and projects, or does neither.
abbrev pub transact : PaymentSettlement → (Store → Store) → Method Store ServiceError (Unit {0})
transact t project s =
    let (created, s') = insert_settlement t s in
    if created then (returns tt, project s') else (throws unique_violation, s)

-- `meanwhile` is what others write between the queries of a call and its transaction.
module _ (meanwhile : Store → Store) (event : PaymentSettlementEvent) (account_id : Text) where
  unfoldable pub process_event : Method Store ServiceError (Unit {0})
  process_event s =
      if any (settles (map_provider_to_source event.provider) event.external_event_id) s.settlements
      then (returns tt, s)
      else elim (find (is_event_contract account_id event) s.contracts) [
        | none ↦ (returns tt, s)
        | some contract ↦
            transact (settlement_of account_id event PaymentSettlementStatus.confirmed contract)
              (project_event event contract) (meanwhile s)
      ]

  unfoldable pub process_reversal : Method Store ServiceError (Unit {0})
  process_reversal s =
      if any (settles (map_provider_to_source event.provider) event.external_event_id) s.settlements
      then (returns tt, s)
      else elim (find (is_reversal_contract account_id event) s.contracts) [
        | none ↦ (returns tt, s)
        | some contract ↦
            transact (settlement_of account_id event PaymentSettlementStatus.reversed contract)
              (project_reversal contract) (meanwhile s)
      ]
