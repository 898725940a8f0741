-- ===== src/Payments/Store.antt =====
-- The tables that the payment services share, and the queries on them that several services make.
-- The unique keys are those of prisma/schema.prisma. A connection that fails is left out.
use cobdata_back.Base.{
  ℕ, Bool, true, false, ◌&&◌, Option, List, [], ◌∷◌, ◌++◌, ◌==◌, if◌then◌else◌, is, any,
  update_where, sum_where, max_where,
}
use cobdata_back.Payments.Model.{
  Text, Date, PaymentGateway, PaymentCharge, PaymentEvent, PaymentEventSource, PaymentChargeStatus,
  PaymentSettlement, PaymentSettlementSource, ContractInteraction, InteractionReference, Contract,
  AuditEntry, same_source, same_reference, is_confirmed,
}

pub record Store : Type 0 where
  pub charges : List PaymentCharge
  pub events : List PaymentEvent
  pub settlements : List PaymentSettlement
  pub interactions : List ContractInteraction
  pub contracts : List Contract
  pub gateways : List PaymentGateway
  pub audits : List AuditEntry

abbrev pub charge_has_id : Text → PaymentCharge → Bool
charge_has_id k c = c.id == k

abbrev pub contract_has_id : Text → Contract → Bool
contract_has_id k c = c.id == k

abbrev pub gateway_has_id : Text → PaymentGateway → Bool
gateway_has_id k g = g.id == k

-- The unique key of a settlement.
abbrev pub settles : PaymentSettlementSource → Text → PaymentSettlement → Bool
settles source key t = same_source t.source source && t.external_payment_id == key

abbrev pub settles_charge : Text → PaymentSettlement → Bool
settles_charge charge_id t = is t.payment_charge_id charge_id

abbrev pub confirmed_for : Text → PaymentSettlement → Bool
confirmed_for contract_id t = t.contract_id == contract_id && is_confirmed t.status

abbrev pub interaction_of : Text → InteractionReference → ContractInteraction → Bool
interaction_of contract_id ref x = x.contract_id == contract_id && same_reference x.external_id ref

abbrev pub settlement_amount : PaymentSettlement → ℕ
settlement_amount t = t.amount

abbrev pub settlement_date : PaymentSettlement → Date
settlement_date t = t.paid_at

-- The sum of the confirmed settlements of a contract, and the date of the last one.
abbrev pub confirmed_total : Text → Store → ℕ
confirmed_total contract_id s =
    sum_where (confirmed_for contract_id) settlement_amount s.settlements

abbrev pub last_confirmed : Text → Store → Option Date
last_confirmed contract_id s = max_where (confirmed_for contract_id) settlement_date s.settlements

-- `prisma.paymentSettlement.create`: the key is unique, and a second row with it is refused
-- (P2002, the `false`).
abbrev pub insert_settlement : PaymentSettlement → Store → Bool × Store
insert_settlement t s =
    if any (settles t.source t.external_payment_id) s.settlements
    then (false, s)
    else (true, record s { settlements = s.settlements ++ t ∷ [] })

abbrev pub add_event :
    Text → Option PaymentChargeStatus → PaymentChargeStatus → PaymentEventSource → Store → Store
add_event charge_id before after source s = record s {
  events =
      s.events
      ++ record {
        payment_charge_id = charge_id;
        from_status = before;
        to_status = after;
        source = source;
      }
        ∷ [];
}

abbrev pub add_interaction : ContractInteraction → Store → Store
add_interaction x s = record s { interactions = s.interactions ++ x ∷ [] }

abbrev pub add_audit : AuditEntry → Store → Store
add_audit a s = record s { audits = s.audits ++ a ∷ [] }

abbrev pub update_contract : Text → (Contract → Contract) → Store → Store
update_contract k f s = record s { contracts = update_where (contract_has_id k) f s.contracts }
