-- ===== src/Payments/Settlement/Tests.antt =====
-- Runs of the settlement processor on one event.
use cobdata_back.Base.{◌≡◌, ◌<◌, ◌+◌, ◌++◌, refl, arith, some, none, [], ◌∷◌, find, returns, max}
use cobdata_back.Payments.Model.{PaymentSettlement, PaymentSettlementStatus}
use cobdata_back.Payments.Store.{Store, contract_has_id, confirmed_total}
use cobdata_back.Payments.Fixtures.{contract, store}
use cobdata_back.Payments.Settlement.{
  Provider, PaymentSettlementEvent, map_provider_to_source, settlement_of, reversed_total,
  net_total, process_event, process_reversal,
}
use cobdata_back.Payments.Settlement.Replay.{process_event_twice}
use cobdata_back.Payments.Settlement.Projection.{alone, projected, process_event-projects}
use cobdata_back.Payments.Settlement.Reversal.{
  netted, process_reversal-projects, process_event-exceeds_net, process_reversal-by_id,
}

abbrev event : PaymentSettlementEvent
event = record {
  provider = Provider.serasa_lnop;
  external_event_id = 81;
  external_transaction_id = none;
  contract_reference = 73;
  agreement_reference = none;
  installment_number = some 1;
  amount = 400;
  paid_at = 20;
  provider_payload = none;
}

-- The same payment, by the contract's id.
abbrev by_id : PaymentSettlementEvent
by_id = record event { contract_reference = 3 }

abbrev confirmed : PaymentSettlement
confirmed = settlement_of 7 event PaymentSettlementStatus.confirmed contract

-- 300 of an earlier payment were reversed.
abbrev reversed_store : Store
reversed_store = record store {
  settlements =
      record confirmed {
        status = PaymentSettlementStatus.reversed;
        external_payment_id = 80;
        amount = 300;
      }
      ∷ [];
}

-- Another delivery comes first.
abbrev other_delivery : Store → Store
other_delivery s = record s { settlements = confirmed ∷ [] }

pays :
    (process_event alone event 7 store).1.contracts
    ≡ record contract { total_paid_amount = 400; last_payment_at = some 20 } ∷ []
unfolding process_event map_provider_to_source
pays = refl

process_event_twice_example :
    process_event alone event 7 (process_event alone event 7 store).1
    ≡ (returns tt, (process_event alone event 7 store).1)
process_event_twice_example = process_event_twice event 7 store

process_event-projects_example :
    let after = (process_event alone event 7 store).1 in
    (after.settlements ≡ [] ++ confirmed ∷ [])
    × (confirmed_total 3 after ≡ 0 + 400)
    × (find (contract_has_id 3) after.contracts ≡ some (projected after contract))
unfolding map_provider_to_source
process_event-projects_example = process_event-projects event 7 store contract refl refl refl

process_reversal-projects_example :
    let after = (process_reversal alone event 7 store).1 in
    (after.settlements ≡ [] ++ settlement_of 7 event PaymentSettlementStatus.reversed contract ∷ [])
    × (confirmed_total 3 after ≡ 0)
    × (reversed_total 3 after ≡ 0 + 400)
    × (find (contract_has_id 3) after.contracts ≡ some (netted after contract))
    × (net_total 3 after + reversed_total 3 after
        ≡ max (confirmed_total 3 after) (reversed_total 3 after))
unfolding map_provider_to_source
process_reversal-projects_example = process_reversal-projects event 7 store contract refl refl refl

process_event-exceeds_net_example :
    let s' = (process_event alone event 7 reversed_store).1 in
    (find (contract_has_id 3) s'.contracts ≡ some (projected s' contract))
    × (net_total 3 s' < (projected s' contract).total_paid_amount)
unfolding map_provider_to_source
process_event-exceeds_net_example =
    process_event-exceeds_net event 7 reversed_store contract refl refl refl (omega arith)
      (omega arith)

process_reversal-by_id_example :
    (process_reversal alone by_id 7 store ≡ (returns tt, store))
    × ((process_event alone by_id 7 store).1.settlements
        ≡ [] ++ settlement_of 7 by_id PaymentSettlementStatus.confirmed contract ∷ [])
unfolding map_provider_to_source
process_reversal-by_id_example = process_reversal-by_id by_id 7 store contract refl refl refl refl
