-- ===== src/Payments/Settlement/Projection.antt =====
-- What `processEvent` leaves on the contract and in the table of settlements.
use cobdata_back.Base.{
  ◌+◌, ◌≡◌, refl, true, false, some, [], ◌∷◌, ◌++◌, arith, any, any-append, find, find-update_where,
  max_where-is_some, or_default, sum_where-append, update_where, ==_refl,
}
use cobdata_back.Payments.Model.{Text, Contract, PaymentSettlementStatus}
use cobdata_back.Payments.Store.{
  Store, settles, confirmed_for, settlement_amount, settlement_date, confirmed_total,
  last_confirmed, contract_has_id,
}
use cobdata_back.Payments.Settlement.{
  PaymentSettlementEvent, map_provider_to_source, is_event_contract, settlement_of, process_event,
}

abbrev pub alone : Store → Store
alone s = s

-- The contract with the projections that the settlements of `s` call for.
abbrev pub projected : Store → Contract → Contract
projected s c = record c {
  total_paid_amount = confirmed_total c.id s;
  last_payment_at = last_confirmed c.id s;
}

module _ (event : PaymentSettlementEvent) (account_id : Text) (s : Store) (contract : Contract)
    (is_new : any
        (settles (map_provider_to_source event.provider) event.external_event_id)
        s.settlements
      ≡ false)
    (resolved : find (is_event_contract account_id event) s.contracts ≡ some contract)
    (by_id : find (contract_has_id contract.id) s.contracts ≡ some contract) where
  abbrev after : Store
  after = (process_event alone event account_id s).1

  process_event-settlements :
      after.settlements
      ≡ s.settlements
        ++ settlement_of account_id event PaymentSettlementStatus.confirmed contract ∷ []
  unfolding process_event
  process_event-settlements = grind arith

  process_event-contracts :
      after.contracts
      ≡ update_where
          (contract_has_id contract.id)
          (λ c. record c {
            total_paid_amount = confirmed_total contract.id after;
            last_payment_at = some (or_default (last_confirmed contract.id after) event.paid_at);
          })
          s.contracts
  unfolding process_event
  process_event-contracts = ground arith

  is_confirmed_after : any (confirmed_for contract.id) after.settlements ≡ true
  is_confirmed_after = rw process_event-settlements (
      ground (
        arith,
        any-append (confirmed_for contract.id) s.settlements
            (settlement_of account_id event PaymentSettlementStatus.confirmed contract ∷ []),
      ))

  -- An event with a new key, whose contract is found, is appended to the settlements as confirmed
  -- and raises the contract's confirmed sum by its amount; afterwards the contract carries that
  -- sum and the date of the last confirmed payment, its other fields as before.
  pub process_event-projects :
      (after.settlements
        ≡ s.settlements
          ++ settlement_of account_id event PaymentSettlementStatus.confirmed contract ∷ [])
      × (confirmed_total contract.id after ≡ confirmed_total contract.id s + event.amount)
      × (find (contract_has_id contract.id) after.contracts ≡ some (projected after contract))
  process_event-projects = (
    process_event-settlements,
    rw process_event-settlements (
        ground (
          arith,
          sum_where-append (confirmed_for contract.id) settlement_amount s.settlements
              (settlement_of account_id event PaymentSettlementStatus.confirmed contract ∷ []),
        )),
    rw
        (
          process_event-contracts,
          find-update_where (contract_has_id contract.id) (contract_has_id contract.id)
              (λ c. record c {
                total_paid_amount = confirmed_total contract.id after;
                last_payment_at =
                    some (or_default (last_confirmed contract.id after) event.paid_at);
              })
              (λ c. refl) s.contracts,
          by_id,
          ==_refl contract.id,
        )
        (ground (
          arith,
          max_where-is_some (confirmed_for contract.id) settlement_date after.settlements
              is_confirmed_after,
        )),
  )
