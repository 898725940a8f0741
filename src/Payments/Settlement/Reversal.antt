-- ===== src/Payments/Settlement/Reversal.antt =====
-- What `processReversal` leaves behind, and where it and `processEvent` do not agree.
use cobdata_back.Base.{
  Bool, List, ◌||◌, ◌==◌, is, ◌+◌, ◌≡◌, ◌<◌, refl, false, none, some, [], ◌∷◌, ◌++◌, arith, max,
  any, find, find-update_where, ==_refl, sum_where-append, update_where, returns,
}
use cobdata_back.Payments.Model.{Text, Contract, PaymentSettlementStatus}
use cobdata_back.Payments.Store.{
  Store, settles, confirmed_for, settlement_amount, confirmed_total, last_confirmed,
  contract_has_id,
}
use cobdata_back.Payments.Settlement.{
  PaymentSettlementEvent, map_provider_to_source, is_event_contract, is_reversal_contract,
  settlement_of, reversed_for, reversed_total, net_total, process_event, process_reversal,
}
use cobdata_back.Payments.Settlement.Projection.{alone, projected, process_event-projects}

-- The contract with what was confirmed less what was reversed, or 0, and the last payment's date.
abbrev pub netted : Store → Contract → Contract
netted s c = record c {
  total_paid_amount = net_total c.id s;
  last_payment_at = last_confirmed c.id s;
}

-- The reference is the contract's number or its debt id at Serasa.
abbrev pub has_number_or_debt : Text → Contract → Bool
has_number_or_debt reference c = c.contract_number == reference || is c.debt_id reference

unnamed-reversal :
    (event : PaymentSettlementEvent) (account_id : Text) (cs : List Contract)
    → any (has_number_or_debt event.contract_reference) cs ≡ false
    → find (is_reversal_contract account_id event) cs ≡ none
unnamed-reversal event account_id [] h = refl
unnamed-reversal event account_id (c ∷ cs) h = ground (arith, unnamed-reversal event account_id cs)

module _ (event : PaymentSettlementEvent) (account_id : Text) (s : Store) (contract : Contract)
    (is_new : any
        (settles (map_provider_to_source event.provider) event.external_event_id)
        s.settlements
      ≡ false)
    (by_id : find (contract_has_id contract.id) s.contracts ≡ some contract) where
  module _
      (resolved : find (is_reversal_contract account_id event) s.contracts ≡ some contract) where
    abbrev after : Store
    after = (process_reversal alone event account_id s).1

    process_reversal-settlements :
        after.settlements
        ≡ s.settlements
          ++ settlement_of account_id event PaymentSettlementStatus.reversed contract ∷ []
    unfolding process_reversal
    process_reversal-settlements = grind arith

    process_reversal-contracts :
        after.contracts
        ≡ update_where
            (contract_has_id contract.id)
            (λ c. record c {
              total_paid_amount = net_total contract.id after;
              last_payment_at = last_confirmed contract.id after;
            })
            s.contracts
    unfolding process_reversal
    process_reversal-contracts = ground arith

    -- A reversal with a new key, whose contract is found, is appended to the settlements, none of
    -- which is removed or changed; it leaves the confirmed sum alone and raises the reversed sum
    -- by its amount; afterwards the contract carries the difference of the two sums, or 0 where
    -- more was reversed than confirmed, and the last confirmed date.
    pub process_reversal-projects :
        (after.settlements
          ≡ s.settlements
            ++ settlement_of account_id event PaymentSettlementStatus.reversed contract ∷ [])
        × (confirmed_total contract.id after ≡ confirmed_total contract.id s)
        × (reversed_total contract.id after ≡ reversed_total contract.id s + event.amount)
        × (find (contract_has_id contract.id) after.contracts ≡ some (netted after contract))
        × (net_total contract.id after + reversed_total contract.id after
            ≡ max (confirmed_total contract.id after) (reversed_total contract.id after))
    process_reversal-projects = (
      process_reversal-settlements,
      rw process_reversal-settlements (
          ground (
            arith,
            sum_where-append (confirmed_for contract.id) settlement_amount s.settlements
                (settlement_of account_id event PaymentSettlementStatus.reversed contract ∷ []),
          )),
      rw process_reversal-settlements (
          ground (
            arith,
            sum_where-append (reversed_for contract.id) settlement_amount s.settlements
                (settlement_of account_id event PaymentSettlementStatus.reversed contract ∷ []),
          )),
      rw
          (
            process_reversal-contracts,
            find-update_where (contract_has_id contract.id) (contract_has_id contract.id)
                (λ c. record c {
                  total_paid_amount = net_total contract.id after;
                  last_payment_at = last_confirmed contract.id after;
                })
                (λ c. refl) s.contracts,
            by_id,
            ==_refl contract.id,
          )
          refl,
      ground arith,
    )

  process_event-reversed :
      find (is_event_contract account_id event) s.contracts ≡ some contract
      → reversed_total contract.id (process_event alone event account_id s).1
        ≡ reversed_total contract.id s
  process_event-reversed resolved =
      rw ((process_event-projects event account_id s contract is_new resolved by_id).0) (
        ground (
          arith,
          sum_where-append (reversed_for contract.id) settlement_amount s.settlements
              (settlement_of account_id event PaymentSettlementStatus.confirmed contract ∷ []),
        ))

  -- The event of a payment counts what was reversed before as paid again: where the contract has a
  -- reversed amount and the new payment is positive, the contract carries more than the net total
  -- of its settlements afterwards.
  pub process_event-exceeds_net :
      find (is_event_contract account_id event) s.contracts ≡ some contract
      → 0 < event.amount
      → 0 < reversed_total contract.id s
      → let s' = (process_event alone event account_id s).1 in
        (find (contract_has_id contract.id) s'.contracts ≡ some (projected s' contract))
        × (net_total contract.id s' < (projected s' contract).total_paid_amount)
  process_event-exceeds_net resolved positive reversed =
      let p = process_event-projects event account_id s contract is_new resolved by_id in
      (p.2, ground (arith, p.1, process_event-reversed resolved))

  -- Where a reference is the number or the debt id of no contract, but a contract is found by it, so
  -- that it is the id of the contract, the event of a payment with this reference adds a settlement,
  -- and the reversal of the payment changes nothing.
  pub process_reversal-by_id :
      find (is_event_contract account_id event) s.contracts ≡ some contract
      → any (has_number_or_debt event.contract_reference) s.contracts ≡ false
      → (process_reversal alone event account_id s ≡ (returns tt, s))
        × ((process_event alone event account_id s).1.settlements
            ≡ s.settlements
              ++ settlement_of account_id event PaymentSettlementStatus.confirmed contract ∷ [])
  unfolding process_reversal
  process_reversal-by_id found lost = (
    grind (arith, unnamed-reversal event account_id s.contracts lost),
    (process_event-projects event account_id s contract is_new found by_id).0,
  )
