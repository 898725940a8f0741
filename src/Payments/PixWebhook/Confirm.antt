-- ===== src/Payments/PixWebhook/Confirm.antt =====
-- The first delivery of a payment: what it adds, and what the contract carries afterwards.
use cobdata_back.Base.{
  ◌≡◌, ◌+◌, ◌∙◌, refl, false, some, [], ◌∷◌, ◌++◌, arith, any, find, sum_where-append, ◌||◌, ◌==◌,
  Outcome,
}
use cobdata_back.Payments.Model.{Text, Contract, PaymentCharge, PaymentSettlementSource}
use cobdata_back.Payments.Store.{
  settles, contract_has_id, confirmed_for, settlement_amount, confirmed_total,
}
use cobdata_back.Payments.PixWebhook.{
  BbPixWebhookEntry, charge_has_txid, settlement_of, is_paid, on_store, process_pix_entry,
  ensure_settlement, refresh_contract_payment_projection,
}
use cobdata_back.Payments.PixWebhook.Steps.{
  alone, then_recorded-rest, refresh-rest, refresh_then_record, removal_if_covered,
}
use cobdata_back.Payments.PixWebhook.Replay.{marked}
use cobdata_back.Providers.Model.{ProviderState}
use cobdata_back.Providers.Operations.{Ids, OperationError}

abbrev pub inserted : PaymentCharge → BbPixWebhookEntry → ProviderState → ProviderState
inserted charge entry w =
    on_store (λ s. record s { settlements = s.settlements ++ settlement_of charge entry ∷ [] }) w

-- A settlement with a new key.
module _ (ids : Ids) (charge : PaymentCharge) (entry : BbPixWebhookEntry) (w : ProviderState)
    (is_new : any (settles PaymentSettlementSource.pix entry.end_to_end_id) w.store.settlements
      ≡ false) where
  abbrev u : ProviderState
  u = inserted charge entry w

  pub ensure_new :
      ensure_settlement alone ids charge entry w ≡ refresh_then_record ids charge entry u
  unfolding ensure_settlement
  ensure_new = rw (ensure_settlement, is_new) refl

  pub inserted-total :
      confirmed_total charge.contract_id u.store
      ≡ confirmed_total charge.contract_id w.store + entry.valor
  inserted-total = ground (
    arith,
    sum_where-append (confirmed_for charge.contract_id) settlement_amount w.store.settlements
        (settlement_of charge entry ∷ []),
  )

  pub ensure-settlements :
      (ensure_settlement alone ids charge entry w).1.store.settlements ≡ u.store.settlements
  ensure-settlements = rw ensure_new (
      (then_recorded-rest charge entry
        (refresh_contract_payment_projection ids charge.contract_id u)).1
      ∙ (refresh-rest ids charge.contract_id u).1)

-- The charge is PAID, with its event, and the settlement is inserted.
abbrev pub with_paid_charge :
    Text → PaymentCharge → BbPixWebhookEntry → ProviderState → ProviderState
with_paid_charge concluida charge entry w = inserted charge entry (marked concluida charge entry w)

module _ (concluida : Text) (ids : Ids) (entry : BbPixWebhookEntry) (charge : PaymentCharge)
    (contract : Contract) (w : ProviderState)
    (given : (entry.txid == 0 || entry.end_to_end_id == 0) ≡ false)
    (is_new : any (settles PaymentSettlementSource.pix entry.end_to_end_id) w.store.settlements
      ≡ false)
    (found : find (charge_has_txid entry.txid) w.store.charges ≡ some charge)
    (unpaid : is_paid charge ≡ false)
    (has_contract : find (contract_has_id charge.contract_id) w.store.contracts
      ≡ some contract) where
  abbrev settled : ProviderState
  settled = with_paid_charge concluida charge entry w

  abbrev run : Outcome OperationError (Unit {0}) × ProviderState
  run = process_pix_entry concluida alone alone ids entry w

  abbrev due : Outcome OperationError (Unit {0}) × ProviderState
  due = removal_if_covered ids charge.contract_id settled contract
