-- ===== src/Payments/Charges/Stale.antt =====
-- `syncCharge` beside a cycle of the periodic job that has read the charge before.
use cobdata_back.Base.{
  ◌≡◌, ◌+◌, refl, true, false, some, arith, any, any-append, find, find-update_where, update_where,
  ==_refl, or_default,
}
use cobdata_back.Payments.Model.{PaymentCharge, PaymentChargeStatus, PaymentSettlementSource}
use cobdata_back.Payments.Store.{Store, settles, settles_charge, charge_has_id}
use cobdata_back.Payments.Factory.{PaymentChargeUpdate}
use cobdata_back.Payments.Lifecycle.{
  JobResult, transition_to_expired, update_charge_with_optimistic_lock, unchanged_since,
}
use cobdata_back.Payments.Charges.{Service, Call}
use cobdata_back.Payments.Charges.Sync.{
  synced_row, becomes_paid, settle, apply_sync, record_synced_payment,
}

module _ (service : Service) (call : Call) (charge : PaymentCharge) (update : PaymentChargeUpdate)
    (s : Store) (found : find (charge_has_id charge.id) s.charges ≡ some charge) where
  abbrev synced : Store
  synced = apply_sync service call charge update s

  synced-charges :
      synced.charges ≡ update_where (charge_has_id charge.id) (synced_row charge update) s.charges
  unfolding apply_sync settle record_synced_payment
  synced-charges = ground arith

  pub synced-charge :
      find (charge_has_id charge.id) synced.charges ≡ some (synced_row charge update charge)
  synced-charge =
      rw
        (
          synced-charges,
          find-update_where (charge_has_id charge.id) (charge_has_id charge.id)
              (synced_row charge update) (λ c. refl) s.charges,
          found,
          ==_refl charge.id,
        )
        refl

  pub synced-settled :
      becomes_paid charge update ≡ true
      → any
          (settles PaymentSettlementSource.pix
            (or_default charge.external_id (or_default charge.txid charge.id)))
          s.settlements
        ≡ false
      → any (settles_charge charge.id) synced.settlements ≡ true
  unfolding apply_sync settle record_synced_payment
  synced-settled paid unused = grind (arith, any-append)

  -- A synchronisation that finds the charge paid makes it PAID and settles it, but leaves its
  -- version: a cycle of the job that has read the charge before takes its row for unchanged, and
  -- writes EXPIRED over PAID, with the settlement still there.
  pub sync_then_expired :
      becomes_paid charge update ≡ true
      → any
          (settles PaymentSettlementSource.pix
            (or_default charge.external_id (or_default charge.txid charge.id)))
          s.settlements
        ≡ false
      → (result : JobResult)
      → let synced = apply_sync service call charge update s in
        let expired =
          (transition_to_expired charge (record { store = synced; result = result })).store in
        (find (charge_has_id charge.id) synced.charges ≡ some (synced_row charge update charge))
        × (find (charge_has_id charge.id) expired.charges
            ≡ some (record (synced_row charge update charge) {
              status = PaymentChargeStatus.expired;
              version = charge.version + 1;
            }))
        × (any (settles_charge charge.id) expired.settlements ≡ true)
  unfolding transition_to_expired update_charge_with_optimistic_lock
  sync_then_expired paid unused result =
      let expire : PaymentCharge → PaymentCharge =
        λ c. record c { status = PaymentChargeStatus.expired; version = c.version + 1 } in
      let same =
        find-update_where (charge_has_id charge.id) (unchanged_since charge) expire (λ c. refl)
          synced.charges in
      (
        synced-charge,
        rw (same, synced-charge, ==_refl charge.id, ==_refl charge.version) refl,
        synced-settled paid unused,
      )
