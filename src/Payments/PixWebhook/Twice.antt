-- ===== src/Payments/PixWebhook/Twice.antt =====
-- A payment that reaches the database on two ways: the periodic job (charge-lifecycle.job.ts) has
-- already made the charge PAID and settled it when the webhook reports the same payment.
use cobdata_back.Base.{
  update_where, ◌≡◌, ◌+◌, refl, true, false, ◌||◌, some, [], ◌∷◌, ◌++◌, arith, any, any-append,
  find, find-update_where, sum_where, sum_where-append, sum_where_none, ◌==◌, ==_refl, or_default,
  or_else,
}
use cobdata_back.Payments.Model.{
  Text, Date, PaymentCharge, PaymentChargeStatus, PaymentSettlementSource, PaymentSettlement,
}
use cobdata_back.Payments.Store.{Store, settles, settles_charge, settlement_amount}
use cobdata_back.Payments.Factory.{PaymentChargeUpdate}
use cobdata_back.Payments.Lifecycle.{
  JobState, transition_to_paid, create_settlement, update_charge_with_optimistic_lock,
  unchanged_since,
}
use cobdata_back.Payments.PixWebhook.{
  BbPixWebhookEntry, charge_has_txid, settlement_of, is_paid, process_pix_entry,
}
use cobdata_back.Payments.PixWebhook.Steps.{alone}
use cobdata_back.Payments.PixWebhook.Confirm.{ensure-settlements}
use cobdata_back.Providers.Model.{ProviderState}
use cobdata_back.Providers.Operations.{Ids}

module _ (concluida : Text) (ids : Ids) (entry : BbPixWebhookEntry)
    (given : (entry.txid == 0 || entry.end_to_end_id == 0) ≡ false) where
  -- The webhook for a charge that is paid, with a key that is new.
  process-settles :
      (charge : PaymentCharge) (w : ProviderState)
      → any (settles PaymentSettlementSource.pix entry.end_to_end_id) w.store.settlements ≡ false
      → find (charge_has_txid entry.txid) w.store.charges ≡ some charge
      → is_paid charge ≡ true
      → (process_pix_entry concluida alone alone ids entry w).1.store.settlements
        ≡ w.store.settlements ++ settlement_of charge entry ∷ []
  unfolding process_pix_entry
  process-settles charge w is_new found paid =
      rw (process_pix_entry, given, is_new, found, paid)
        (ensure-settlements ids charge entry w is_new)

  module _ (now : Date) (charge : PaymentCharge) (update : PaymentChargeUpdate) (s : JobState)
      (w : ProviderState) (found : find (charge_has_txid entry.txid) s.store.charges ≡ some charge)
      (unsettled : any (settles_charge charge.id) s.store.settlements ≡ false)
      (is_unused : any
          (settles PaymentSettlementSource.pix
            (or_default charge.external_id (or_default charge.txid charge.id)))
          s.store.settlements
        ≡ false)
      (is_new : any (settles PaymentSettlementSource.pix entry.end_to_end_id) s.store.settlements
        ≡ false)
      (is_other : (or_default charge.external_id (or_default charge.txid charge.id)
          == entry.end_to_end_id)
        ≡ false) where
    abbrev settled : Store
    settled = (transition_to_paid now charge update s).store

    abbrev added : PaymentSettlement
    added = record (settlement_of charge entry) {
      amount = charge.amount;
      paid_at = or_default update.paid_at now;
      external_payment_id = or_default charge.external_id (or_default charge.txid charge.id);
    }

    settled-settlements : settled.settlements ≡ s.store.settlements ++ added ∷ []
    unfolding transition_to_paid create_settlement update_charge_with_optimistic_lock
    settled-settlements = ground arith

    abbrev to_paid : PaymentCharge → PaymentCharge
    to_paid c = record c {
      status = PaymentChargeStatus.paid;
      external_status = or_else update.external_status charge.external_status;
      paid_at = some (or_default update.paid_at now);
      provider_payload = or_else update.provider_payload c.provider_payload;
      version = c.version + 1;
    }

    settled-charges :
        settled.charges ≡ update_where (unchanged_since charge) to_paid s.store.charges
    unfolding transition_to_paid create_settlement update_charge_with_optimistic_lock
    settled-charges = ground arith

    settled-charge : find (charge_has_txid entry.txid) settled.charges ≡ some (to_paid charge)
    settled-charge =
        let same =
          find-update_where (charge_has_txid entry.txid) (unchanged_since charge) to_paid
            (λ c. refl) s.store.charges in
        rw (settled-charges, same, found, ==_refl charge.id, ==_refl charge.version) refl

    settled_new :
        any (settles PaymentSettlementSource.pix entry.end_to_end_id) settled.settlements ≡ false
    settled_new =
        rw
          (
            settled-settlements,
            any-append (settles PaymentSettlementSource.pix entry.end_to_end_id) s.store.settlements
                (added ∷ []),
            is_new,
          )
          (ground arith)

    -- The job has found the charge paid and settled it for its amount; the webhook then reports the
    -- payment, by the bank's end-to-end id, which is not the key that the job used. The charge is
    -- settled a second time: its settlements sum up to its amount and the reported one together.
    pub job_then_webhook_settles_twice :
        sum_where
          (settles_charge charge.id)
          settlement_amount
          (process_pix_entry concluida alone alone ids entry (record w {
            store = (transition_to_paid now charge update s).store;
          })).1.store.settlements
        ≡ charge.amount + entry.valor
    job_then_webhook_settles_twice =
        rw
          (
            process-settles (to_paid charge) (record w { store = settled }) settled_new
                settled-charge refl,
            settled-settlements,
          )
          (ground (
            arith,
            sum_where_none (settles_charge charge.id) settlement_amount s.store.settlements
                unsettled,
            sum_where-append (settles_charge charge.id) settlement_amount s.store.settlements
                (added ∷ []),
            sum_where-append (settles_charge charge.id) settlement_amount
                (s.store.settlements ++ added ∷ []) (settlement_of (to_paid charge) entry ∷ []),
          ))
