-- ===== src/Payments/Lifecycle/Reconcile.antt =====
-- What one round of a cycle does to a charge that nobody changed in the meantime.
use cobdata_back.Base.{
  ◌+◌, ◌≡◌, ◌≤◌, Bool, true, false, ◌||◌, Option, none, some, List, arith, any, any-append, find,
  Outcome, returns, or_default, or_else,
}
use cobdata_back.Payments.Model.{
  Text, Date, PaymentCharge, PaymentChargeStatus, PaymentSettlementSource, PaymentGateway,
}
use cobdata_back.Payments.Store.{Store, charge_has_id, gateway_has_id, settles, settles_charge}
use cobdata_back.Payments.Factory.{Adapter, PaymentChargeUpdate, ServiceError, get}
use cobdata_back.Payments.Lifecycle.{
  JobState, transition_to_paid, transition_to_issued, transition_to_failed, transition_to_expired,
  create_settlement,
}
use cobdata_back.Payments.Lifecycle.Cycle.{
  is_open, is_past, is_older, is_expired_candidate, is_pending_candidate, apply_update,
  reconcile_charge,
}
use cobdata_back.Payments.Lifecycle.Locking.{lock_fresh, create_settlement-charges}

create_settlement-settled :
    (charge : PaymentCharge) (at : Date) (s : Store)
    → (any (settles_charge charge.id) (create_settlement charge at s).settlements
        || any
            (settles PaymentSettlementSource.pix
              (or_default charge.external_id (or_default charge.txid charge.id)))
            (create_settlement charge at s).settlements)
      ≡ true
unfolding create_settlement
create_settlement-settled charge at s = grind (arith, any-append)

-- The life of an open charge, as the provider and the clock drive it.
pub data Edge (now : Date) (c : PaymentCharge) : PaymentChargeStatus → Type 0 where
  stay : {t : PaymentChargeStatus} → t ≡ c.status → Edge now c t
  -- Payment comes at any time, also after the expiry.
  pay : Edge now c PaymentChargeStatus.paid
  -- An answer that was late, for a charge that stayed PENDING past the grace period.
  confirm :
      c.status ≡ PaymentChargeStatus.pending
      → is_older now c ≡ true
      → is_past now c ≡ false
      → Edge now c PaymentChargeStatus.issued
  refuse :
      c.status ≡ PaymentChargeStatus.pending
      → is_older now c ≡ true
      → is_past now c ≡ false
      → Edge now c PaymentChargeStatus.failed
  expire : is_open c ≡ true → is_past now c ≡ true → Edge now c PaymentChargeStatus.expired

-- The row that stands for the charge afterwards: its version has not gone back, and what a cycle
-- does not own is as before.
abbrev pub Follows : Date → PaymentCharge → Option PaymentCharge → Type 0
Follows now c none = ⊥
Follows now c (some d) =
    (d.id ≡ c.id) × (d.amount ≡ c.amount) × (c.version ≤ d.version) × Edge now c d.status

module _ (code message : Text) (now : Date) (charge : PaymentCharge) (s : JobState)
    (found : find (charge_has_id charge.id) s.store.charges ≡ some charge) where
  apply_update-Follows :
      (update : PaymentChargeUpdate)
      → Follows now charge (
          find
            (charge_has_id charge.id)
            (apply_update code message now charge
              (is_pending_candidate now charge)
              (is_expired_candidate now charge)
              update
              s).store.charges)
  unfolding apply_update transition_to_paid transition_to_issued transition_to_failed
      transition_to_expired is_expired_candidate
  apply_update-Follows update =
      grind (arith, create_settlement-charges, lock_fresh, stay, pay, confirm, refuse, expire)

  pub reconcile_charge-Follows :
      (adapters : List Adapter) (decrypt : PaymentGateway → Outcome ServiceError Text)
      → Follows now charge (
          find
            (charge_has_id charge.id)
            (reconcile_charge code message now adapters decrypt charge
              (is_pending_candidate now charge)
              (is_expired_candidate now charge)
              s).1.store.charges)
  unfolding reconcile_charge
  reconcile_charge-Follows adapters decrypt = grind (arith, apply_update-Follows, stay)

  -- The provider answers that the charge is paid.
  module _ (adapters : List Adapter) (decrypt : PaymentGateway → Outcome ServiceError Text)
      (gateway : PaymentGateway) (adapter : Adapter)
      (fetch : PaymentCharge → Text → Outcome ServiceError PaymentChargeUpdate) (config : Text)
      (update : PaymentChargeUpdate)
      (has_gateway : find (gateway_has_id charge.payment_gateway_id) s.store.gateways
        ≡ some gateway)
      (has_adapter : get adapters gateway.provider_type ≡ returns adapter)
      (has_fetch : adapter.fetch_status ≡ some fetch) (decrypted : decrypt gateway ≡ returns config)
      (answered : fetch charge config ≡ returns update)
      (says_paid : update.status ≡ PaymentChargeStatus.paid) where
    -- A charge that is as the cycle read it, and that the provider says is paid, becomes PAID,
    -- whatever the cycle had in mind for it: its row has the provider's date, or the clock's, and a
    -- higher version, nothing else of it is lost, a settlement of the charge or one with its key
    -- exists, and the cycle counts the transition.
    pub reconcile_charge-paid :
        (p e : Bool)
        → let (r, s') = reconcile_charge code message now adapters decrypt charge p e s in
          (r ≡ returns tt)
          × (find (charge_has_id charge.id) s'.store.charges
              ≡ some (record charge {
                status = PaymentChargeStatus.paid;
                external_status = or_else update.external_status charge.external_status;
                paid_at = some (or_default update.paid_at now);
                provider_payload = or_else update.provider_payload charge.provider_payload;
                version = charge.version + 1;
              }))
          × ((any (settles_charge charge.id) s'.store.settlements
                || any
                    (settles PaymentSettlementSource.pix
                      (or_default charge.external_id (or_default charge.txid charge.id)))
                    s'.store.settlements)
              ≡ true)
          × (s'.result.transitioned_to_paid ≡ s.result.transitioned_to_paid + 1)
    unfolding reconcile_charge apply_update transition_to_paid
    reconcile_charge-paid p e =
        grind (arith, create_settlement-charges, lock_fresh, create_settlement-settled)
