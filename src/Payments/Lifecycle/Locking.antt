-- ===== src/Payments/Lifecycle/Locking.antt =====
-- The optimistic lock: what a cycle writes to a charge whose version has moved on since the cycle
-- read it.
use cobdata_back.Base.{
  ◌+◌, ◌≡◌, refl, Bool, false, some, List, [], ◌∷◌, ◌++◌, arith, any, update_where_none,
  find-update_where, find-update_where_apart, ◌≢◌, find, ==_refl, Outcome,
}
use cobdata_back.Payments.Model.{
  Text, Date, PaymentCharge, PaymentChargeStatus, PaymentEventSource, PaymentGateway,
}
use cobdata_back.Payments.Store.{Store, charge_has_id}
use cobdata_back.Payments.Factory.{Adapter, PaymentChargeUpdate, ServiceError}
use cobdata_back.Payments.Lifecycle.{
  JobState, unchanged_since, update_charge_with_optimistic_lock, transition_to_paid,
  transition_to_issued, transition_to_failed, transition_to_expired, create_settlement,
}
use cobdata_back.Payments.Lifecycle.Cycle.{apply_update, reconcile_charge}

-- A write under the lock finds no row where the version has moved on.
lock_stale :
    (charge : PaymentCharge) (change : PaymentCharge → PaymentCharge) (s : Store)
    → any (unchanged_since charge) s.charges ≡ false
    → (update_charge_with_optimistic_lock charge change s).charges ≡ s.charges
unfolding update_charge_with_optimistic_lock
lock_stale charge change s stale = update_where_none (unchanged_since charge) _ s.charges stale

-- The write reaches the row that the snapshot was read from where nothing has changed it.
pub lock_fresh :
    (charge : PaymentCharge) (change : PaymentCharge → PaymentCharge) (s : Store)
    → ((c : PaymentCharge) → (change c).id ≡ c.id)
    → find (charge_has_id charge.id) s.charges ≡ some charge
    → find (charge_has_id charge.id) (update_charge_with_optimistic_lock charge change s).charges
      ≡ some (let c' = change charge in record c' { version = charge.version + 1 })
unfolding update_charge_with_optimistic_lock
lock_fresh charge change s same found =
    rw
      (
        find-update_where (charge_has_id charge.id) (unchanged_since charge)
            (λ c. let c' = change c in record c' { version = c.version + 1 }) (λ c. rw (same c))
            s.charges,
        found,
        ==_refl charge.id,
        ==_refl charge.version,
      )
      refl

pub lock_others :
    (charge : PaymentCharge) (change : PaymentCharge → PaymentCharge) (k : Text) (s : Store)
    → ((c : PaymentCharge) → (change c).id ≡ c.id)
    → k ≢ charge.id
    → find (charge_has_id k) (update_charge_with_optimistic_lock charge change s).charges
      ≡ find (charge_has_id k) s.charges
unfolding update_charge_with_optimistic_lock
lock_others charge change k s same ne =
    find-update_where_apart (charge_has_id k) (unchanged_since charge)
      (λ c. let c' = change c in record c' { version = c.version + 1 }) (λ c. rw (same c))
      (λ c h. ground arith) s.charges

pub create_settlement-charges :
    (charge : PaymentCharge) (at : Date) (s : Store)
    → (create_settlement charge at s).charges ≡ s.charges
unfolding create_settlement
create_settlement-charges charge at s = ground arith

module _ (now : Date) (code message : Text) (charge : PaymentCharge) (s : JobState)
    (stale : any (unchanged_since charge) s.store.charges ≡ false) where
  pub apply_update-charges_stale :
      (p e : Bool) (update : PaymentChargeUpdate)
      → (apply_update code message now charge p e update s).store.charges ≡ s.store.charges
  unfolding apply_update transition_to_paid transition_to_issued transition_to_failed
      transition_to_expired
  apply_update-charges_stale p e update = grind (arith, create_settlement-charges, lock_stale)

  -- Where no row has the id and the version that the cycle read, as after any change that raises
  -- the version, handling the charge changes no charge at all, whatever the provider answers and
  -- however the handling ends.
  pub reconcile_charge-charges_stale :
      (adapters : List Adapter) (decrypt : PaymentGateway → Outcome ServiceError Text) (p e : Bool)
      → (reconcile_charge code message now adapters decrypt charge p e s).1.store.charges
        ≡ s.store.charges
  unfolding reconcile_charge
  reconcile_charge-charges_stale adapters decrypt p e = grind (arith, apply_update-charges_stale)

  -- Where no row has the id and the version that the cycle read, the expiry of the charge changes
  -- no charge, yet it is recorded as if it had happened: the event with the status EXPIRED is
  -- written, and the cycle counts it.
  pub transition_to_expired_stale :
      let s' = transition_to_expired charge s in
      (s'.store.charges ≡ s.store.charges)
      × (s'.store.events
          ≡ s.store.events
            ++ record {
              payment_charge_id = charge.id;
              from_status = some charge.status;
              to_status = PaymentChargeStatus.expired;
              source = PaymentEventSource.job;
            }
              ∷ [])
      × (s'.result.transitioned_to_expired ≡ s.result.transitioned_to_expired + 1)
  unfolding transition_to_expired update_charge_with_optimistic_lock
  transition_to_expired_stale = (
    lock_stale charge (λ c. record c { status = PaymentChargeStatus.expired }) s.store stale,
    refl,
    refl,
  )
