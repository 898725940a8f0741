-- ===== src/Payments/Lifecycle/Tests.antt =====
-- Runs of the reconciliation on one issued Pix.
use cobdata_back.Base.{
  ◌≡◌, ◌≤◌, ◌+◌, ◌||◌, ◌++◌, refl, true, false, some, [], ◌∷◌, find, any, length, returns,
}
use cobdata_back.Payments.Model.{
  PaymentCharge, PaymentChargeStatus, PaymentSettlementSource, PaymentEventSource,
}
use cobdata_back.Payments.Store.{Store, charge_has_id, settles, settles_charge}
use cobdata_back.Payments.Factory.{get}
use cobdata_back.Payments.Fixtures.{
  charge, changed, store, gateway, adapter, adapters, decrypt, fetch, says_paid,
}
use cobdata_back.Payments.Lifecycle.{JobState, transition_to_expired, transition_to_paid}
use cobdata_back.Payments.Lifecycle.Cycle.{
  no_result, candidates, reconcile_charge, execute, run_charges, run_charge, apply_update,
  pending_charges, expired_charges, is_expired_candidate,
}
use cobdata_back.Payments.Lifecycle.Reconcile.{Follows, reconcile_charge-paid}
use cobdata_back.Payments.Lifecycle.Locking.{
  reconcile_charge-charges_stale, transition_to_expired_stale,
}
use cobdata_back.Payments.Lifecycle.Batch.{transitions, execute_counts, execute-Follows}

abbrev state : JobState
state = record { store = store; result = no_result }

abbrev stale_state : JobState
stale_state = record { store = record store { charges = changed ∷ [] }; result = no_result }

abbrev quiet : PaymentCharge → Store → Store
quiet _ s = s

-- The charge is past its expiry and the provider says that it is paid.
executes : (execute 1 2 45 adapters decrypt quiet 10 store).result.transitioned_to_paid ≡ 1
unfolding execute candidates run_charges run_charge reconcile_charge apply_update transition_to_paid
    pending_charges expired_charges is_expired_candidate get
executes = refl

execute-Follows_example :
    Follows 45 charge
      (find (charge_has_id 5) (execute 1 2 45 adapters decrypt quiet 10 store).store.charges)
execute-Follows_example = execute-Follows 1 2 45 adapters decrypt 10 store (refl, tt) charge refl

execute_counts_example :
    let r = (execute 1 2 45 adapters decrypt quiet 10 store).result in
    (length (candidates 10 45 store) ≤ 10)
    × (r.processed_count ≤ length (candidates 10 45 store))
    × (r.provider_errors ≤ length (candidates 10 45 store))
    × (length (candidates 10 45 store) ≤ r.processed_count + r.provider_errors)
    × (transitions r ≤ r.processed_count)
execute_counts_example = execute_counts 1 2 45 adapters decrypt quiet 10 store

reconcile_charge-paid_example :
    let (r, s') = reconcile_charge 1 2 45 adapters decrypt charge false true state in
    (r ≡ returns tt)
    × (find (charge_has_id 5) s'.store.charges
        ≡ some (record charge {
          status = PaymentChargeStatus.paid;
          external_status = some 51;
          paid_at = some 35;
          version = 1;
        }))
    × ((any (settles_charge 5) s'.store.settlements
          || any (settles PaymentSettlementSource.pix 21) s'.store.settlements)
        ≡ true)
    × (s'.result.transitioned_to_paid ≡ 1)
unfolding get
reconcile_charge-paid_example =
    reconcile_charge-paid 1 2 45 charge state refl adapters decrypt gateway adapter fetch 9
      says_paid refl refl refl refl refl refl false true

reconcile_charge-charges_stale_example :
    (reconcile_charge 1 2 45 adapters decrypt charge false true stale_state).1.store.charges
    ≡ changed ∷ []
reconcile_charge-charges_stale_example =
    reconcile_charge-charges_stale 45 1 2 charge stale_state refl adapters decrypt false true

transition_to_expired_stale_example :
    let s' = transition_to_expired charge stale_state in
    (s'.store.charges ≡ changed ∷ [])
    × (s'.store.events
        ≡ []
          ++ record {
            payment_charge_id = 5;
            from_status = some PaymentChargeStatus.issued;
            to_status = PaymentChargeStatus.expired;
            source = PaymentEventSource.job;
          }
            ∷ [])
    × (s'.result.transitioned_to_expired ≡ 1)
transition_to_expired_stale_example = transition_to_expired_stale 45 1 2 charge stale_state refl
