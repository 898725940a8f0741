-- ===== src/Payments/Lifecycle/Cycle.antt =====
-- src/payments/charge-lifecycle.job.ts: `execute` and `reconcileCharge`. A cycle reads its charges
-- first and then handles them one after the other, with a request to the provider for each; what
-- webhooks and users write to the database in between is the parameter `meanwhile`.
use cobdata_back.Base.{
  ℕ, ◌+◌, ◌-◌, Bool, false, not, ◌&&◌, ◌||◌, none, some, List, [], ◌∷◌, ◌++◌, ltb, ◌==◌,
  if◌then◌else◌, find, any, keep, order_by, take, unique_by, length, Outcome, returns, throws,
  Method,
}
use cobdata_back.Payments.Model.{
  Text, Date, PaymentCharge, PaymentChargeStatus, PaymentGateway, same_status,
}
use cobdata_back.Payments.Store.{Store, gateway_has_id}
use cobdata_back.Payments.Factory.{Adapter, PaymentChargeUpdate, ServiceError, get}
use cobdata_back.Payments.Lifecycle.{
  JobResult, JobState, timeout_error, rate_limit, other, classify_adapter_error, pending_grace,
  transition_to_paid, transition_to_issued, transition_to_failed, transition_to_expired,
}

-- PENDING or ISSUED.
abbrev pub is_open : PaymentCharge → Bool
is_open c =
    same_status c.status PaymentChargeStatus.pending
    || same_status c.status PaymentChargeStatus.issued

-- A Pix by its `expiresAt`, a boleto, which has none, by its due date.
abbrev pub is_past : Date → PaymentCharge → Bool
is_past now c = elim c.expires_at [ none ↦ ltb c.due_date now | some at ↦ ltb at now ]

unfoldable pub is_expired_candidate : Date → PaymentCharge → Bool
is_expired_candidate now c = if not (is_open c) then false else is_past now c

-- `charge.createdAt < pendingCutoff`
abbrev pub is_older : Date → PaymentCharge → Bool
is_older now c = ltb (c.created_at + pending_grace) now

abbrev pub is_pending_candidate : Date → PaymentCharge → Bool
is_pending_candidate now c = same_status c.status PaymentChargeStatus.pending && is_older now c

abbrev pub creation_date : PaymentCharge → ℕ
creation_date c = c.created_at

abbrev pub charge_id : PaymentCharge → ℕ
charge_id c = c.id

-- The two queries of a cycle, and the list that it handles.
unfoldable pub pending_charges : ℕ → Date → Store → List PaymentCharge
pending_charges batch_size now s =
    take batch_size (order_by creation_date (keep (is_pending_candidate now) s.charges))

abbrev pub is_among : List PaymentCharge → PaymentCharge → Bool
is_among cs c = any (λ (p : PaymentCharge). p.id == c.id) cs

unfoldable pub expired_charges : ℕ → Date → Store → List PaymentCharge
expired_charges batch_size now s =
    let pending = pending_charges batch_size now s in
    take (batch_size - length pending) (
      order_by creation_date
        (keep (λ c. is_open c && is_past now c && not (is_among pending c)) s.charges))

unfoldable pub candidates : ℕ → Date → Store → List PaymentCharge
candidates batch_size now s =
    unique_by charge_id (pending_charges batch_size now s ++ expired_charges batch_size now s)

abbrev pub no_result : JobResult
no_result = record {
  processed_count = 0;
  transitioned_to_paid = 0;
  transitioned_to_expired = 0;
  transitioned_to_issued = 0;
  transitioned_to_failed = 0;
  provider_errors = 0;
}

abbrev count_error : JobState → JobState
count_error s = record s {
  result = record (s.result) { provider_errors = s.result.provider_errors + 1 };
}

abbrev count_processed : JobState → JobState
count_processed s = record s {
  result = record (s.result) { processed_count = s.result.processed_count + 1 };
}

module _ (provider_not_processed did_not_process : Text) (now : Date) where
  -- The transition that the provider's answer calls for.
  unfoldable pub apply_update :
      PaymentCharge → Bool → Bool → PaymentChargeUpdate → JobState → JobState
  apply_update charge pending_candidate expired_candidate update s =
      if same_status update.status PaymentChargeStatus.paid
      then transition_to_paid now charge update s
      else if pending_candidate && not expired_candidate
      then (if same_status update.status PaymentChargeStatus.issued
          then transition_to_issued now charge update s
          else if same_status update.status PaymentChargeStatus.failed
          then transition_to_failed provider_not_processed did_not_process charge update s
          else s)
      else if expired_candidate
      then (if same_status update.status PaymentChargeStatus.issued
            || same_status update.status charge.status
          then transition_to_expired charge s
          else s)
      else s

  -- The `catch` around `fetchStatus`, and what follows it.
  abbrev pub after_fetch :
      PaymentCharge
      → Bool
      → Bool
      → Outcome ServiceError PaymentChargeUpdate
      → Method JobState ServiceError (Unit {0})
  after_fetch charge p e (returns update) s = (returns tt, apply_update charge p e update s)
  after_fetch charge p e (throws error) s = elim (classify_adapter_error error) [
    | timeout_error ↦ (returns tt, count_error s)
    | rate_limit ↦ (returns tt, count_error s)
    | other ↦ (throws error, s)
  ]

  module _ (adapters : List Adapter) (decrypt : PaymentGateway → Outcome ServiceError Text) where
    unfoldable pub reconcile_charge :
        PaymentCharge → Bool → Bool → Method JobState ServiceError (Unit {0})
    unfolding get
    reconcile_charge charge p e s =
        elim (find (gateway_has_id charge.payment_gateway_id) s.store.gateways) [
          | none ↦ (returns tt, s)
          | some gateway ↦ elim (get adapters gateway.provider_type) [
            | throws error ↦ (throws error, s)
            | returns adapter ↦ elim (adapter.fetch_status) [
              | none ↦ (returns tt, s)
              | some fetch_status ↦ elim (decrypt gateway) [
                | throws error ↦ (throws error, s)
                | returns config ↦ after_fetch charge p e (fetch_status charge config) s
              ]
            ]
          ]
        ]

    module _ (meanwhile : PaymentCharge → Store → Store) where
      -- One round of the loop, with its `try`.
      unfoldable pub run_charge : PaymentCharge → JobState → JobState
      run_charge charge s =
          let (r, s') =
            reconcile_charge charge (is_pending_candidate now charge)
              (is_expired_candidate now charge) (record s { store = meanwhile charge s.store }) in
          elim r [ returns _ ↦ count_processed s' | throws _ ↦ count_error s' ]

      unfoldable pub run_charges : List PaymentCharge → JobState → JobState
      run_charges [] s = s
      run_charges (charge ∷ rest) s = run_charges rest (run_charge charge s)

      unfoldable pub execute : ℕ → Store → JobState
      unfolding run_charges candidates
      execute batch_size s =
          run_charges (candidates batch_size now s) (record { store = s; result = no_result })
