-- ===== src/Payments/Lifecycle.antt =====
-- src/payments/charge-lifecycle.job.ts: the periodic reconciliation of charges with the provider.
mod Tests
pub mod Cycle
pub mod Locking
pub mod Reconcile
pub mod Batch
use cobdata_back.Base.{
  ℕ, ◌+◌, ◌-◌, ◌*◌, ◌<◌, Bool, true, false, not, ◌&&◌, ◌||◌, Option, none, some, List, [], ◌∷◌,
  ◌++◌, map, ltb, ◌==◌, if◌then◌else◌, or_default, or_else, is_some, find, any, update_where, keep,
  order_by, take, unique_by, length, Outcome, returns, throws, Method, return, throw,
}
use cobdata_back.Payments.Model.{
  Text, Date, PaymentCharge, PaymentChargeStatus, PaymentSettlementSource, PaymentSettlementStatus,
  PaymentEventSource, PaymentGateway, same_status,
}
use cobdata_back.Payments.Store.{
  Store, gateway_has_id, settles_charge, insert_settlement, add_event,
}
use cobdata_back.Payments.Factory.{
  Adapter, PaymentChargeUpdate, ServiceError, timeout, rate_limited, get,
}

-- interface ChargeLifecycleJobResult
pub record JobResult : Type 0 where
  pub processed_count : ℕ
  pub transitioned_to_paid : ℕ
  pub transitioned_to_expired : ℕ
  pub transitioned_to_issued : ℕ
  pub transitioned_to_failed : ℕ
  pub provider_errors : ℕ

-- The database and the result object that a cycle mutates.
pub record JobState : Type 0 where
  pub store : Store
  pub result : JobResult

pub data AdapterErrorType : Type 0 where
  timeout_error rate_limit other : AdapterErrorType

abbrev pub classify_adapter_error : ServiceError → AdapterErrorType
classify_adapter_error ServiceError.timeout = timeout_error
classify_adapter_error ServiceError.rate_limited = rate_limit
classify_adapter_error _ = other

-- PENDING_GRACE_MINUTES, in milliseconds.
abbrev pub pending_grace : ℕ
pending_grace = 5 * 60 * 1_000

-- The row that the snapshot `charge` was read from, if nobody has changed its version since.
abbrev pub unchanged_since : PaymentCharge → PaymentCharge → Bool
unchanged_since charge c = c.id == charge.id && c.version == charge.version

unfoldable pub update_charge_with_optimistic_lock :
    PaymentCharge → (PaymentCharge → PaymentCharge) → Store → Store
update_charge_with_optimistic_lock charge change s = record s {
  charges =
      update_where (unchanged_since charge)
        (λ c. let c' = change c in record c' { version = c.version + 1 }) s.charges;
}

abbrev pub create_payment_event : PaymentCharge → PaymentChargeStatus → Store → Store
create_payment_event charge to_status s =
    add_event charge.id (some charge.status) to_status PaymentEventSource.job s

-- A second settlement with the same key is refused by the database, and the error is caught.
unfoldable pub create_settlement : PaymentCharge → Date → Store → Store
create_settlement charge paid_at s =
    if any (settles_charge charge.id) s.settlements
    then s
    else (insert_settlement
        (record {
          account_id = charge.account_id;
          contract_id = charge.contract_id;
          payment_charge_id = some charge.id;
          agreement_reference = none;
          installment_number = none;
          source = PaymentSettlementSource.pix;
          status = PaymentSettlementStatus.confirmed;
          amount = charge.amount;
          paid_at = paid_at;
          external_payment_id = or_default charge.external_id (or_default charge.txid charge.id);
          channel_event_id = none;
          debt_reference = none;
          provider_payload = none;
        })
        s).1

module _ (now : Date) where
  unfoldable pub transition_to_paid : PaymentCharge → PaymentChargeUpdate → JobState → JobState
  transition_to_paid charge update s =
      let paid_date = or_default update.paid_at now in
      record {
        store = create_settlement charge paid_date (
            create_payment_event charge PaymentChargeStatus.paid (
              update_charge_with_optimistic_lock charge
                (λ c. record c {
                  status = PaymentChargeStatus.paid;
                  external_status = or_else update.external_status charge.external_status;
                  paid_at = some paid_date;
                  provider_payload = or_else update.provider_payload c.provider_payload;
                })
                s.store));
        result = record (s.result) { transitioned_to_paid = s.result.transitioned_to_paid + 1 };
      }

  unfoldable pub transition_to_issued : PaymentCharge → PaymentChargeUpdate → JobState → JobState
  transition_to_issued charge update s = record {
    store = create_payment_event charge PaymentChargeStatus.issued (
        update_charge_with_optimistic_lock charge
          (λ c. record c {
            status = PaymentChargeStatus.issued;
            external_status = or_else update.external_status charge.external_status;
            issued_at = some now;
            provider_payload = or_else update.provider_payload c.provider_payload;
          })
          s.store);
    result = record (s.result) { transitioned_to_issued = s.result.transitioned_to_issued + 1 };
  }

-- The texts PROVIDER_NOT_PROCESSED and its message.
module _ (provider_not_processed did_not_process : Text) where
  unfoldable pub transition_to_failed : PaymentCharge → PaymentChargeUpdate → JobState → JobState
  transition_to_failed charge update s = record {
    store = create_payment_event charge PaymentChargeStatus.failed (
        update_charge_with_optimistic_lock charge
          (λ c. record c {
            status = PaymentChargeStatus.failed;
            failure_code = some (or_default update.failure_code provider_not_processed);
            failure_message = some (or_default update.failure_message did_not_process);
            external_status = or_else update.external_status charge.external_status;
          })
          s.store);
    result = record (s.result) { transitioned_to_failed = s.result.transitioned_to_failed + 1 };
  }

unfoldable pub transition_to_expired : PaymentCharge → JobState → JobState
transition_to_expired charge s = record {
  store = create_payment_event charge PaymentChargeStatus.expired (
      update_charge_with_optimistic_lock charge
        (λ c. record c { status = PaymentChargeStatus.expired }) s.store);
  result = record (s.result) { transitioned_to_expired = s.result.transitioned_to_expired + 1 };
}
