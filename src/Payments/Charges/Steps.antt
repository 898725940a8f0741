-- ===== src/Payments/Charges/Steps.antt =====
-- What the two branches of an insertion leave, in the `try` and in the `catch` of an issue.
use cobdata_back.Base.{
  ◌⊎◌, inl, inr, Bool-cases, Outcome-cases, ◌≡◌, refl, true, false, none, [], ◌∷◌, ◌++◌, arith, any,
  if◌then◌else◌, or_default, Outcome, returns, throws,
}
use cobdata_back.Payments.Model.{
  Text, Contract, PaymentCharge, PaymentChargeStatus, PaymentEventSource, AuditAction,
  payment_charge_failed,
}
use cobdata_back.Payments.Store.{Store, add_event}
use cobdata_back.Payments.Factory.{
  Adapter, IssueInput, IssuedPaymentCharge, ServiceError, unique_violation, not_issued,
}
use cobdata_back.Payments.Charges.{
  Service, Call, has_pix, register_agreement_from_issued_charge, record_pix_issued_interaction,
}
use cobdata_back.Payments.Charges.Issue.{
  ChargeParams, same_key, failure_of, failed_row, audit, insert_charge, handle_adapter_error,
  persist_issued, fail, issue_charge,
}

abbrev pub alone : Store → Store
alone s = s

module _ (service : Service) (call : Call) where
  -- The row of a failure.
  abbrev pub failed : ChargeParams → ServiceError → PaymentCharge
  failed params e = failed_row call params (failure_of service e)

  abbrev pub with_row : PaymentCharge → Store → Store
  with_row c s = record s { charges = s.charges ++ c ∷ [] }

  abbrev pub after_failure : ChargeParams → ServiceError → Store → Store
  after_failure params e s = audit service call payment_charge_failed (failed params e) (
      add_event call.charge_id none (failure_of service e).status PaymentEventSource.manual
        (with_row (failed params e) s))

  abbrev pub after_issue : Contract → AuditAction → PaymentCharge → Store → Store
  after_issue contract action c s =
      let s' =
        add_event c.id none PaymentChargeStatus.issued PaymentEventSource.manual (with_row c s) in
      let shown =
        if has_pix c.method then record_pix_issued_interaction call.now contract c s' else s' in
      audit service call action c (register_agreement_from_issued_charge call.now contract c shown)

  pub after_issue-charges :
      (contract : Contract) (action : AuditAction) (c : PaymentCharge) (s : Store)
      → let s' = after_issue contract action c s in
        (s'.charges ≡ s.charges ++ c ∷ []) × (s'.gateways ≡ s.gateways)
  unfolding record_pix_issued_interaction register_agreement_from_issued_charge
  after_issue-charges contract action c s = ground arith

  module _ (params : ChargeParams) (e : ServiceError) (s : Store) where
    pub fail_used :
        any (same_key params.idempotency_key params.payment_gateway_id) s.charges ≡ true
        → fail service call params e s ≡ (throws unique_violation, s)
    unfolding handle_adapter_error insert_charge
    fail_used h = ground arith

    pub fail_free :
        any (same_key params.idempotency_key params.payment_gateway_id) s.charges ≡ false
        → fail service call params e s ≡ (
          throws (
              not_issued
                (or_default (failure_of service e).failure_code service.provider_not_processed)
                call.charge_id),
          after_failure params e s,
        )
    unfolding handle_adapter_error insert_charge
    fail_free h = ground arith

  module _ (contract : Contract) (action : AuditAction) (c : PaymentCharge) (s : Store) where
    pub persist_used :
        any (same_key c.idempotency_key c.payment_gateway_id) s.charges ≡ true
        → persist_issued service call contract action c s ≡ (throws unique_violation, s)
    unfolding persist_issued insert_charge
    persist_used h = ground arith

    pub persist_free :
        any (same_key c.idempotency_key c.payment_gateway_id) s.charges ≡ false
        → persist_issued service call contract action c s
          ≡ (returns c, after_issue contract action c s)
    unfolding persist_issued insert_charge
    persist_free h = ground arith

  -- How an issue ends: with the issued row, with the row of a failure, or refused by the key.
  module _ (adapter : Adapter) (config : Text) (input : IssueInput) (params : ChargeParams)
      (contract : Contract) (action : AuditAction) (row : IssuedPaymentCharge → PaymentCharge)
      (s : Store)
      (same_keys : (issued : IssuedPaymentCharge)
        → same_key (row issued).idempotency_key (row issued).payment_gateway_id
          ≡ same_key params.idempotency_key params.payment_gateway_id) where
    abbrev issue : Outcome ServiceError PaymentCharge × Store
    issue = issue_charge service call alone adapter config input params contract action row s

    abbrev IsFree : Type 0
    IsFree = any (same_key params.idempotency_key params.payment_gateway_id) s.charges ≡ false

    pub issue_charge-cases :
        ((issued : IssuedPaymentCharge) × IsFree
          × (issue ≡ (returns (row issued), after_issue contract action (row issued) s)))
        ⊎ (((e : ServiceError) × IsFree
              × (issue ≡ (
                throws (
                    not_issued
                      (or_default
                        (failure_of service e).failure_code
                        service.provider_not_processed)
                      call.charge_id),
                after_failure params e s,
              )))
            ⊎ (issue ≡ (throws unique_violation, s)))
    unfolding issue_charge
    issue_charge-cases =
        elim (Bool-cases
          (any (same_key params.idempotency_key params.payment_gateway_id) s.charges)) [
            | inr free ↦ elim (Outcome-cases (adapter.issue input config)) [
              | inl (issued, e) ↦
                  let kept =
                    persist_free contract action (row issued) s (rw (same_keys issued) free) in
                  inl (issued, free, rw (issue_charge, e, kept, kept) refl)
              | inr (error, e) ↦
                  inr (inl (error, free, rw (issue_charge, e) (fail_free params error s free)))
            ]
            | inl used ↦ inr (
                inr (elim (Outcome-cases (adapter.issue input config)) [
                  | inl (issued, e) ↦
                      let refused =
                        persist_used contract action (row issued) s (rw (same_keys issued) used) in
                      rw (issue_charge, e, refused, refused)
                        (fail_used params unique_violation s used)
                  | inr (error, e) ↦ rw (issue_charge, e) (fail_used params error s used)
                ]))
          ]
