-- ===== src/Payments/PixWebhook/Steps.antt =====
-- What each step of the webhook changes and what it leaves alone.
use cobdata_back.Base.{
  ◌≡◌, ◌⊎◌, refl, ap, Bool, true, false, none, some, arith, any, any-append, find,
  find-update_where, find-passes, Bool-cases, inl, inr, if◌then◌else◌, Option-cases, Outcome,
  returns, throws, ◌∙◌,
}
use cobdata_back.Payments.Model.{Text, PaymentCharge, PaymentSettlementSource, Contract, pix_paid}
use cobdata_back.Payments.Store.{Store, contract_has_id, settles, interaction_of}
use cobdata_back.Payments.PixWebhook.{
  BbPixWebhookEntry, refresh_contract_payment_projection, record_pix_paid_interaction,
  ensure_settlement, is_covered, with_projection, project_contract, recorded, with_settlement,
}
use cobdata_back.Payments.PixWebhook.Removals.{Keeps, Keeps-refl, removal-Keeps}
use cobdata_back.Providers.Model.{ProviderState}
use cobdata_back.Providers.Operations.{Ids, OperationError}
use cobdata_back.Providers.Removal.{create_automatic_removal_for_paid_contract}

abbrev pub alone : ProviderState → ProviderState
alone w = w

-- The history of the contract shows the payment, unless there is no such contract.
abbrev pub IsRecorded : Text → Text → Store → Type 0
IsRecorded contract_id key s =
    (any (interaction_of contract_id (pix_paid key)) s.interactions ≡ true)
    ⊎ (find (contract_has_id contract_id) s.contracts ≡ none)

module _ (charge : PaymentCharge) (entry : BbPixWebhookEntry) (s : Store) where
  pub record-IsRecorded :
      IsRecorded charge.contract_id entry.end_to_end_id (record_pix_paid_interaction charge entry s)
  unfolding record_pix_paid_interaction
  record-IsRecorded = grind (arith, any-append)

  pub record-rest :
      let s' = record_pix_paid_interaction charge entry s in
      (s'.charges ≡ s.charges)
      × (s'.settlements ≡ s.settlements)
      × (s'.contracts ≡ s.contracts)
      × (s'.events ≡ s.events)
  unfolding record_pix_paid_interaction
  record-rest = ground arith

  -- A payment that the history shows is not shown again.
  pub record_again :
      IsRecorded charge.contract_id entry.end_to_end_id s
      → record_pix_paid_interaction charge entry s ≡ s
  unfolding record_pix_paid_interaction
  record_again h = ground arith

with_projection-id :
    (contract_id : Text) (s : Store) (contract c : Contract)
    → (with_projection contract_id s contract c).id ≡ c.id
with_projection-id contract_id s contract c = ground arith

module _ (charge : PaymentCharge) (entry : BbPixWebhookEntry) where
  -- The line in the history, unless what came before threw.
  abbrev pub then_recorded :
      Outcome OperationError (Unit {0}) × ProviderState
      → Outcome OperationError (Unit {0}) × ProviderState
  then_recorded r = elim r.0 [
    | returns u ↦ (returns tt, recorded charge entry r.1)
    | throws e ↦ (throws e, r.1)
  ]

  pub then_recorded-rest :
      (r : Outcome OperationError (Unit {0}) × ProviderState)
      → let t = then_recorded r in
        (t.1.store.charges ≡ r.1.store.charges)
        × (t.1.store.settlements ≡ r.1.store.settlements)
        × (t.1.store.contracts ≡ r.1.store.contracts)
        × (t.1.store.events ≡ r.1.store.events)
        × (t.0 ≡ returns tt → IsRecorded charge.contract_id entry.end_to_end_id t.1.store)
  then_recorded-rest (returns u, w) =
      let r = record-rest charge entry w.store in
      (r.0, r.1, r.2, r.3, λ h. record-IsRecorded charge entry w.store)
  then_recorded-rest (throws e, w) = (refl, refl, refl, refl, λ h. absurd (ground (arith, h)))

either_Keeps :
    (b : Bool) (s : Store) (q r : Outcome OperationError (Unit {0}) × ProviderState)
    → Keeps s q.1.store
    → Keeps s r.1.store
    → Keeps s (if b then q else r).1.store
either_Keeps true s q r h k = h
either_Keeps false s q r h k = k

-- The settlement of the payment is there.
abbrev pub IsSettled : BbPixWebhookEntry → ProviderState → Type 0
IsSettled entry w =
    any (settles PaymentSettlementSource.pix entry.end_to_end_id) w.store.settlements ≡ true

module _ (ids : Ids) (contract_id : Text) (w : ProviderState) where
  abbrev pub refreshed : ProviderState
  refreshed = (refresh_contract_payment_projection ids contract_id w).1

  -- The removal that a covered contract is due.
  abbrev pub removal_if_covered : Contract → Outcome OperationError (Unit {0}) × ProviderState
  removal_if_covered contract =
      if is_covered contract_id w.store contract
      then create_automatic_removal_for_paid_contract ids contract.id contract.account_id
          (project_contract contract_id contract w)
      else (returns tt, project_contract contract_id contract w)

  pub removal_if_covered-Keeps :
      (contract : Contract)
      → Keeps (project_contract contract_id contract w).store (removal_if_covered contract).1.store
  removal_if_covered-Keeps contract =
      either_Keeps (is_covered contract_id w.store contract)
        (project_contract contract_id contract w).store
        (create_automatic_removal_for_paid_contract ids contract.id contract.account_id
          (project_contract contract_id contract w))
        (returns tt, project_contract contract_id contract w)
        (removal-Keeps ids contract.id contract.account_id
          (project_contract contract_id contract w))
        (Keeps-refl (project_contract contract_id contract w).store)

  pub refresh_found :
      (contract : Contract)
      → find (contract_has_id contract_id) w.store.contracts ≡ some contract
      → refresh_contract_payment_projection ids contract_id w ≡ removal_if_covered contract
  unfolding refresh_contract_payment_projection
  refresh_found contract found = rw (refresh_contract_payment_projection, found) refl

  refresh_absent :
      find (contract_has_id contract_id) w.store.contracts ≡ none
      → refresh_contract_payment_projection ids contract_id w ≡ (returns tt, w)
  unfolding refresh_contract_payment_projection
  refresh_absent absent = rw (refresh_contract_payment_projection, absent) refl

  pub refresh-rest :
      (refreshed.store.charges ≡ w.store.charges)
      × (refreshed.store.settlements ≡ w.store.settlements)
      × (refreshed.store.events ≡ w.store.events)
  refresh-rest = elim (Option-cases (find (contract_has_id contract_id) w.store.contracts)) [
    | inl e ↦
        let same = refresh_absent e in
        (
          ap (λ r. r.1.store.charges) same,
          ap (λ r. r.1.store.settlements) same,
          ap (λ r. r.1.store.events) same,
        )
    | inr (contract, e) ↦
        let k = removal_if_covered-Keeps contract in
        let same = refresh_found contract e in
        (
          ap (λ r. r.1.store.charges) same ∙ k.charges,
          ap (λ r. r.1.store.settlements) same ∙ k.settlements,
          ap (λ r. r.1.store.events) same ∙ k.events,
        )
  ]

  module _ (contract : Contract)
      (found : find (contract_has_id contract_id) w.store.contracts ≡ some contract) where
    pub project-contract :
        find (contract_has_id contract_id) (project_contract contract_id contract w).store.contracts
        ≡ some (with_projection contract_id w.store contract contract)
    project-contract =
        rw
          (
            find-update_where (contract_has_id contract_id) (contract_has_id contract_id)
                (with_projection contract_id w.store contract)
                (λ c. rw (with_projection-id contract_id w.store contract c) refl)
                w.store.contracts,
            found,
            find-passes (contract_has_id contract_id) w.store.contracts contract found,
          )
          refl

module _ (ids : Ids) (charge : PaymentCharge) (entry : BbPixWebhookEntry) where
  abbrev pub refresh_then_record : ProviderState → Outcome OperationError (Unit {0}) × ProviderState
  refresh_then_record w =
      then_recorded charge entry (refresh_contract_payment_projection ids charge.contract_id w)

  refresh_then_record-rest :
      (w : ProviderState)
      → IsSettled entry w
      → let t = refresh_then_record w in
        (t.1.store.charges ≡ w.store.charges)
        × (t.1.store.events ≡ w.store.events)
        × IsSettled entry t.1
        × (t.0 ≡ returns tt → IsRecorded charge.contract_id entry.end_to_end_id t.1.store)
  refresh_then_record-rest w settled =
      let r = refresh-rest ids charge.contract_id w in
      let t =
        then_recorded-rest charge entry
          (refresh_contract_payment_projection ids charge.contract_id w) in
      (t.0 ∙ r.0, t.3 ∙ r.2, rw (t.1 ∙ r.1) settled, t.4)

  pub with_settlement-IsSettled :
      (w : ProviderState) → IsSettled entry (with_settlement charge entry w).1
  with_settlement-IsSettled w = grind (arith, any-append)

  ensured-cases :
      (w : ProviderState)
      → (t : ProviderState) × IsSettled entry t
        × (t.store.charges ≡ w.store.charges)
        × (t.store.events ≡ w.store.events)
        × (ensure_settlement alone ids charge entry w ≡ refresh_then_record t)
  unfolding ensure_settlement
  ensured-cases w =
      elim (Bool-cases
        (any (settles PaymentSettlementSource.pix entry.end_to_end_id) w.store.settlements)) [
          | inl e ↦ (w, e, refl, refl, rw (ensure_settlement, e) refl)
          | inr e ↦ (
            (with_settlement charge entry w).1,
            with_settlement-IsSettled w,
            ground (arith, e),
            ground (arith, e),
            rw (ensure_settlement, e) refl,
          )
        ]

  pub ensure-rest :
      (w : ProviderState)
      → let t = ensure_settlement alone ids charge entry w in
        (t.1.store.charges ≡ w.store.charges)
        × (t.1.store.events ≡ w.store.events)
        × IsSettled entry t.1
        × (t.0 ≡ returns tt → IsRecorded charge.contract_id entry.end_to_end_id t.1.store)
  ensure-rest w =
      let (t, settled, charges, events, e) = ensured-cases w in
      let r = refresh_then_record-rest t settled in rw e (r.0 ∙ charges, r.1 ∙ events, r.2, r.3)
