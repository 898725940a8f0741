-- ===== src/Payments/PixWebhook/Replay.antt =====
-- A webhook that the bank delivers again.
use cobdata_back.Base.{
  ◌≡◌, ◌⊎◌, refl, ap, ◌∙◌, false, some, arith, any, any_of_found, find, find-update_where, ◌||◌,
  ◌==◌, ==_refl, Bool-cases, Option-cases, inl, inr, Outcome, returns,
}
use cobdata_back.Payments.Model.{Text, PaymentCharge, PaymentSettlementSource}
use cobdata_back.Payments.Store.{Store, settles}
use cobdata_back.Payments.PixWebhook.{
  BbPixWebhookEntry, charge_has_txid, is_unchanged, paid_row, mark_paid, confirm_payment, on_store,
  recorded, process_pix_entry, record_pix_paid_interaction, ensure_settlement, is_paid,
}
use cobdata_back.Payments.PixWebhook.Steps.{
  alone, IsRecorded, record_again, record-IsRecorded, record-rest, ensure-rest, then_recorded,
  then_recorded-rest, IsSettled,
}
use cobdata_back.Providers.Model.{ProviderState}
use cobdata_back.Providers.Operations.{Ids, OperationError, Service}

abbrev pub marked : Text → PaymentCharge → BbPixWebhookEntry → ProviderState → ProviderState
marked concluida charge entry w = on_store (mark_paid concluida charge entry) w

-- The state with the history of another one.
abbrev pub with_history : Store → ProviderState → ProviderState
with_history s w = on_store (λ t. record t { interactions = s.interactions }) w

module _ (concluida : Text) (entry : BbPixWebhookEntry) where
  abbrev process : Ids → Service (Unit {0})
  process ids = process_pix_entry concluida alone alone ids entry

  module _ (charge : PaymentCharge) (s : Store)
      (found : find (charge_has_txid entry.txid) s.charges ≡ some charge) where
    pub find-mark_paid :
        find (charge_has_txid entry.txid) (mark_paid concluida charge entry s).charges
        ≡ some (paid_row concluida entry charge)
    find-mark_paid =
        rw
          (
            find-update_where (charge_has_txid entry.txid) (is_unchanged charge)
                (paid_row concluida entry) (λ c. refl) s.charges,
            found,
            ==_refl charge.id,
            ==_refl charge.version,
          )
          refl

  module _ (ids : Ids) (charge : PaymentCharge) (w : ProviderState)
      (found : find (charge_has_txid entry.txid) w.store.charges ≡ some charge) where
    pub confirm_fresh :
        confirm_payment concluida alone ids charge entry w
        ≡ then_recorded charge entry
            (ensure_settlement alone ids charge entry (marked concluida charge entry w))
    unfolding confirm_payment
    confirm_fresh =
        rw
          (
            confirm_payment,
            any_of_found (charge_has_txid entry.txid) (is_unchanged charge) w.store.charges charge
                found (ground (arith, ==_refl charge.id, ==_refl charge.version)),
          )
          refl

  -- The payment is settled and its charge is known, as after any delivery that found the charge.
  abbrev IsKnown : PaymentCharge → ProviderState → Type 0
  IsKnown charge w =
      IsSettled entry w × (find (charge_has_txid entry.txid) w.store.charges ≡ some charge)

  module _ (given : (entry.txid == 0 || entry.end_to_end_id == 0) ≡ false) where
    -- A payment that is known is only recorded in the history.
    process_known :
        (ids : Ids) (charge : PaymentCharge) (w : ProviderState)
        → IsKnown charge w
        → process ids w ≡ (returns tt, recorded charge entry w)
    unfolding process_pix_entry
    process_known ids charge w known = rw (process_pix_entry, given, known.0, known.1) refl

    recorded-IsKnown :
        (charge : PaymentCharge) (w : ProviderState)
        → IsKnown charge w
        → IsKnown charge (recorded charge entry w)
    recorded-IsKnown charge w known =
        let r = record-rest charge entry w.store in (rw r.1 known.0, rw r.0 known.1)

  -- What a delivery left that found the charge.
  record Handled (r : Outcome OperationError (Unit {0}) × ProviderState) : Type 0 where
    given : (entry.txid == 0 || entry.end_to_end_id == 0) ≡ false
    charge : PaymentCharge
    known : IsKnown charge r.1
    shown : r.0 ≡ returns tt → IsRecorded charge.contract_id entry.end_to_end_id r.1.store

  module _ (ids : Ids) (w : ProviderState)
      (given : (entry.txid == 0 || entry.end_to_end_id == 0) ≡ false) (charge : PaymentCharge)
      (found : find (charge_has_txid entry.txid) w.store.charges ≡ some charge) where
    paid-Handled : Handled (ensure_settlement alone ids charge entry w)
    paid-Handled =
        let r = ensure-rest ids charge entry w in
        record { given = given; charge = charge; known = (r.2, rw r.0 found); shown = r.3 }

    confirmed-Handled : Handled (confirm_payment concluida alone ids charge entry w)
    confirmed-Handled =
        let e = ensure-rest ids charge entry (marked concluida charge entry w) in
        let t =
          then_recorded-rest charge entry
            (ensure_settlement alone ids charge entry (marked concluida charge entry w)) in
        rw (confirm_fresh ids charge w found) (record {
          given = given;
          charge = paid_row concluida entry charge;
          known = (rw t.1 e.2, rw (t.0 ∙ e.0) (find-mark_paid charge w.store found));
          shown = t.4;
        })

  process-cases :
      (ids : Ids) (w : ProviderState)
      → ((ids' : Ids) → process ids' w ≡ (returns tt, w)) ⊎ Handled (process ids w)
  unfolding process_pix_entry
  process-cases ids w = elim (Bool-cases (entry.txid == 0 || entry.end_to_end_id == 0)) [
    | inl empty ↦ inl (λ ids'. rw (process_pix_entry, empty) refl)
    | inr given ↦ elim (Option-cases (find (charge_has_txid entry.txid) w.store.charges)) [
      | inl absent ↦ inl (λ ids'. ground (arith, given, absent))
      | inr (charge, found) ↦
          elim (Bool-cases
            (any (settles PaymentSettlementSource.pix entry.end_to_end_id) w.store.settlements)) [
              | inl known ↦ inr (
                  rw (process_known given ids charge w (known, found)) (record {
                    given = given;
                    charge = charge;
                    known = recorded-IsKnown given charge w (known, found);
                    shown = λ h. record-IsRecorded charge entry w.store;
                  }))
              | inr new ↦ elim (Bool-cases (is_paid charge)) [
                | inl paid ↦ inr (
                    rw (process_pix_entry, given, new, found, paid)
                      (paid-Handled ids w given charge found))
                | inr unpaid ↦ inr (
                    rw (process_pix_entry, given, new, found, unpaid)
                      (confirmed-Handled ids w given charge found))
              ]
            ]
    ]
  ]

  history_only :
      (charge : PaymentCharge) (s : Store)
      → record_pix_paid_interaction charge entry s
        ≡ record s { interactions = (record_pix_paid_interaction charge entry s).interactions }
  unfolding record_pix_paid_interaction
  history_only charge s = ground arith

  recorded_only :
      (charge : PaymentCharge) (w : ProviderState)
      → recorded charge entry w ≡ with_history (recorded charge entry w).store w
  unfolding record_pix_paid_interaction
  recorded_only charge w = ap (λ s. record w { store = s }) (history_only charge w.store)

  -- A payment is delivered, delivered again, and again. The second delivery does not throw and changes
  -- nothing where the first one returned; where the first one threw, as the removal of the debt at
  -- Serasa may, the second changes nothing but the history, so that it asks for no removal. The
  -- third one changes nothing.
  pub process_pix_entry_twice :
      (ids ids' ids'' : Ids) (w : ProviderState)
      → let first = process_pix_entry concluida alone alone ids entry w in
        let second = process_pix_entry concluida alone alone ids' entry first.1 in
        (second.0 ≡ returns tt)
        × (first.0 ≡ returns tt → second.1 ≡ first.1)
        × (second.1 ≡ with_history second.1.store first.1)
        × (process_pix_entry concluida alone alone ids'' entry second.1 ≡ (returns tt, second.1))
  process_pix_entry_twice ids ids' ids'' w = elim (process-cases ids w) [
    | inl same ↦ rw (same ids, same ids', same ids'') (refl, λ h. refl, refl, refl)
    | inr h ↦
        let c = h.charge in
        let t = (process ids w).1 in
        let second = process_known h.given ids' c t h.known in
        let again = record_again c entry in
        let third =
          process_known h.given ids'' c (recorded c entry t)
            (recorded-IsKnown h.given c t h.known) in
        rw second (
          refl,
          λ r. ap (λ s. record t { store = s }) (again t.store (h.shown r)),
          recorded_only c t,
          third
              ∙ ap (λ s. (returns tt, record t { store = s }))
                  (again (recorded c entry t).store (record-IsRecorded c entry t.store)),
        )
  ]
