-- ===== src/Payments/PixWebhook.antt =====
-- src/payments/webhooks/bb-pix-webhook.service.ts: the payments that Banco do Brasil reports. The
-- amount and the date of an entry are taken as parsed. A removal that throws makes an entry throw.
pub mod Removals
pub mod Steps
pub mod Replay
pub mod Confirm
pub mod Twice
mod Tests
use cobdata_back.Base.{
  ℕ, ◌+◌, Bool, true, false, Option, none, some, List, [], ◌∷◌, ◌++◌, leb, ltb, ◌==◌, ◌||◌, ◌&&◌,
  if◌then◌else◌, or_else, is, is_some, find, any, update_where, length, returns, modify, ◌>>◌,
}
use cobdata_back.Payments.Model.{
  Text, Date, PaymentCharge, PaymentChargeStatus, PaymentSettlement, PaymentSettlementSource,
  PaymentSettlementStatus, PaymentEventSource, PaymentStatus, Contract, pix_paid, same_status,
}
use cobdata_back.Payments.Store.{
  Store, charge_has_id, contract_has_id, settles, interaction_of, confirmed_total, last_confirmed,
  insert_settlement, add_event, add_interaction, update_contract,
}
use cobdata_back.Providers.Model.{ProviderState}
use cobdata_back.Providers.Operations.{Ids, Service}
use cobdata_back.Providers.Removal.{create_automatic_removal_for_paid_contract}

-- interface BbPixWebhookEntry
pub record BbPixWebhookEntry : Type 0 where
  pub end_to_end_id : Text
  pub txid : Text
  pub valor : ℕ
  pub horario : Date

abbrev pub charge_has_txid : Text → PaymentCharge → Bool
charge_has_txid t c = is c.txid t

abbrev pub is_paid : PaymentCharge → Bool
is_paid c = same_status c.status PaymentChargeStatus.paid

-- `orderBy: { paidAt: 'desc' }`: the database puts a null date first.
abbrev pub is_later : Option Date → Option Date → Bool
is_later none b = false
is_later (some a) none = true
is_later (some a) (some b) = ltb a b

-- The first row, in that order, that passes the test.
abbrev pub find_latest : (PaymentCharge → Bool) → List PaymentCharge → Option PaymentCharge
find_latest p [] = none
find_latest p (c ∷ cs) =
    let rest = find_latest p cs in
    if p c
    then elim rest [ none ↦ some c | some d ↦ some (if is_later c.paid_at d.paid_at then d else c) ]
    else rest

abbrev pub paid_charge_of : Text → Store → Option PaymentCharge
paid_charge_of contract_id s =
    find_latest (λ c. c.contract_id == contract_id && is_paid c) s.charges

-- The amount that pays the contract off.
abbrev pub target_amount : Contract → Option PaymentCharge → ℕ
target_amount contract none = contract.updated_value
target_amount contract (some c) = c.amount

abbrev pub with_payment : ℕ → Option Date → Option PaymentCharge → Bool → Contract → Contract
with_payment total last none fully_paid c = record c {
  total_paid_amount = total;
  last_payment_at = last;
  payment_status = if fully_paid then PaymentStatus.paid_off else c.payment_status;
}
with_payment total last (some charge) fully_paid c = record c {
  total_paid_amount = total;
  last_payment_at = last;
  agreed_payment_amount = some charge.amount;
  accepted_discount_percent = some charge.discount_percent;
  payment_status = if fully_paid then PaymentStatus.paid_off else c.payment_status;
}

-- What the settlements make of the contract.
abbrev pub is_covered : Text → Store → Contract → Bool
is_covered contract_id s contract =
    leb (target_amount contract (paid_charge_of contract_id s)) (confirmed_total contract_id s)

abbrev pub with_projection : Text → Store → Contract → Contract → Contract
with_projection contract_id s contract =
    with_payment (confirmed_total contract_id s)
      (or_else (last_confirmed contract_id s) contract.last_payment_at)
      (paid_charge_of contract_id s) (is_covered contract_id s contract)

-- A change of the tables of the payments.
abbrev pub on_store : (Store → Store) → ProviderState → ProviderState
on_store f w = record w { store = f w.store }

abbrev pub project_contract : Text → Contract → ProviderState → ProviderState
project_contract contract_id contract w =
    on_store (update_contract contract_id (with_projection contract_id w.store contract)) w

-- `ids` are the new ids for the removal of a debt.
unfoldable pub refresh_contract_payment_projection : Ids → Text → Service (Unit {0})
refresh_contract_payment_projection ids contract_id w =
    elim (find (contract_has_id contract_id) w.store.contracts) [
      | none ↦ (returns tt, w)
      | some contract ↦
          if is_covered contract_id w.store contract
          then create_automatic_removal_for_paid_contract ids contract.id contract.account_id
              (project_contract contract_id contract w)
          else (returns tt, project_contract contract_id contract w)
    ]

unfoldable pub record_pix_paid_interaction : PaymentCharge → BbPixWebhookEntry → Store → Store
record_pix_paid_interaction charge entry s =
    if any (interaction_of charge.contract_id (pix_paid entry.end_to_end_id)) s.interactions
    then s
    else elim (find (contract_has_id charge.contract_id) s.contracts) [
      | none ↦ s
      | some contract ↦
          add_interaction
            (record {
              account_id = contract.account_id;
              wallet_id = contract.wallet.id;
              contract_id = charge.contract_id;
              external_id = pix_paid entry.end_to_end_id;
              amount = entry.valor;
              payment_charge_id = charge.id;
              txid = charge.txid;
              source = some PaymentEventSource.webhook;
              occurred_at = entry.horario;
            })
            s
    ]

abbrev pub settlement_of : PaymentCharge → BbPixWebhookEntry → PaymentSettlement
settlement_of charge entry = record {
  account_id = charge.account_id;
  contract_id = charge.contract_id;
  payment_charge_id = some charge.id;
  agreement_reference = none;
  installment_number = none;
  source = PaymentSettlementSource.pix;
  status = PaymentSettlementStatus.confirmed;
  amount = entry.valor;
  paid_at = entry.horario;
  external_payment_id = entry.end_to_end_id;
  channel_event_id = none;
  debt_reference = none;
  provider_payload = none;
}

abbrev pub recorded : PaymentCharge → BbPixWebhookEntry → ProviderState → ProviderState
recorded charge entry w = on_store (record_pix_paid_interaction charge entry) w

abbrev pub with_settlement :
    PaymentCharge → BbPixWebhookEntry → ProviderState → Bool × ProviderState
with_settlement charge entry w =
    let (created, s) = insert_settlement (settlement_of charge entry) w.store in
    (created, record w { store = s })

-- `before_insert` is what others write before the insertion of a settlement.
module _ (before_insert : ProviderState → ProviderState) (ids : Ids) where
  abbrev pub refresh_and_record : PaymentCharge → BbPixWebhookEntry → Service (Unit {0})
  refresh_and_record charge entry =
      refresh_contract_payment_projection ids charge.contract_id >> modify (recorded charge entry)

  unfoldable pub ensure_settlement : PaymentCharge → BbPixWebhookEntry → Service (Unit {0})
  ensure_settlement charge entry w =
      if any (settles PaymentSettlementSource.pix entry.end_to_end_id) w.store.settlements
      then refresh_and_record charge entry w
      else (let (created, w') = with_settlement charge entry (before_insert w) in
          if created
          then refresh_and_record charge entry w'
          else refresh_contract_payment_projection ids charge.contract_id w')

  -- The branch P2025: the row has changed since it was read.
  abbrev pub after_conflict : PaymentCharge → BbPixWebhookEntry → Service (Unit {0})
  after_conflict charge entry w = elim (find (charge_has_id charge.id) w.store.charges) [
    | none ↦ (returns tt, w)
    | some refreshed ↦
        if is_paid refreshed then ensure_settlement refreshed entry w else (returns tt, w)
  ]

abbrev pub is_unchanged : PaymentCharge → PaymentCharge → Bool
is_unchanged charge c = c.id == charge.id && c.version == charge.version

-- The row of a charge that is paid; `concluida` is the text CONCLUIDA.
abbrev pub paid_row : Text → BbPixWebhookEntry → PaymentCharge → PaymentCharge
paid_row concluida entry c = record c {
  status = PaymentChargeStatus.paid;
  paid_at = some entry.horario;
  external_status = some concluida;
  version = c.version + 1;
}

-- The update of the charge, and the event.
abbrev pub mark_paid : Text → PaymentCharge → BbPixWebhookEntry → Store → Store
mark_paid concluida charge entry s =
    add_event charge.id (some charge.status) PaymentChargeStatus.paid PaymentEventSource.webhook
      (record s {
        charges = update_where (is_unchanged charge) (paid_row concluida entry) s.charges;
      })

module _ (concluida : Text) (before_insert : ProviderState → ProviderState) (ids : Ids) where
  unfoldable pub confirm_payment : PaymentCharge → BbPixWebhookEntry → Service (Unit {0})
  confirm_payment charge entry w =
      if any (is_unchanged charge) w.store.charges
      then (ensure_settlement before_insert ids charge entry >> modify (recorded charge entry))
          (on_store (mark_paid concluida charge entry) w)
      else after_conflict before_insert ids charge entry w

-- `before_update` is what others write before the update of a charge.
module _ (concluida : Text) (before_update before_insert : ProviderState → ProviderState) where
  unfoldable pub process_pix_entry : Ids → BbPixWebhookEntry → Service (Unit {0})
  process_pix_entry ids entry w =
      if entry.txid == 0 || entry.end_to_end_id == 0
      then (returns tt, w)
      else if any (settles PaymentSettlementSource.pix entry.end_to_end_id) w.store.settlements
      then elim (find (charge_has_txid entry.txid) w.store.charges) [
        | none ↦ (returns tt, w)
        | some charge ↦ (returns tt, recorded charge entry w)
      ]
      else elim (find (charge_has_txid entry.txid) w.store.charges) [
        | none ↦ (returns tt, w)
        | some charge ↦
            if is_paid charge
            then ensure_settlement before_insert ids charge entry w
            else confirm_payment concluida before_insert ids charge entry (before_update w)
      ]

  -- An entry that throws is logged, and the next one follows. `ids n` are the new ids for the entry
  -- that has `n` entries after it.
  process_entries : (ℕ → Ids) → List BbPixWebhookEntry → ProviderState → ProviderState
  process_entries ids [] w = w
  process_entries ids (entry ∷ rest) w =
      process_entries ids rest (process_pix_entry (ids (length rest)) entry w).1

  -- `none` is a payload with no array of entries.
  unfoldable pub process_pix_webhook :
      (ℕ → Ids) → Option (List BbPixWebhookEntry) → ProviderState → ProviderState
  unfolding process_entries
  process_pix_webhook ids none w = w
  process_pix_webhook ids (some entries) w = process_entries ids entries w
