-- ===== src/Providers/Webhooks.antt =====
-- src/providers/webhooks.service.ts: the events of Serasa. This file has what they
-- write to a contract and to the item of an operation.
pub mod Handler
pub mod Replay
use cobdata_back.Base.{
  ℕ, zero, suc, ◌+◌, max, Bool, true, false, not, ◌&&◌, ◌||◌, Option, none, some, List, [], ◌∷◌,
  pos, leb, ltb, ◌==◌, if◌then◌else◌, or_default, or_else, is, is_some, find, Outcome, returns,
  throws, Method, return, modify, ◌>>=◌, ◌>>◌,
}
use cobdata_back.Contracts.{
  Text, Date, Contract, PaymentStatus, SerasaStatus, Installment, same_payment_status,
}
use cobdata_back.Payments.Store.{Store, contract_has_id}
use cobdata_back.Payments.Factory.{ServiceError}
use cobdata_back.Payments.Settlement.{Provider, PaymentSettlementEvent, process_event}
use cobdata_back.Providers.Model.{
  OperationItemStatus, ErrorCode, EventType, ProviderOperationItem, ProviderState, item_has_id,
  update_contracts, update_items, with_serasa,
}
use cobdata_back.Providers.Requests.{non_empty}
use cobdata_back.Providers.Payload.{
  RawDate, AgreementFields, PaymentFields, WebhookPayload, AgreementProjection, positive, first_due,
  agreement_projection, projected, payment_of, installment_number_of, scheduled_for,
  scheduled_installment_amount, is_paid_agreement, amount_of_column, payment_amount, first_debt,
  parsed_date, date_text,
}

abbrev pub Handling : Type 0
Handling = Method ProviderState ServiceError (Unit {0})

abbrev pub on_contract : Text → (Contract → Contract) → Handling
on_contract id f = modify (update_contracts (contract_has_id id) f)

abbrev pub on_item : Text → (ProviderOperationItem → ProviderOperationItem) → Handling
on_item id f = modify (update_items (item_has_id id) f)

-- `reference` writes the text `${agreement}:${event}:${number}:${date}`, `now` is the clock, and
-- `meanwhile` what others write during the call of the settlement processor.
module _ (reference : Text → EventType → Option ℕ → Option Text → Text) (now : Date)
    (meanwhile : Store → Store) (payload : WebhookPayload) where
  abbrev pub settlement_event : Text → Contract → ℕ → PaymentSettlementEvent
  settlement_event contract_id c amount =
      let number = installment_number_of payload in
      let raw_date = or_else payload.payment_date (or_else payload.date payload.paid_at) in
      let agreement = or_else (agreement_projection payload).reference c.agreement_reference in
      record {
        provider = Provider.serasa_lnop;
        external_event_id = or_default payload.transaction_id (
            reference (or_default agreement contract_id) payload.event_type number
              (date_text raw_date));
        external_transaction_id = payload.transaction_id;
        contract_reference = contract_id;
        agreement_reference = agreement;
        installment_number = number;
        amount = amount;
        paid_at = or_default (parsed_date raw_date) now;
        provider_payload = none;
      }

  unfoldable pub record_serasa_payment : Text → Handling
  record_serasa_payment contract_id s =
      elim (find (contract_has_id contract_id) s.store.contracts) [
        | none ↦ (returns tt, s)
        | some c ↦ elim (payment_amount payload c) [
          | none ↦ (returns tt, s)
          | some amount ↦
              let (r, store) =
                process_event meanwhile (settlement_event contract_id c amount) c.account_id
                  s.store in
              (r, record s { store = store })
        ]
      ]

  abbrev pub closed_status : Option ℕ → PaymentStatus
  closed_status none = PaymentStatus.in_agreement
  closed_status (some n) = if ltb 1 n then PaymentStatus.installment else PaymentStatus.in_agreement

  unfoldable pub update_agreement_status : Text → Handling
  update_agreement_status contract_id =
      let p = agreement_projection payload in
      on_contract contract_id (λ c. projected p (record c {
        payment_status = closed_status p.total_installments;
        agreement_created_at = some now;
      }))

  unfoldable pub mark_agreement_paid : Text → Handling
  mark_agreement_paid contract_id =
      let raw_date = or_else payload.date (or_else payload.payment_date payload.paid_at) in
      on_contract contract_id (λ c. projected (agreement_projection payload) (record c {
        payment_status = PaymentStatus.paid_off;
        last_payment_at = some (or_default (parsed_date raw_date) now);
        total_paid_amount = or_default c.agreement_total_amount c.total_paid_amount;
        paid_installments = or_default c.total_installments c.paid_installments;
      }))

  abbrev pub paid_count : Contract → ℕ
  paid_count c = elim (installment_number_of payload) [
    | none ↦ c.paid_installments + 1
    | some n ↦ max c.paid_installments n
  ]

  abbrev pub is_fully_paid : Contract → Bool
  is_fully_paid c =
      elim (or_else (agreement_projection payload).total_installments
        (positive c.total_installments)) [ none ↦ false | some total ↦ leb total (paid_count c) ]

  unfoldable pub mark_installment_paid : Text → Handling
  mark_installment_paid contract_id = on_contract contract_id (λ c.
      projected (agreement_projection payload) (record c {
        payment_status =
            if is_fully_paid c
            then PaymentStatus.paid_off
            else if same_payment_status c.payment_status PaymentStatus.in_agreement
            then PaymentStatus.in_agreement
            else PaymentStatus.installment;
        paid_installments = paid_count c;
      }))

  unfoldable pub process_agreement_event : Text → Handling
  process_agreement_event contract_id = elim payload.event_type [
    | EventType.closed_agreement ↦ update_agreement_status contract_id
    | EventType.breached_agreement ↦ on_contract contract_id (λ c.
        projected (agreement_projection payload)
          (record c { payment_status = PaymentStatus.agreement_breached }))
    | EventType.paid_agreement ↦
        record_serasa_payment contract_id >> mark_agreement_paid contract_id
    | EventType.paid_installment ↦
        record_serasa_payment contract_id >> mark_installment_paid contract_id
    | _ ↦ return tt
  ]

  -- A status that is missing counts as 0.
  abbrev pub http_status : ℕ
  http_status = or_default payload.status 0

  abbrev pub webhook_error : ErrorCode
  webhook_error = elim (non_empty payload.error_code) [
    | none ↦ ErrorCode.http http_status
    | some code ↦ ErrorCode.of_provider code
  ]

  abbrev pub failed_item : ProviderOperationItem → ProviderOperationItem
  failed_item i = record i { status = OperationItemStatus.failed; error_code = some webhook_error }

  abbrev pub confirmed_item : OperationItemStatus → ProviderOperationItem → ProviderOperationItem
  confirmed_item status i = record i {
    status = status;
    debt_id = or_else (non_empty payload.debt_id) i.debt_id;
  }

  abbrev pub registered_contract : Contract → Contract
  registered_contract c = record c {
    serasa_status = SerasaStatus.registered;
    debt_id = or_else (non_empty payload.debt_id) c.debt_id;
  }

  unfoldable pub process_debt_created_event : ProviderOperationItem → Handling
  process_debt_created_event item =
      if http_status == 201
      then on_item item.id (confirmed_item OperationItemStatus.registered)
        >> on_contract item.contract_id registered_contract
      else if http_status == 204
      then on_item item.id (confirmed_item OperationItemStatus.updated)
        >> on_contract item.contract_id registered_contract
      else on_item item.id failed_item
        >> on_contract item.contract_id (with_serasa SerasaStatus.failed)

  unfoldable pub process_debt_removed_event : ProviderOperationItem → Handling
  process_debt_removed_event item =
      if http_status == 200 || http_status == 404
      then on_item item.id (λ i. record i { status = OperationItemStatus.removed })
        >> on_contract item.contract_id (with_serasa SerasaStatus.removed)
      else on_item item.id failed_item

  -- An event of an operation's item. An update of a debt is none of the known events here.
  unfoldable pub process_item_event : ProviderOperationItem → Handling
  process_item_event item = elim payload.event_type [
    | EventType.debt_created ↦ process_debt_created_event item
    | EventType.debt_removed ↦ process_debt_removed_event item
    | EventType.debt_updated ↦ return tt
    | EventType.other_event name ↦ return tt
    | _ ↦ process_agreement_event item.contract_id
  ]

  abbrev pub accepted_status : ℕ → Bool
  accepted_status status = leb 200 status && ltb status 300

  abbrev pub registered_outside : Contract → Contract
  registered_outside c = record c {
    serasa_status = SerasaStatus.registered;
    debt_id = or_else (or_else payload.debt_id (first_debt payload.debt_ids)) c.debt_id;
  }

  abbrev pub process_inclusion : Text → Handling
  process_inclusion contract_id =
      if accepted_status (or_default payload.status 201)
      then on_contract contract_id registered_outside
      else on_contract contract_id (with_serasa SerasaStatus.failed)

  -- An event of a contract that no operation of the program explains.
  unfoldable pub process_contract_event : Text → Handling
  process_contract_event contract_id = elim payload.event_type [
    | EventType.debt_created ↦ process_inclusion contract_id
    | EventType.debt_updated ↦ process_inclusion contract_id
    | EventType.debt_removed ↦
        if accepted_status (or_default payload.status 200) || is payload.status 404
        then on_contract contract_id (with_serasa SerasaStatus.removed)
        else return tt
    | EventType.other_event name ↦ return tt
    | _ ↦ process_agreement_event contract_id
  ]
