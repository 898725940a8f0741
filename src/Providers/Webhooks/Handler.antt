-- ===== src/Providers/Webhooks/Handler.antt =====
-- `handleWebhook` of src/providers/webhooks.service.ts: an event is authenticated, looked for among
-- the events that were stored, stored, matched with a contract and an item, and processed.
use cobdata_back.Base.{
  ℕ, Bool, true, false, not, ◌&&◌, ◌||◌, Option, none, some, List, [], ◌∷◌, ◌++◌, leb, ◌==◌,
  if◌then◌else◌, or_default, or_else, is, is_some, find, any, keep, update_where, Outcome, returns,
  throws, return,
}
use cobdata_back.Contracts.{Text, Date, Contract}
use cobdata_back.Payments.Store.{Store, contract_has_id}
use cobdata_back.Providers.Model.{
  EventType, EventKey, given, of_agreement, of_debt, Channel, ProviderOperationItem, ProviderRow,
  ProviderState, WebhookEvent, WebhookStatus, is_one_of,
}
use cobdata_back.Providers.Payload.{WebhookPayload, positive, date_text, first_debt}
use cobdata_back.Providers.Webhooks.{Handling, process_item_event, process_contract_event}

-- `===` on the names of the events.
abbrev pub event_index : EventType → ℕ
event_index EventType.debt_created = 0
event_index EventType.debt_updated = 1
event_index EventType.debt_removed = 2
event_index EventType.closed_agreement = 3
event_index EventType.breached_agreement = 4
event_index EventType.paid_agreement = 5
event_index EventType.paid_installment = 6
event_index (EventType.other_event name) = 7

abbrev pub same_event : EventType → EventType → Bool
same_event (EventType.other_event a) (EventType.other_event b) = a == b
same_event a b = event_index a == event_index b

abbrev pub same_option : Option ℕ → Option ℕ → Bool
same_option none none = true
same_option (some a) (some b) = a == b
same_option _ _ = false

abbrev pub same_key : EventKey → EventKey → Bool
same_key (given a) (given b) = a == b
same_key (of_agreement e a n d) (of_agreement e' a' n' d') =
    same_event e e' && (a == a' && (same_option n n' && same_option d d'))
same_key (of_debt e a d) (of_debt e' a' d') = same_event e e' && (a == a' && same_option d d')
same_key _ _ = false

unfoldable pub serasa_webhook_idempotency_key : WebhookPayload → Option EventKey
serasa_webhook_idempotency_key payload = elim payload.top.agreement_id [
  | some agreement ↦
      let date =
        or_else payload.payment_date
          (or_else payload.date (or_else payload.breach_date payload.created_at)) in
      some (
        of_agreement payload.event_type agreement (positive payload.top_payment.installment_number)
          (date_text date))
  | none ↦ elim (or_else payload.debt_id (first_debt payload.debt_ids)) [
    | none ↦ none
    | some debt ↦
        if debt == 0
        then none
        else some (of_debt payload.event_type debt (date_text payload.created_at))
  ]
]

-- `transactionId` of the handler.
abbrev pub key_of_event : WebhookPayload → Option EventKey
key_of_event payload = elim payload.transaction_id [
  | none ↦ serasa_webhook_idempotency_key payload
  | some t ↦ some (given t)
]

-- `transactionId_eventType: { transactionId, eventType }`
abbrev pub is_event : EventKey → EventType → WebhookEvent → Bool
is_event key event_type w =
    same_event w.event_type event_type && elim w.key [ none ↦ false | some k ↦ same_key k key ]

-- The transaction id of an item is one that the provider gave.
abbrev pub has_transaction : EventKey → ProviderOperationItem → Bool
has_transaction (given t) i = is i.transaction_id t
has_transaction _ i = false

abbrev pub has_debt_of : Text → List Text → Contract → Bool
has_debt_of account_id debts c =
    c.account_id == account_id
    && (not c.deleted && elim c.debt_id [ none ↦ false | some d ↦ is_one_of debts d ])

abbrev pub has_number_of : Text → Text → Option Text → Contract → Bool
has_number_of account_id number document c =
    c.account_id == account_id
    && (c.contract_number == number
        && (not c.deleted && elim document [ none ↦ true | some d ↦ c.debtor_document == d ]))

abbrev pub has_agreement : Text → Contract → Bool
has_agreement agreement_id c = is c.agreement_reference agreement_id && not c.deleted

abbrev pub first_of : Option Contract → Option Contract → Option Contract
first_of none o = o
first_of (some c) o = some c

abbrev pub debts_of : WebhookPayload → List Text
debts_of payload =
    let rest = keep (λ (d : Text). not (d == 0)) payload.debt_ids in
    elim payload.debt_id [ none ↦ rest | some d ↦ if d == 0 then rest else d ∷ rest ]

-- The contract that the event names by its debts, or by its number.
unfoldable pub named_contract : Text → WebhookPayload → List Contract → Option Contract
named_contract account_id payload contracts =
    first_of (find (has_debt_of account_id (debts_of payload)) contracts)
      (elim payload.contract_number [
        | none ↦ none
        | some number ↦ find (has_number_of account_id number payload.document) contracts
      ])

abbrev pub keyed : Option EventKey → ProviderOperationItem → Bool
keyed none i = true
keyed (some key) i = has_transaction key i

abbrev pub item_of_contract : Option Contract → Option EventKey → ProviderOperationItem → Bool
item_of_contract none key i = false
item_of_contract (some c) key i = i.contract_id == c.id && keyed key i

-- The item of that contract, or any item with the transaction id.
unfoldable pub matched_item :
    Option Contract → Option EventKey → List ProviderOperationItem → Option ProviderOperationItem
matched_item named key items = elim (find (item_of_contract named key) items) [
  | some i ↦ some i
  | none ↦ elim key [ none ↦ none | some k ↦ find (has_transaction k) items ]
]

abbrev pub contract_of_item : Option ProviderOperationItem → List Contract → Option Contract
contract_of_item none contracts = none
contract_of_item (some i) contracts = find (contract_has_id i.contract_id) contracts

-- The contract of the event: the named one, that of the item, or that of the agreement.
abbrev pub matched_contract :
    Option Contract
    → Option ProviderOperationItem
    → WebhookPayload
    → List Contract
    → Option Contract
matched_contract named item payload contracts = first_of named (
    first_of (contract_of_item item contracts)
      (elim payload.top.agreement_id [ none ↦ none | some a ↦ find (has_agreement a) contracts ]))

abbrev pub is_failure : Option ℕ → Bool
is_failure status = leb 400 (or_default status 200)

abbrev pub external_id_of : Option EventKey → WebhookPayload → Option EventKey
external_id_of (some key) payload = some key
external_id_of none payload =
    elim (or_else payload.top.agreement_id
      (or_else payload.debt_id (first_debt payload.debt_ids))) [
        | none ↦ none
        | some t ↦ some (given t)
      ]

unfoldable pub record_serasa_webhook_interaction :
    WebhookPayload → Option EventKey → Text → ProviderState → ProviderState
record_serasa_webhook_interaction payload key contract_id s =
    elim (find (contract_has_id contract_id) s.store.contracts) [
      | none ↦ s
      | some c ↦ record s {
        notes =
            s.notes
            ++ record {
              account_id = c.account_id;
              wallet_id = c.wallet.id;
              contract_id = contract_id;
              channel = Channel.serasa;
              failed = is_failure payload.status;
              external_id = external_id_of key payload;
              reason = none;
              removal_queued = false;
            }
              ∷ [];
      }
    ]

pub data WebhookReply : Type 0 where
  accepted duplicate_event unmatched : WebhookReply

pub data WebhookError : Type 0 where
  invalid_signature : WebhookError

-- The environment: the token of the URL and the secret of the signature.
pub record WebhookConfig : Type 0 where
  pub token : Option Text
  pub secret : Option Text

-- A call: its token, and whether its signature is valid for a secret.
pub record WebhookCall : Type 0 where
  pub token : Option Text
  pub signed : Text → Bool

abbrev pub is_authentic : WebhookConfig → WebhookCall → Bool
is_authentic config call =
    elim config.token [ none ↦ false | some t ↦ not (t == 0) && is call.token t ]
    || elim config.secret [ none ↦ false | some k ↦ not (k == 0) && call.signed k ]

abbrev pub set_event : Text → WebhookStatus → ProviderState → ProviderState
set_event id status s = record s {
  webhook_events =
      update_where (λ (w : WebhookEvent). w.id == id) (λ w. record w { status = status })
        s.webhook_events;
}

abbrev pub store_event : Text → WebhookPayload → ProviderState → ProviderState
store_event id payload s = record s {
  webhook_events =
      s.webhook_events
      ++ record {
        id = id;
        event_type = payload.event_type;
        key = key_of_event payload;
        status = WebhookStatus.received;
      }
        ∷ [];
}

abbrev pub is_known_event : WebhookPayload → ProviderState → Bool
is_known_event payload s = elim (key_of_event payload) [
  | none ↦ false
  | some key ↦ any (is_event key payload.event_type) s.webhook_events
]

module _ (reference : Text → EventType → Option ℕ → Option Text → Text) (now : Date)
    (meanwhile : Store → Store) (payload : WebhookPayload) where
  abbrev pub process_matched : Option ProviderOperationItem → Option Contract → Handling
  process_matched (some item) contract = process_item_event reference now meanwhile payload item
  process_matched none (some c) = process_contract_event reference now meanwhile payload c.id
  process_matched none none = return tt

  abbrev pub note_matched : Option Contract → ProviderState → ProviderState
  note_matched none s = s
  note_matched (some c) s = record_serasa_webhook_interaction payload (key_of_event payload) c.id s

  -- The `try` of the handler: an error leaves the event as RECEIVED.
  unfoldable pub process_stored :
      Text → Option ProviderOperationItem → Option Contract → ProviderState → ProviderState
  process_stored id item contract s =
      let (r, s') = process_matched item contract s in
      elim r [
        | returns done ↦ set_event id WebhookStatus.processed (note_matched contract s')
        | throws e ↦ s'
      ]

  abbrev pub handle_new : Text → ProviderRow → ProviderState → WebhookReply × ProviderState
  handle_new id provider s =
      let named = named_contract provider.account_id payload s.store.contracts in
      let item = matched_item named (key_of_event payload) s.items in
      let contract = matched_contract named item payload s.store.contracts in
      if not (is_some item) && not (is_some contract)
      then (unmatched, set_event id WebhookStatus.unmatched s)
      else (accepted, process_stored id item contract s)

  -- `id` is the id of the row of the event.
  unfoldable pub handle_webhook :
      WebhookConfig
      → WebhookCall
      → Text
      → ProviderState
      → Outcome WebhookError WebhookReply × ProviderState
  handle_webhook config call id s =
      if not (is_authentic config call)
      then (throws invalid_signature, s)
      else elim (find (λ (p : ProviderRow). true) s.providers) [
        | none ↦ (returns accepted, s)
        | some provider ↦
            if is_known_event payload s
            then (returns duplicate_event, s)
            else (let (reply, s') = handle_new id provider (store_event id payload s) in
                (returns reply, s'))
      ]
