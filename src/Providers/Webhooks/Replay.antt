-- ===== src/Providers/Webhooks/Replay.antt =====
-- An event that is delivered again, after the first delivery was processed or has failed.
use cobdata_back.Base.{
  ℕ, ◌≡◌, refl, ap, Bool, true, false, ◌||◌, Option, none, some, inl, inr, arith, ◌==◌, ==_refl,
  Bool-cases, Outcome-cases, is_some, find, any, any-append, any-update_where, returns, throws,
}
use cobdata_back.Contracts.{Text, Date, Contract}
use cobdata_back.Payments.Store.{Store}
use cobdata_back.Payments.Factory.{ServiceError}
use cobdata_back.Providers.Model.{
  EventType, EventKey, given, of_agreement, of_debt, ProviderOperationItem, ProviderRow,
  ProviderState, WebhookStatus,
}
use cobdata_back.Providers.Payload.{WebhookPayload}
use cobdata_back.Providers.Webhooks.{
  process_item_event, process_debt_created_event, process_debt_removed_event,
  process_agreement_event, process_contract_event, record_serasa_payment, update_agreement_status,
  mark_agreement_paid, mark_installment_paid,
}
use cobdata_back.Providers.Webhooks.Handler.{
  WebhookConfig, WebhookCall, accepted, duplicate_event, same_event, same_option, same_key,
  key_of_event, is_event, is_authentic, handle_webhook, handle_new, process_stored, process_matched,
  note_matched, record_serasa_webhook_interaction, store_event, set_event, named_contract,
  matched_item, matched_contract,
}

same_event_refl : (e : EventType) → same_event e e ≡ true
same_event_refl EventType.debt_created = refl
same_event_refl EventType.debt_updated = refl
same_event_refl EventType.debt_removed = refl
same_event_refl EventType.closed_agreement = refl
same_event_refl EventType.breached_agreement = refl
same_event_refl EventType.paid_agreement = refl
same_event_refl EventType.paid_installment = refl
same_event_refl (EventType.other_event name) = ==_refl name

same_option_refl : (o : Option ℕ) → same_option o o ≡ true
same_option_refl none = refl
same_option_refl (some a) = ==_refl a

same_key_refl : (k : EventKey) → same_key k k ≡ true
same_key_refl (given a) = ==_refl a
same_key_refl (of_agreement e a n d) =
    ground (arith, same_event_refl e, ==_refl a, same_option_refl n, same_option_refl d)
same_key_refl (of_debt e a d) = ground (arith, same_event_refl e, ==_refl a, same_option_refl d)

-- What the handling of an event does not touch.
record Same (s t : ProviderState) : Type 0 where
  events : t.webhook_events ≡ s.webhook_events
  providers : t.providers ≡ s.providers

module _ (reference : Text → EventType → Option ℕ → Option Text → Text) (now : Date)
    (meanwhile : Store → Store) (payload : WebhookPayload) where
  process_agreement_event-Same :
      (contract_id : Text) (s : ProviderState)
      → Same s (process_agreement_event reference now meanwhile payload contract_id s).1
  unfolding process_agreement_event record_serasa_payment update_agreement_status
      mark_agreement_paid mark_installment_paid
  process_agreement_event-Same contract_id s = ground arith

  process_matched-Same :
      (item : Option ProviderOperationItem) (contract : Option Contract) (s : ProviderState)
      → Same s (process_matched reference now meanwhile payload item contract s).1
  unfolding process_item_event process_debt_created_event process_debt_removed_event
      process_contract_event
  process_matched-Same none none s = record { events = refl; providers = refl }
  process_matched-Same none (some c) s = ground (arith, process_agreement_event-Same c.id s)
  process_matched-Same (some i) contract s =
      ground (arith, process_agreement_event-Same i.contract_id s)

  note_matched-Same :
      (contract : Option Contract) (s : ProviderState)
      → Same s (note_matched reference now meanwhile payload contract s)
  unfolding record_serasa_webhook_interaction
  note_matched-Same none s = record { events = refl; providers = refl }
  note_matched-Same (some c) s = ground arith

  module _ (id : Text) (key : EventKey) where
    abbrev knows : ProviderState → Bool
    knows s = any (is_event key payload.event_type) s.webhook_events

    set_event-knows :
        (status : WebhookStatus) (s : ProviderState) → knows (set_event id status s) ≡ knows s
    set_event-knows status s =
        any-update_where (is_event key payload.event_type) (λ w. w.id == id)
          (λ w. record w { status = status }) (λ w. refl) s.webhook_events

    -- A stored event stays stored, whatever comes of it.
    process_stored-knows :
        (item : Option ProviderOperationItem) (contract : Option Contract) (s : ProviderState)
        → let t = process_stored reference now meanwhile payload id item contract s in
          (knows t ≡ knows s) × (t.providers ≡ s.providers)
    unfolding process_stored
    process_stored-knows item contract s =
        let m = process_matched reference now meanwhile payload item contract s in
        let noted = note_matched reference now meanwhile payload contract m.1 in
        elim (Outcome-cases m.0) [
          | inl (done, e) ↦ ground (
            arith,
            e,
            process_matched-Same item contract s,
            note_matched-Same contract m.1,
            set_event-knows WebhookStatus.processed noted,
          )
          | inr (error, e) ↦ ground (arith, e, process_matched-Same item contract s)
        ]

    store_event-knows :
        (s : ProviderState)
        → key_of_event payload ≡ some key
        → knows (store_event id payload s) ≡ true
    store_event-knows s e =
        rw (any-append (is_event key payload.event_type) s.webhook_events _)
          (ground (arith, e, same_event_refl payload.event_type, same_key_refl key))

    handle_new-knows :
        (provider : ProviderRow) (s : ProviderState)
        → let t = (handle_new reference now meanwhile payload id provider s).1 in
          (knows t ≡ knows s) × (t.providers ≡ s.providers)
    handle_new-knows provider s =
        let named = named_contract provider.account_id payload s.store.contracts in
        let item = matched_item named (key_of_event payload) s.items in
        ground (
          arith,
          set_event-knows WebhookStatus.unmatched s,
          process_stored-knows item (matched_contract named item payload s.store.contracts) s,
        )

  module _ (config : WebhookConfig) (call : WebhookCall) (key : EventKey) (provider : ProviderRow)
      (authentic : is_authentic config call ≡ true)
      (has_key : key_of_event payload ≡ some key) where
    known_again :
        (id : Text) (s : ProviderState)
        → find (λ (p : ProviderRow). true) s.providers ≡ some provider
        → any (is_event key payload.event_type) s.webhook_events ≡ true
        → handle_webhook reference now meanwhile payload config call id s
          ≡ (returns duplicate_event, s)
    unfolding handle_webhook
    known_again id s e h = ground (arith, authentic, has_key, e, h)

    first_delivery :
        (id : Text) (s : ProviderState)
        → find (λ (p : ProviderRow). true) s.providers ≡ some provider
        → let t = (handle_webhook reference now meanwhile payload config call id s).1 in
          (any (is_event key payload.event_type) t.webhook_events ≡ true)
          × (t.providers ≡ s.providers)
    unfolding handle_webhook
    first_delivery id s e =
        elim (Bool-cases (any (is_event key payload.event_type) s.webhook_events)) [
          | inl h ↦ ground (arith, authentic, has_key, e, h)
          | inr h ↦ ground (
            arith,
            authentic,
            has_key,
            e,
            h,
            store_event-knows id key s,
            handle_new-knows id key provider (store_event id payload s),
          )
        ]

    -- An event of which a key can be made, delivered again: the second delivery changes nothing,
    -- whatever the first one did with the event.
    pub handle_webhook_twice :
        (id id' : Text) (s : ProviderState)
        → find (λ (p : ProviderRow). true) s.providers ≡ some provider
        → let t = (handle_webhook reference now meanwhile payload config call id s).1 in
          handle_webhook reference now meanwhile payload config call id' t
          ≡ (returns duplicate_event, t)
    handle_webhook_twice id id' s e =
        let t = (handle_webhook reference now meanwhile payload config call id s).1 in
        let first = first_delivery id s e in known_again id' t (rw first.1 e) first.0

    fails_first :
        (id : Text) (s s' : ProviderState) (error : ServiceError)
        → find (λ (p : ProviderRow). true) s.providers ≡ some provider
        → any (is_event key payload.event_type) s.webhook_events ≡ false
        → let named = named_contract provider.account_id payload s.store.contracts in
          let item = matched_item named (key_of_event payload) s.items in
          let contract = matched_contract named item payload s.store.contracts in
          (is_some item || is_some contract) ≡ true
          → process_matched reference now meanwhile payload item contract (store_event id payload s)
            ≡ (throws error, s')
          → handle_webhook reference now meanwhile payload config call id s ≡ (returns accepted, s')
    unfolding handle_webhook process_stored
    fails_first id s s' error e new matched fails =
        ground (arith, authentic, has_key, e, new, matched, fails)

    -- An event whose processing fails is answered as accepted and stays stored, so that it is taken
    -- for a duplicate when the provider delivers it again: it is never processed.
    pub handle_webhook_lost :
        (id id' : Text) (s s' : ProviderState) (error : ServiceError)
        → find (λ (p : ProviderRow). true) s.providers ≡ some provider
        → any (is_event key payload.event_type) s.webhook_events ≡ false
        → let named = named_contract provider.account_id payload s.store.contracts in
          let item = matched_item named (key_of_event payload) s.items in
          let contract = matched_contract named item payload s.store.contracts in
          (is_some item || is_some contract) ≡ true
          → process_matched reference now meanwhile payload item contract (store_event id payload s)
            ≡ (throws error, s')
          → (handle_webhook reference now meanwhile payload config call id s
              ≡ (returns accepted, s'))
            × (handle_webhook reference now meanwhile payload config call id' s'
                ≡ (returns duplicate_event, s'))
    handle_webhook_lost id id' s s' error e new matched fails =
        let first = fails_first id s s' error e new matched fails in
        (
          first,
          known_again id' s'
              (ground (arith, e, ap (λ r. r.1.providers) first, (first_delivery id s e).1))
              (ground (arith, ap (λ r. r.1) first, (first_delivery id s e).0)),
        )
