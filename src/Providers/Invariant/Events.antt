-- ===== src/Providers/Invariant/Events.antt =====
-- An event of Serasa keeps the items sound.
use cobdata_back.Base.{
  ℕ, ◌≡◌, refl, Bool, true, false, Option, none, some, List, arith, inl, inr, Option-cases, find,
  update_where,
}
use cobdata_back.Contracts.{Text, Date, Contract}
use cobdata_back.Payments.Store.{Store}
use cobdata_back.Providers.Model.{
  EventType, OperationItemStatus, ProviderOperationItem, ProviderRow, ProviderState, is_pending,
  item_has_id,
}
use cobdata_back.Providers.Processor.Queries.{All-trivial}
use cobdata_back.Providers.Payload.{WebhookPayload}
use cobdata_back.Providers.Webhooks.{
  process_item_event, process_debt_created_event, process_debt_removed_event,
  process_agreement_event, process_contract_event, record_serasa_payment, update_agreement_status,
  mark_agreement_paid, mark_installment_paid, confirmed_item, failed_item,
}
use cobdata_back.Providers.Webhooks.Handler.{
  WebhookConfig, WebhookCall, handle_webhook, process_stored, record_serasa_webhook_interaction,
  store_event, named_contract, matched_item, matched_contract, key_of_event,
}
use cobdata_back.Providers.Invariant.{IsSound, Stays, update-IsSound}

module _ (reference : Text → EventType → Option ℕ → Option Text → Text) (now : Date)
    (meanwhile : Store → Store) (payload : WebhookPayload) where
  -- An event moves an item to no status that is pending.
  event-IsSound :
      (q : ProviderOperationItem → Bool) (f : ProviderOperationItem → ProviderOperationItem)
      → Stays f
      → ((i : ProviderOperationItem) → ((f i).attempts ≡ i.attempts) × (is_pending (f i) ≡ false))
      → (items : List ProviderOperationItem) → IsSound items
      → IsSound (update_where q f items)
  event-IsSound q f stays moves items sound =
      update-IsSound q f stays items (All-trivial _ (λ i e h. ground (arith, moves i)) items) sound

  process_agreement_event-items :
      (contract_id : Text) (s : ProviderState)
      → (process_agreement_event reference now meanwhile payload contract_id s).1.items ≡ s.items
  unfolding process_agreement_event record_serasa_payment update_agreement_status
      mark_agreement_paid mark_installment_paid
  process_agreement_event-items contract_id s = ground arith

  process_item_event-IsSound :
      (item : ProviderOperationItem) (s : ProviderState)
      → IsSound s.items
      → IsSound (process_item_event reference now meanwhile payload item s).1.items
  unfolding process_item_event process_debt_created_event process_debt_removed_event
  process_item_event-IsSound item s sound =
      let change =
        λ (f : ProviderOperationItem → ProviderOperationItem) (stays : Stays f)
            (moves : (i : ProviderOperationItem)
              → ((f i).attempts ≡ i.attempts) × (is_pending (f i) ≡ false)).
          event-IsSound (item_has_id item.id) f stays moves s.items sound in
      ground (
        arith,
        process_agreement_event-items item.contract_id s,
        change (confirmed_item reference now meanwhile payload OperationItemStatus.registered)
            (record { id = λ i. refl; operation = λ i. refl; batch = λ i. refl })
            (λ i. (refl, refl)),
        change (confirmed_item reference now meanwhile payload OperationItemStatus.updated)
            (record { id = λ i. refl; operation = λ i. refl; batch = λ i. refl })
            (λ i. (refl, refl)),
        change (failed_item reference now meanwhile payload)
            (record { id = λ i. refl; operation = λ i. refl; batch = λ i. refl })
            (λ i. (refl, refl)),
        change (λ i. record i { status = OperationItemStatus.removed })
            (record { id = λ i. refl; operation = λ i. refl; batch = λ i. refl })
            (λ i. (refl, refl)),
      )

  process_contract_event-items :
      (contract_id : Text) (s : ProviderState)
      → (process_contract_event reference now meanwhile payload contract_id s).1.items ≡ s.items
  unfolding process_contract_event
  process_contract_event-items contract_id s =
      ground (arith, process_agreement_event-items contract_id s)

  process_stored-IsSound :
      (id : Text) (item : Option ProviderOperationItem) (contract : Option Contract)
      (s : ProviderState)
      → IsSound s.items
      → IsSound (process_stored reference now meanwhile payload id item contract s).items
  unfolding process_stored record_serasa_webhook_interaction
  process_stored-IsSound id none none s sound = ground arith
  process_stored-IsSound id none (some c) s sound =
      ground (arith, process_contract_event-items c.id s)
  process_stored-IsSound id (some i) none s sound =
      ground (arith, process_item_event-IsSound i s sound)
  process_stored-IsSound id (some i) (some c) s sound =
      ground (arith, process_item_event-IsSound i s sound)

  pub handle_webhook-IsSound :
      (config : WebhookConfig) (call : WebhookCall) (id : Text) (s : ProviderState)
      → IsSound s.items
      → IsSound (handle_webhook reference now meanwhile payload config call id s).1.items
  unfolding handle_webhook
  handle_webhook-IsSound config call id s sound =
      elim (Option-cases (find (λ (p : ProviderRow). true) s.providers)) [
        | inl e ↦ ground (arith, e)
        | inr (provider, e) ↦
            let named = named_contract provider.account_id payload s.store.contracts in
            let item = matched_item named (key_of_event payload) s.items in
            ground (
              arith,
              e,
              process_stored-IsSound id item (matched_contract named item payload s.store.contracts)
                  (store_event id payload s) sound,
            )
      ]
