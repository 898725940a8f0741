-- ===== src/Payments/PixWebhook/Tests.antt =====
-- Runs of the webhook on one payment, for a contract that is registered at Serasa.
use cobdata_back.Base.{
  ℕ, ◌≡◌, ◌+◌, ◌*◌, refl, true, false, some, [], ◌∷◌, sum_where, length, returns, throws,
}
use cobdata_back.Contracts.{ContractStatus, SerasaStatus}
use cobdata_back.Payments.Store.{settles_charge, settlement_amount}
use cobdata_back.Payments.Fixtures.{contract, charge, store, says_paid}
use cobdata_back.Payments.Lifecycle.{transition_to_paid}
use cobdata_back.Payments.Lifecycle.Cycle.{no_result}
use cobdata_back.Payments.PixWebhook.{
  BbPixWebhookEntry, process_pix_entry, process_pix_webhook, process_entries, ensure_settlement,
  confirm_payment, record_pix_paid_interaction, refresh_contract_payment_projection,
}
use cobdata_back.Payments.PixWebhook.Steps.{alone}
use cobdata_back.Payments.PixWebhook.Replay.{process_pix_entry_twice, with_history}
use cobdata_back.Payments.PixWebhook.Twice.{job_then_webhook_settles_twice}
use cobdata_back.Providers.Model.{ProviderState, with_serasa}
use cobdata_back.Providers.Operations.{
  Ids, create_for_contract, submit, jobs_from, contract_not_found,
}
use cobdata_back.Providers.Removal.{create_automatic_removal_for_paid_contract}

abbrev entry : BbPixWebhookEntry
entry = record { end_to_end_id = 91; txid = 21; valor = 9000; horario = 33 }

abbrev ids : Ids
ids = record { operation = 100; item = λ n. 200 + n }

abbrev more_ids : ℕ → Ids
more_ids n = record { operation = 300 + n; item = λ k. 400 + 10 * n + k }

abbrev state : ProviderState
state = record {
  store = record store { contracts = with_serasa SerasaStatus.registered contract ∷ [] };
  operations = [];
  items = [];
  jobs = [];
  notes = [];
  webhook_events = [];
  wallets = record { id = 2; account_id = 7; deleted = false } ∷ [];
  providers = record { id = 8; account_id = 7; credentials = 9; production = true } ∷ [];
  users = record { id = 6; account_id = 7; is_active = true } ∷ [];
}

-- The contract was cancelled, but its debt is still registered.
abbrev cancelled_state : ProviderState
cancelled_state = record state {
  store = record store {
    contracts =
        record (with_serasa SerasaStatus.registered contract) { status = ContractStatus.cancelled }
        ∷ [];
  };
}

-- Two deliveries of the payment in one payload ask for one removal.
delivers :
    length (process_pix_webhook 99 alone alone more_ids (some (entry ∷ entry ∷ [])) state).jobs ≡ 1
unfolding process_pix_webhook process_entries process_pix_entry confirm_payment ensure_settlement
    record_pix_paid_interaction refresh_contract_payment_projection
    create_automatic_removal_for_paid_contract create_for_contract submit jobs_from
delivers = refl

-- The removal of the cancelled contract throws, and the history does not show the payment.
delivery_throws :
    let r = process_pix_entry 99 alone alone ids entry cancelled_state in
    (r.0 ≡ throws contract_not_found) × (r.1.store.interactions ≡ [])
unfolding process_pix_entry confirm_payment ensure_settlement record_pix_paid_interaction
    refresh_contract_payment_projection create_automatic_removal_for_paid_contract
    create_for_contract submit
delivery_throws = (refl, refl)

process_pix_entry_twice_example :
    let first = process_pix_entry 99 alone alone ids entry cancelled_state in
    let second = process_pix_entry 99 alone alone (more_ids 1) entry first.1 in
    (second.0 ≡ returns tt)
    × (first.0 ≡ returns tt → second.1 ≡ first.1)
    × (second.1 ≡ with_history second.1.store first.1)
    × (process_pix_entry 99 alone alone (more_ids 2) entry second.1 ≡ (returns tt, second.1))
process_pix_entry_twice_example =
    process_pix_entry_twice 99 entry ids (more_ids 1) (more_ids 2) cancelled_state

job_then_webhook_settles_twice_example :
    sum_where
      (settles_charge 5)
      settlement_amount
      (process_pix_entry 99 alone alone ids entry (record state {
        store =
            (transition_to_paid 45 charge says_paid
              (record { store = store; result = no_result })).store;
      })).1.store.settlements
    ≡ 9000 + 9000
job_then_webhook_settles_twice_example =
    job_then_webhook_settles_twice 99 ids entry refl 45 charge says_paid
      (record { store = store; result = no_result }) state refl refl refl refl refl
