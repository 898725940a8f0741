-- ===== src/Payments/Settlement/Replay.antt =====
-- An event that the provider sends again, and two deliveries that race.
use cobdata_back.Base.{◌≡◌, ◌⊎◌, true, arith, any, any-append, returns, throws}
use cobdata_back.Payments.Model.{Text}
use cobdata_back.Payments.Store.{Store, settles}
use cobdata_back.Payments.Factory.{unique_violation}
use cobdata_back.Payments.Settlement.{
  PaymentSettlementEvent, map_provider_to_source, process_event, process_reversal,
}

abbrev alone : Store → Store
alone s = s

module _ (event : PaymentSettlementEvent) (account_id : Text) (s : Store) where
  -- An event that is handled a second time changes nothing and throws nothing.
  pub process_event_twice :
      process_event alone event account_id (process_event alone event account_id s).1
      ≡ (returns tt, (process_event alone event account_id s).1)
  unfolding process_event
  process_event_twice = grind (arith, any-append)

  -- A reversal that is handled a second time changes nothing and throws nothing.
  pub process_reversal_twice :
      process_reversal alone event account_id (process_reversal alone event account_id s).1
      ≡ (returns tt, (process_reversal alone event account_id s).1)
  unfolding process_reversal
  process_reversal_twice = grind (arith, any-append)

  -- Where another delivery of the event was recorded between the check and the insertion, the
  -- call either changes nothing or throws the violation of the unique key and leaves what the
  -- other delivery wrote.
  pub process_event_raced :
      (meanwhile : Store → Store)
      → any
          (settles (map_provider_to_source event.provider) event.external_event_id)
          (meanwhile s).settlements
        ≡ true
      → ((process_event meanwhile event account_id s).1 ≡ s)
        ⊎ (process_event meanwhile event account_id s ≡ (throws unique_violation, meanwhile s))
  unfolding process_event
  process_event_raced meanwhile taken = ground arith
