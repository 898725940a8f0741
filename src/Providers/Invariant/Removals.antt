-- ===== src/Providers/Invariant/Removals.antt =====
-- The job that sends removals again keeps the items sound, and sends none that had five attempts.
use cobdata_back.Base.{
  ◌≡◌, refl, Bool, true, false, List, [], ◌∷◌, arith, leb, ◌==◌, any, update_where, All, All-keep,
  All-take, All-order_by, All-append, Distinct, has_key,
}
use cobdata_back.Contracts.{Date}
use cobdata_back.Providers.Model.{
  OperationItemStatus, ErrorCode, ProviderOperationItem, ProviderState, item_has_id,
}
use cobdata_back.Providers.Operations.{fail_with}
use cobdata_back.Providers.Removal.{
  is_claimable, is_stale_removal, is_timed, last_attempt, stale_removals, reconcile_item,
  reconcile_items, reconcile_stale_serasa_removals, removal_max_attempts,
}
use cobdata_back.Providers.Processor.Queries.{All-weaken, row_id}
use cobdata_back.Providers.Invariant.{IsSound, update-IsSound}
use cobdata_back.Providers.Invariant.Effects.{fail_with-IsSound}

-- The rows with an item's id have had as many attempts as it.
abbrev pub Agrees : List ProviderOperationItem → ProviderOperationItem → Type 0
Agrees items c = All (λ x. (x.id == c.id) ≡ true → x.attempts ≡ c.attempts) items

-- A change that touches neither ids nor attempts.
abbrev Keeps : (ProviderOperationItem → ProviderOperationItem) → Type 0
Keeps f = (i : ProviderOperationItem) → ((f i).id ≡ i.id) × ((f i).attempts ≡ i.attempts)

update-Agrees :
    (q : ProviderOperationItem → Bool) (f : ProviderOperationItem → ProviderOperationItem)
    → Keeps f
    → (c : ProviderOperationItem) (xs : List ProviderOperationItem) → Agrees xs c
    → Agrees (update_where q f xs) c
update-Agrees q f keeps c [] h = tt
update-Agrees q f keeps c (x ∷ xs) h =
    (λ e. ground (arith, keeps x, h.0), update-Agrees q f keeps c xs h.1)

Agrees-new :
    (c : ProviderOperationItem) (xs : List ProviderOperationItem)
    → any (has_key row_id c.id) xs ≡ false
    → Agrees xs c
Agrees-new c [] h = tt
Agrees-new c (x ∷ xs) h = (λ e. ground arith, Agrees-new c xs (ground arith))

-- Where the ids differ, the rows agree with themselves.
Distinct-Agrees : (xs : List ProviderOperationItem) → Distinct row_id xs → All (Agrees xs) xs
Distinct-Agrees [] d = tt
Distinct-Agrees (x ∷ xs) d =
    ((λ e. refl, Agrees-new x xs d.0), more xs d.0 (Distinct-Agrees xs d.1))
  where
    more :
        (ys : List ProviderOperationItem)
        → any (has_key row_id x.id) ys ≡ false
        → All (Agrees xs) ys
        → All (Agrees (x ∷ xs)) ys
    more [] e h = tt
    more (y ∷ ys) e h = ((λ g. ground arith, h.0), more ys (ground arith) h.1)

abbrev pending_again : ProviderOperationItem → ProviderOperationItem
pending_again x = record x { status = OperationItemStatus.pending }

send_again-IsSound :
    (c : ProviderOperationItem) (items : List ProviderOperationItem)
    → leb removal_max_attempts c.attempts ≡ false
    → Agrees items c
    → IsSound items
    → IsSound (update_where (is_claimable c.id) pending_again items)
send_again-IsSound c items few agrees sound =
    update-IsSound (is_claimable c.id) pending_again
      (record { id = λ i. refl; operation = λ i. refl; batch = λ i. refl }) items
      (All-weaken _ _ (λ i a e h. ground (arith, a)) items agrees) sound

reconcile_item-Agrees :
    (now : Date) (c d : ProviderOperationItem) (s : ProviderState)
    → Agrees s.items d
    → Agrees (reconcile_item now c s).items d
unfolding reconcile_item
reconcile_item-Agrees now c d s h = ground (
  arith,
  update-Agrees (item_has_id c.id) (fail_with ErrorCode.removal_webhook_timeout) (λ i. (refl, refl))
      d s.items h,
  update-Agrees (is_claimable c.id) pending_again (λ i. (refl, refl)) d s.items h,
)

reconcile_item-IsSound :
    (now : Date) (c : ProviderOperationItem) (s : ProviderState)
    → Agrees s.items c
    → IsSound s.items
    → IsSound (reconcile_item now c s).items
unfolding reconcile_item
reconcile_item-IsSound now c s agrees sound = ground (
  arith,
  fail_with-IsSound s sound (item_has_id c.id) ErrorCode.removal_webhook_timeout,
  send_again-IsSound c s.items,
)

abbrev pub alone : ProviderOperationItem → ProviderState → ProviderState
alone _ s = s

reconcile_items-IsSound :
    (now : Date) (cs : List ProviderOperationItem) (s : ProviderState)
    → All (Agrees s.items) cs
    → IsSound s.items
    → IsSound (reconcile_items alone now cs s).items
unfolding reconcile_items
reconcile_items-IsSound now [] s agrees sound = sound
reconcile_items-IsSound now (c ∷ cs) s agrees sound =
    reconcile_items-IsSound now cs (reconcile_item now c s)
      (All-weaken _ _ (λ d h. reconcile_item-Agrees now c d s h) cs agrees.1)
      (reconcile_item-IsSound now c s agrees.0 sound)

stale_removals-All :
    (P : ProviderOperationItem → Type 0) (s : ProviderState)
    → All P s.items
    → All P (stale_removals s)
unfolding stale_removals
stale_removals-All P s h =
    let candidates = All-keep P (is_stale_removal s) s.items h in
    All-take P 100 _ (
      All-append P _ _ (All-order_by P last_attempt _ (All-keep P is_timed _ candidates))
        (All-keep P _ _ candidates))

pub reconcile-IsSound :
    (now : Date) (s : ProviderState)
    → IsSound s.items
    → IsSound (reconcile_stale_serasa_removals alone now s).items
unfolding reconcile_stale_serasa_removals
reconcile-IsSound now s sound =
    reconcile_items-IsSound now (stale_removals s) s
      (stale_removals-All (Agrees s.items) s (Distinct-Agrees s.items sound.distinct)) sound
