-- ===== src/Providers/Processor/Completion.antt =====
-- A job leaves no item of its batch pending, and the last job of an operation gives the operation
-- the status that sums up its items.
use cobdata_back.Base.{
  ℕ, ◌≡◌, refl, Bool, true, false, not, ◌&&◌, inl, inr, some, List, arith, ◌==◌, Bool-cases, find,
  any, keep, length,
}
use cobdata_back.Contracts.{Text}
use cobdata_back.Providers.Model.{
  OperationStatus, OperationItemStatus, ProviderOperation, ProviderOperationItem, ProviderState,
  operation_has_id, is_pending, is_failed, is_item_of, is_pending_of, is_failed_of,
  same_operation_status, same_item_status,
}
use cobdata_back.Providers.Processor.{final_status, update_operation_status_if_complete}
use cobdata_back.Providers.Processor.Queries.{
  any-update_where_every, All-of_any, All-compose, length-keep_zero, length-keep_pos,
  length-keep_eq, length-keep_ne, find-updated,
}
use cobdata_back.Providers.Processor.Answer.{is_reply, Attempt}

-- Tests that only pending items pass.
abbrev pub Pends : (ProviderOperationItem → Bool) → Type 0
Pends r = (i : ProviderOperationItem) → is_pending i ≡ false → r i ≡ false

pub is_reply-not_pending :
    (status : OperationItemStatus)
    → is_reply status ≡ true
    → same_item_status status OperationItemStatus.pending ≡ false
is_reply-not_pending OperationItemStatus.pending h = cc
is_reply-not_pending OperationItemStatus.waiting_provider_event h = refl
is_reply-not_pending OperationItemStatus.registered h = refl
is_reply-not_pending OperationItemStatus.updated h = refl
is_reply-not_pending OperationItemStatus.removed h = refl
is_reply-not_pending OperationItemStatus.failed h = refl

-- An attempt clears what only pending items pass, if it covers the items that do.
pub Attempt-clears :
    (p r : ProviderOperationItem → Bool) (before after : List ProviderOperationItem)
    → Attempt p before after
    → Pends r
    → any (λ i. r i && not (p i)) before ≡ false
    → any r after ≡ false
Attempt-clears p r before after a pends h = rw a.equation (
    any-update_where_every r a.test a.change
      (λ i. pends (a.change i) (is_reply-not_pending _ (a.answers i).answered)) before
      (All-compose r p a.test before (All-of_any r p before h) a.covers))

-- What the status of an operation says of its items: COMPLETED that none has failed, FAILED that
-- all have, PARTIALLY_FAILED that some have and some have not.
abbrev pub Sums : Text → List ProviderOperationItem → OperationStatus → Type 0
Sums k items OperationStatus.completed = any (is_failed_of k) items ≡ false
Sums k items OperationStatus.failed =
    (any (is_failed_of k) items ≡ true)
    × (any (λ i. is_item_of k i && not (is_failed i)) items ≡ false)
Sums k items OperationStatus.partially_failed =
    (any (is_failed_of k) items ≡ true)
    × (any (λ i. is_item_of k i && not (is_failed i)) items ≡ true)
Sums k items _ = ⊥

module _ (k : Text) (s : ProviderState) where
  abbrev failed_items : ℕ
  failed_items = length (keep (is_failed_of k) s.items)

  abbrev total_items : ℕ
  total_items = length (keep (is_item_of k) s.items)

  abbrev has_failed : Bool
  has_failed = any (is_failed_of k) s.items

  abbrev has_not_failed : Bool
  has_not_failed = any (λ i. is_item_of k i && not (is_failed i)) s.items

  failed_items_pos : has_failed ≡ true → (failed_items == 0) ≡ false
  failed_items_pos h = ground (arith, length-keep_zero (is_failed_of k) s.items)

  failed_items-total : (b : Bool) → has_not_failed ≡ b → (failed_items == total_items) ≡ not b
  failed_items-total true h = ground (arith, length-keep_eq (is_item_of k) is_failed s.items)
  failed_items-total false h = ground (arith, length-keep_ne (is_item_of k) is_failed s.items)

  final_status-Sums : Sums k s.items (final_status k s)
  final_status-Sums = elim (Bool-cases has_failed) [
    | inr none_failed ↦ rw (length-keep_pos (is_failed_of k) s.items none_failed) none_failed
    | inl some_failed ↦ elim (Bool-cases has_not_failed) [
      | inr all_failed ↦
          rw (failed_items_pos some_failed)
            (rw (failed_items-total false all_failed) (some_failed, all_failed))
      | inl some_not ↦
          rw (failed_items_pos some_failed)
            (rw (failed_items-total true some_not) (some_failed, some_not))
    ]
  ]

pub update_operation_status_if_complete-items :
    (k : Text) (s : ProviderState) → (update_operation_status_if_complete k s).items ≡ s.items
unfolding update_operation_status_if_complete
update_operation_status_if_complete-items k s = ground arith

-- An operation that is not cancelled, and whose status sums up its items once none is pending.
pub record Ends (k : Text) (s : ProviderState) : Type 0 where
  pub operation : ProviderOperation
  pub found : find (operation_has_id k) s.operations ≡ some operation
  pub going : same_operation_status operation.status OperationStatus.cancelled ≡ false
  pub sums : any (is_pending_of k) s.items ≡ false → Sums k s.items operation.status

Sums-going :
    (k : Text) (items : List ProviderOperationItem) (status : OperationStatus)
    → Sums k items status
    → same_operation_status status OperationStatus.cancelled ≡ false
Sums-going k items OperationStatus.pending h = absurd h
Sums-going k items OperationStatus.processing h = absurd h
Sums-going k items OperationStatus.completed h = refl
Sums-going k items OperationStatus.partially_failed h = refl
Sums-going k items OperationStatus.failed h = refl
Sums-going k items OperationStatus.cancelled h = absurd h

abbrev with_status : OperationStatus → ProviderOperation → ProviderOperation
with_status status o = record o { status = status }

pub update_operation_status_if_complete-Ends :
    (k : Text) (s : ProviderState) (o : ProviderOperation)
    → find (operation_has_id k) s.operations ≡ some o
    → same_operation_status o.status OperationStatus.cancelled ≡ false
    → Ends k (update_operation_status_if_complete k s)
unfolding update_operation_status_if_complete
update_operation_status_if_complete-Ends k s o found going =
    elim (Bool-cases (any (is_pending_of k) s.items)) [
      | inl e ↦ record {
        operation = o;
        found = rw e found;
        going = going;
        sums = λ none_pending. absurd (cc (update_operation_status_if_complete-items k s));
      }
      | inr e ↦ record {
        operation = record o { status = final_status k s };
        found =
            rw (e, update_operation_status_if_complete)
              (find-updated (operation_has_id k) (with_status (final_status k s)) (λ x. refl)
                s.operations o found);
        going = Sums-going k s.items (final_status k s) (final_status-Sums k s);
        sums = λ none_pending.
            rw (update_operation_status_if_complete-items k s) (final_status-Sums k s);
      }
    ]
