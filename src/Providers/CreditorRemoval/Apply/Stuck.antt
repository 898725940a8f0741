-- ===== src/Providers/CreditorRemoval/Apply/Stuck.antt =====
-- `applyInBackground` after a contract whose cancellation throws: the queue calls it again.
use cobdata_back.Base.{
  ℕ, zero, suc, ◌+◌, ◌≡◌, refl, sym, ap, subst, ◌∙◌, Bool, true, false, Option, none, some, List,
  [], ◌∷◌, ◌==◌, if◌then◌else◌, find, length, Outcome, returns, throws, arith, inl, inr, Bool-cases,
  Option-cases, Outcome-cases, All,
}
use cobdata_back.Contracts.{Text, Date, ContractStatus, same_contract_status}
use cobdata_back.Providers.Model.{ProviderState}
use cobdata_back.Providers.Operations.{OperationError, Ids, contract_not_found, already_cancelled}
use cobdata_back.Providers.Removal.{Cancellation, cancel_contract, is_cancellable}
use cobdata_back.Providers.CreditorRemoval.{
  CreditorRemovalBatch, CreditorRemovalBatchStatus, with_status,
}
use cobdata_back.Providers.CreditorRemoval.Apply.{
  Progress, ApplyState, with_progress, no_reason, is_saved, one_more, cancel_one, apply_from,
  apply_in_background, remaining,
}

-- Why a contract cannot be cancelled now.
abbrev refusal : Text → Text → Option Text → ProviderState → Option OperationError
refusal contract_id account_id creditor_id s =
    elim (find (is_cancellable contract_id account_id creditor_id) s.store.contracts) [
      | none ↦ some contract_not_found
      | some c ↦
          if same_contract_status c.status ContractStatus.cancelled
          then some already_cancelled
          else none
    ]

module _ (ids : Ids) (now : Date) (contract_id user_id account_id : Text)
    (creditor_id : Option Text) (k : Cancellation) where
  refusal-throws :
      (s : ProviderState) (e : OperationError)
      → refusal contract_id account_id creditor_id s ≡ some e
      → cancel_contract ids now contract_id user_id account_id creditor_id k s ≡ (throws e, s)
  unfolding cancel_contract
  refusal-throws s e h =
      elim (Option-cases
        (find (is_cancellable contract_id account_id creditor_id) s.store.contracts)) [
          | inl g ↦ ground (arith, g)
          | inr (c, g) ↦
              elim (Bool-cases (same_contract_status c.status ContractStatus.cancelled)) [
                | inl f ↦ ground (arith, g, f)
                | inr f ↦ absurd (ground (arith, g, f))
              ]
        ]

  throws-refusal :
      (s t : ProviderState) (e : OperationError)
      → cancel_contract ids now contract_id user_id account_id creditor_id k s ≡ (throws e, t)
      → (refusal contract_id account_id creditor_id s ≡ some e) × (t ≡ s)
  unfolding cancel_contract
  throws-refusal s t e h =
      elim (Option-cases
        (find (is_cancellable contract_id account_id creditor_id) s.store.contracts)) [
          | inl g ↦ (ground (arith, g), ground (arith, g))
          | inr (c, g) ↦
              elim (Bool-cases (same_contract_status c.status ContractStatus.cancelled)) [
                | inl f ↦ (ground (arith, g, f), ground (arith, g, f))
                | inr f ↦ absurd (ground (arith, g, f))
              ]
        ]

-- The next contract of a failed batch cannot be cancelled.
record IsStuck (e : OperationError) (s : ApplyState) : Type 0 where
  contract_id : Text
  rest : List Text
  next : remaining s.batch.cancelled_count s.batch.contract_ids ≡ contract_id ∷ rest
  named : (contract_id == 0) ≡ false
  failed : s.batch.status ≡ CreditorRemovalBatchStatus.failed
  refused : refusal contract_id s.batch.account_id (some s.batch.creditor_id) s.tables ≡ some e

remaining-suc :
    (n : ℕ) (xs : List Text) (c : Text) (cs : List Text)
    → remaining n xs ≡ c ∷ cs
    → remaining (suc n) xs ≡ cs
remaining-suc zero [] c cs h = absurd (ground arith)
remaining-suc zero (x ∷ xs) c cs h = ground arith
remaining-suc (suc n) [] c cs h = absurd (ground arith)
remaining-suc (suc n) (x ∷ xs) c cs h = remaining-suc n xs c cs h

remaining-next :
    (n : ℕ) (xs : List Text) (c : Text) (cs : List Text)
    → remaining n xs ≡ c ∷ cs
    → remaining (n + 1) xs ≡ cs
remaining-next n xs c cs h =
    ap (λ k. remaining k xs) {x = n + 1} {y = suc n} (omega arith) ∙ remaining-suc n xs c cs h

saved-contract_ids :
    (b : Bool) (q : Progress) (batch : CreditorRemovalBatch)
    → (if b then with_progress q batch else batch).contract_ids ≡ batch.contract_ids
saved-contract_ids true q batch = refl
saved-contract_ids false q batch = refl

throws_inj :
    {e f : OperationError}
    → ◌≡◌ {A = Outcome OperationError (Unit {0})} (throws e) (throws f)
    → e ≡ f
throws_inj h = ground (arith, h)

All-remaining :
    (n : ℕ) (xs : List Text)
    → All (λ c. (c == 0) ≡ false) xs
    → All (λ c. (c == 0) ≡ false) (remaining n xs)
All-remaining zero xs h = h
All-remaining (suc n) [] h = tt
All-remaining (suc n) (x ∷ xs) h = All-remaining n xs h.1

module _ (ids : Text → Ids) (now : Date) where
  -- The state after a contract was cancelled, and after the throw of one that was not.
  abbrev after_one : Bool → Text → Progress → ApplyState → ApplyState
  after_one queued c p s =
      let q = one_more queued p in
      record {
        batch =
            if is_saved q.cancelled (length s.batch.contract_ids)
            then with_progress q s.batch
            else s.batch;
        tables = (cancel_one ids now s.batch c s.tables).1;
      }

  abbrev after_throw : Text → Progress → ApplyState → ApplyState
  after_throw c p s = record {
    batch = with_status CreditorRemovalBatchStatus.failed (with_progress p s.batch);
    tables = (cancel_one ids now s.batch c s.tables).1;
  }

  apply_from-returns :
      (c : Text) (cs : List Text) (p : Progress) (s : ApplyState) (queued : Bool)
      → (c == 0) ≡ false
      → (cancel_one ids now s.batch c s.tables).0 ≡ returns queued
      → apply_from ids now (c ∷ cs) p s
        ≡ apply_from ids now cs (one_more queued p) (after_one queued c p s)
  unfolding apply_from
  apply_from-returns c cs p s queued named e = rw (named, e) refl

  apply_from-throws :
      (c : Text) (cs : List Text) (p : Progress) (s : ApplyState) (e : OperationError)
      → (c == 0) ≡ false
      → (cancel_one ids now s.batch c s.tables).0 ≡ throws e
      → apply_from ids now (c ∷ cs) p s ≡ (throws e, after_throw c p s)
  unfolding apply_from
  apply_from-throws c cs p s e named g = rw (named, g) refl

  IsStuck-again :
      (e : OperationError) (s : ApplyState)
      → IsStuck e s
      → apply_in_background ids now s ≡ (throws e, s)
  unfolding apply_in_background
  IsStuck-again e s stuck =
      ap (λ cs. apply_from ids now cs progress s) stuck.next
      ∙ apply_from-throws stuck.contract_id stuck.rest progress s e stuck.named
          (ap (λ r. r.0) refused)
      ∙ ap
          (λ t. (
            throws e,
            record { batch = with_status CreditorRemovalBatchStatus.failed s.batch; tables = t },
          ))
          (ap (λ r. r.1) refused)
      ∙ ap (λ status. (throws e, record s { batch = with_status status s.batch }))
          (sym stuck.failed)
    where
      progress : Progress
      progress = record {
        cancelled = s.batch.cancelled_count;
        queued = s.batch.queued_for_serasa_removal;
      }

      refused : cancel_one ids now s.batch stuck.contract_id s.tables ≡ (throws e, s.tables)
      refused =
          refusal-throws (ids stuck.contract_id) now stuck.contract_id s.batch.user_id
            s.batch.account_id (some s.batch.creditor_id) no_reason s.tables e stuck.refused

  refused_after :
      (c : Text) (p : Progress) (s : ApplyState) (e : OperationError)
      → (cancel_one ids now s.batch c s.tables).0 ≡ throws e
      → refusal c s.batch.account_id (some s.batch.creditor_id) (after_throw c p s).tables ≡ some e
  refused_after c p s e g =
      ap (refusal c s.batch.account_id (some s.batch.creditor_id)) refused.1 ∙ refused.0
    where
      refused :
          (refusal c s.batch.account_id (some s.batch.creditor_id) s.tables ≡ some e)
          × ((cancel_one ids now s.batch c s.tables).1 ≡ s.tables)
      refused =
          throws-refusal (ids c) now c s.batch.user_id s.batch.account_id (some s.batch.creditor_id)
            no_reason s.tables (cancel_one ids now s.batch c s.tables).1 e
            (ap (λ r. (r, (cancel_one ids now s.batch c s.tables).1)) g)

  apply_from-IsStuck :
      (cs : List Text) (p : Progress) (s s1 : ApplyState) (e : OperationError)
      → remaining p.cancelled s.batch.contract_ids ≡ cs
      → All (λ c. (c == 0) ≡ false) cs
      → apply_from ids now cs p s ≡ (throws e, s1)
      → IsStuck e s1
  unfolding apply_from
  apply_from-IsStuck [] p s s1 e next named h = absurd (ground (arith, h))
  apply_from-IsStuck (c ∷ cs) p s s1 e next named h =
      elim (Outcome-cases (cancel_one ids now s.batch c s.tables).0) [
        | inl (queued, g) ↦
            apply_from-IsStuck cs (one_more queued p) (after_one queued c p s) s1 e
              (ap (remaining (p.cancelled + 1)) (
                  saved-contract_ids (is_saved (p.cancelled + 1) (length s.batch.contract_ids))
                    (one_more queued p) s.batch)
                ∙ remaining-next p.cancelled s.batch.contract_ids c cs next)
              named.1 (sym (apply_from-returns c cs p s queued named.0 g) ∙ h)
        | inr (e1, g) ↦
            subst (IsStuck e) (ap (λ r. r.1) (sym (apply_from-throws c cs p s e1 named.0 g) ∙ h))
              (record {
                contract_id = c;
                rest = cs;
                next = next;
                named = named.0;
                failed = refl;
                refused =
                    refused_after c p s e1 g
                    ∙ ap some (
                        throws_inj
                          (ap (λ r. r.0) (sym (apply_from-throws c cs p s e1 named.0 g) ∙ h)));
              })
      ]

-- When the job ends with an error, for contracts whose ids are not empty, every later run of it on
-- what it left ends with the same error and changes nothing.
pub apply_in_background_again :
    (ids ids1 : Text → Ids) (now now1 : Date) (s s1 : ApplyState) (e : OperationError)
    → All (λ c. (c == 0) ≡ false) s.batch.contract_ids
    → apply_in_background ids now s ≡ (throws e, s1)
    → apply_in_background ids1 now1 s1 ≡ (throws e, s1)
unfolding apply_in_background
apply_in_background_again ids ids1 now now1 s s1 e named h = IsStuck-again ids1 now1 e s1 (
    apply_from-IsStuck ids now (remaining s.batch.cancelled_count s.batch.contract_ids)
      (record { cancelled = s.batch.cancelled_count; queued = s.batch.queued_for_serasa_removal }) s
      s1 e refl (All-remaining s.batch.cancelled_count s.batch.contract_ids named) h)
