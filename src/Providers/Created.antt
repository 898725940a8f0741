-- ===== src/Providers/Created.antt =====
-- An operation from its creation to its end.
use cobdata_back.Base.{
  ℕ, zero, suc, ◌+◌, ◌/◌, ◌≡◌, refl, sym, ◌∙◌, Bool, true, false, inl, inr, some, List, [], ◌∷◌,
  ◌++◌, arith, ap, subst, any-append, find-append_new, ==_refl, ◌≤◌, ◌<◌, ◌==◌, Bool-cases,
  Option-cases, find, any, length, map, All, returns,
}
use cobdata_back.Contracts.{Text, Date, Contract}
use cobdata_back.Providers.Model.{
  OperationStatus, ProviderOperation, ProviderOperationItem, OperationBatchJobData, ProviderState,
  same_operation_status, operation_has_id, is_item_of, is_pending_of, add_jobs,
}
use cobdata_back.Providers.Selection.{get_eligible_statuses, select_eligible_contracts}
use cobdata_back.Providers.Operations.{
  CreateOperationParams, Ids, create, submit, items_from, jobs_from, new_operation, contract_ids,
  batch_count, is_wallet, of_account,
}
use cobdata_back.Providers.Adapter.{Remote}
use cobdata_back.Providers.Requests.{Texts}
use cobdata_back.Providers.Processor.Completion.{Sums}
use cobdata_back.Providers.Processor.Run.{Goes, Turn, is_left_out, run_jobs, run_jobs-Ends}

module _ (contains : Text → Text → Bool) (today : Date) (ids : Ids)
    (params : CreateOperationParams) where
  -- What a creation did that returned.
  pub record Created (s : ProviderState) (op : ProviderOperation) (s' : ProviderState)
      : Type 0 where
    pub provider_id : Text
    pub contracts : List Contract
    pub selected :
        contracts
        ≡ select_eligible_contracts contains today params.wallet_id params.action
            (get_eligible_statuses params.action params.filters.resync_only)
            params.filters
            s.store.contracts
    pub not_empty : (length contracts == 0) ≡ false
    pub operation :
        op
        ≡ new_operation ids.operation params.account_id provider_id params.wallet_id params.user_id
            params.action
            (length contracts)
    pub state :
        s'
        ≡ add_jobs
            (jobs_from op 0 (batch_count (length contracts)))
            (submit op ids.item (contract_ids contracts) s)

  abbrev chosen : ProviderState → List Contract
  chosen s =
      select_eligible_contracts contains today params.wallet_id params.action
        (get_eligible_statuses params.action params.filters.resync_only) params.filters
        s.store.contracts

  pub create-Created :
      (s s' : ProviderState) (op : ProviderOperation)
      → create contains today ids params s ≡ (returns op, s')
      → Created s op s'
  unfolding create
  create-Created s s' op h =
      elim (Option-cases (find (is_wallet params.wallet_id params.account_id) s.wallets)) [
        | inl e ↦ absurd (ground (arith, e))
        | inr (w, e) ↦ elim (Option-cases (find (of_account params.account_id) s.providers)) [
          | inl d ↦ absurd (ground (arith, e, d))
          | inr (p, d) ↦ record {
            provider_id = p.id;
            contracts = chosen s;
            selected = refl;
            not_empty = ground (arith, e, d);
            operation = ground (arith, e, d);
            state = ground (arith, e, d);
          }
        ]
      ]

-- The jobs with the times at which the worker takes them.
abbrev pub turns_of : (OperationBatchJobData → Date) → List OperationBatchJobData → List Turn
turns_of clock jobs = map (λ (j : OperationBatchJobData). (clock j, j)) jobs

abbrev is_for : ℕ → Turn → Bool
is_for b t = t.1.batch_index == b

module _ (clock : OperationBatchJobData → Date) (op : ProviderOperation) where
  jobs_from-cover :
      (index n b : ℕ)
      → index ≤ b
      → b < index + n
      → any (is_for b) (turns_of clock (jobs_from op index n)) ≡ true
  unfolding jobs_from
  jobs_from-cover index zero b h k = absurd (omega arith)
  jobs_from-cover index (suc n) b h k = elim (Bool-cases (index == b)) [
    | inl e ↦ rw e refl
    | inr e ↦ rw e (jobs_from-cover (index + 1) n b (ground arith) (omega arith))
  ]

  jobs_from-All :
      (index n : ℕ)
      → All (λ (t : Turn). t.1.operation_id ≡ op.id) (turns_of clock (jobs_from op index n))
  unfolding jobs_from
  jobs_from-All index zero = tt
  jobs_from-All index (suc n) = (refl, jobs_from-All (index + 1) n)

  -- Items whose batches the jobs reach.
  items_from-reached :
      (turns : List Turn) (item_id : ℕ → Text) (cs : List Text) (index last : ℕ)
      → index + length cs ≤ last
      → ((b : ℕ) → b < last → any (is_for b) turns ≡ true)
      → any (is_left_out op.id turns) (items_from op.id item_id index cs) ≡ false
  unfolding items_from
  items_from-reached turns item_id [] index last h cover = refl
  items_from-reached turns item_id (c ∷ cs) index last h cover = ground (
    arith,
    cover (index / 1) (omega arith),
    items_from-reached turns item_id cs (index + 1) last (omega arith) cover,
  )

others-reached :
    (k : Text) (turns : List Turn) (items : List ProviderOperationItem)
    → any (is_item_of k) items ≡ false
    → any (is_left_out k turns) items ≡ false
others-reached k turns [] h = refl
others-reached k turns (i ∷ is) h = ground (arith, others-reached k turns is)

length-contract_ids : (cs : List Contract) → length (contract_ids cs) ≡ length cs
length-contract_ids [] = refl
length-contract_ids (c ∷ cs) = ap suc (length-contract_ids cs)

-- No item of the operation is pending, and its status sums up its items.
abbrev pub IsFinished : Text → ProviderState → Type 0
IsFinished k s =
    (any (is_pending_of k) s.items ≡ false)
    × (o : ProviderOperation) × (find (operation_has_id k) s.operations ≡ some o)
    × Sums k s.items o.status

abbrev first_job : ProviderOperation → OperationBatchJobData
first_job op = record {
  operation_id = op.id;
  batch_index = 0;
  provider_id = op.provider_id;
  action = op.action;
}

module _ (remote : Remote) (texts : Texts) (clock : OperationBatchJobData → Date)
    (op : ProviderOperation) (item_id : ℕ → Text) (ids : List Text) (s : ProviderState)
    (going : same_operation_status op.status OperationStatus.cancelled ≡ false)
    (new_operation_id : any (operation_has_id op.id) s.operations ≡ false)
    (new_items : any (is_item_of op.id) s.items ≡ false) where
  submit-left_out :
      (turns : List Turn)
      → ((b : ℕ) → b < length ids → any (is_for b) turns ≡ true)
      → any (is_left_out op.id turns) (submit op item_id ids s).items ≡ false
  unfolding submit
  submit-left_out turns cover =
      rw (any-append (is_left_out op.id turns) s.items (items_from op.id item_id 0 ids)) (
        ground (
          arith,
          others-reached op.id turns s.items new_items,
          items_from-reached clock op turns item_id ids 0 (length ids) (omega arith) cover,
        ))

  submit-Goes : Goes op.id (submit op item_id ids s)
  unfolding submit
  submit-Goes = record {
    operation = op;
    found =
        find-append_new (operation_has_id op.id) s.operations op new_operation_id (==_refl op.id);
    going = going;
  }

  -- The jobs that are added do not matter.
  queued-Goes :
      (jobs : List OperationBatchJobData) → Goes op.id (add_jobs jobs (submit op item_id ids s))
  queued-Goes jobs =
      let g = submit-Goes in record { operation = g.operation; found = g.found; going = g.going }

  submit_then_run :
      (n : ℕ) (jobs : List OperationBatchJobData)
      → length ids ≡ suc n
      → IsFinished op.id (
          run_jobs remote texts
            (turns_of clock (jobs_from op 0 (suc n)))
            (add_jobs jobs (submit op item_id ids s)))
  unfolding jobs_from
  submit_then_run n jobs e =
      let all = jobs_from-All clock op 0 (suc n) in
      run_jobs-Ends remote texts op.id (clock (first_job op)) (first_job op)
        (turns_of clock (jobs_from op 1 n)) (add_jobs jobs (submit op item_id ids s)) all
        (queued-Goes jobs)
        (submit-left_out (turns_of clock (jobs_from op 0 (suc n)))
          (λ b h. jobs_from-cover clock op 0 (suc n) b (omega arith) (omega arith)))

module _ (contains : Text → Text → Bool) (today : Date) (ids : Ids) (params : CreateOperationParams)
    (remote : Remote) (texts : Texts) (clock : OperationBatchJobData → Date) where
  -- An operation that was created with new ids, and whose jobs the worker takes one after another,
  -- comes to an end whatever Serasa answers to each request: no item is pending any more, and the
  -- operation is COMPLETED, FAILED or PARTIALLY_FAILED as its items say.
  pub create_then_run :
      (s s' : ProviderState) (op : ProviderOperation)
      → create contains today ids params s ≡ (returns op, s')
      → any (operation_has_id ids.operation) s.operations ≡ false
      → any (is_item_of ids.operation) s.items ≡ false
      → (jobs : List OperationBatchJobData) × (s'.jobs ≡ s.jobs ++ jobs)
        × IsFinished op.id (run_jobs remote texts (turns_of clock jobs) s')
  unfolding submit
  create_then_run s s' op h new_operation_id new_items =
      let c = create-Created contains today ids params s s' op h in
      let (n, e) = not_zero (length c.contracts) c.not_empty in
      let state = c.state ∙ ap (λ k. submitted_state op c k) (batch_count_suc c e) in
      subst
        (λ t.
          (jobs : List OperationBatchJobData) × (t.jobs ≡ s.jobs ++ jobs)
          × IsFinished op.id (run_jobs remote texts (turns_of clock jobs) t))
        (sym state)
        (
          jobs_from op 0 (suc n),
          refl,
          submit_then_run remote texts clock op ids.item (contract_ids c.contracts) s
              (rw c.operation refl) (rw c.operation new_operation_id) (rw c.operation new_items) n
              (jobs_from op 0 (suc n)) (length-contract_ids c.contracts ∙ e),
        )
    where
      not_zero : (n : ℕ) → (n == 0) ≡ false → (m : ℕ) × (n ≡ suc m)
      not_zero zero h = absurd (cc)
      not_zero (suc m) h = (m, refl)

      submitted_state :
          (op : ProviderOperation) → Created contains today ids params s op s' → ℕ → ProviderState
      submitted_state op c k =
          add_jobs (jobs_from op 0 k) (submit op ids.item (contract_ids c.contracts) s)

      batch_count_suc :
          {op : ProviderOperation} (c : Created contains today ids params s op s') {n : ℕ}
          → length c.contracts ≡ suc n
          → batch_count (length c.contracts) ≡ suc n
      batch_count_suc c e = omega arith
