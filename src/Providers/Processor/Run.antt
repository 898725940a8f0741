-- ===== src/Providers/Processor/Run.antt =====
-- One job of the queue, and the jobs of an operation one after another.
use cobdata_back.Base.{
  ◌≡◌, refl, sym, subst, Bool, false, not, ◌&&◌, inl, inr, some, List, [], ◌∷◌, arith, ◌==◌, ==→≡,
  if◌then◌else◌, Bool-cases, find, any, keep, length, All, update_where_none,
}
use cobdata_back.Contracts.{Text, Date}
use cobdata_back.Providers.Model.{
  OperationStatus, ErrorCode, ProviderOperation, ProviderOperationItem, OperationBatchJobData,
  ProviderState, operation_has_id, is_pending_of, same_operation_status,
}
use cobdata_back.Providers.Adapter.{Remote}
use cobdata_back.Providers.Requests.{Texts}
use cobdata_back.Providers.Processor.{
  handle_batch, in_batch, is_cancelled, rejected, start, update_operation_status_if_complete,
  process,
}
use cobdata_back.Providers.Processor.Queries.{All-trivial, length-keep_zero, find-updated_if}
use cobdata_back.Providers.Processor.Answer.{
  Attempt, in_job, handle_batch-Attempt, handle_batch-operations,
}
use cobdata_back.Providers.Processor.Completion.{
  Pends, Attempt-clears, Ends, Sums, update_operation_status_if_complete-items,
  update_operation_status_if_complete-Ends,
}

-- The operation exists and is not cancelled.
pub record Goes (k : Text) (s : ProviderState) : Type 0 where
  pub operation : ProviderOperation
  pub found : find (operation_has_id k) s.operations ≡ some operation
  pub going : same_operation_status operation.status OperationStatus.cancelled ≡ false

pub Goes-of_Ends : {k : Text} {s : ProviderState} → Ends k s → Goes k s
Goes-of_Ends e = record { operation = e.operation; found = e.found; going = e.going }

start-Goes : (k : Text) (s : ProviderState) → Goes k s → Goes k (start k s)
start-Goes k s g = record {
  operation =
      if g.operation.id == k && same_operation_status g.operation.status OperationStatus.pending
      then record g.operation { status = OperationStatus.processing }
      else g.operation;
  found =
      find-updated_if (operation_has_id k)
        (λ o. o.id == k && same_operation_status o.status OperationStatus.pending)
        (λ o. record o { status = OperationStatus.processing }) (λ o. refl) s.operations g.operation
        g.found;
  going = ground (arith, g.going);
}

Goes-not_cancelled : (k : Text) (s : ProviderState) → Goes k s → is_cancelled k s ≡ false
Goes-not_cancelled k s g = ground (arith, g.found, g.going)

module _ (remote : Remote) (texts : Texts) (now : Date) (job : OperationBatchJobData) where
  -- The state before the last step of `process`.
  abbrev pub handled : ProviderState → ProviderState
  handled s =
      let started = start job.operation_id s in
      let items = keep (in_batch job.operation_id job.batch_index) started.items in
      if length items == 0 then started else handle_batch remote texts now job items started

  process_going :
      (s : ProviderState)
      → Goes job.operation_id s
      → process remote texts now job s
        ≡ update_operation_status_if_complete job.operation_id (handled s)
  unfolding process
  process_going s g =
      rw (Goes-not_cancelled job.operation_id _ (start-Goes job.operation_id s g), process) refl

  pub handled-Attempt : (s : ProviderState) → Attempt (in_job job) s.items (handled s).items
  handled-Attempt s = elim (Bool-cases (length (keep (in_job job) s.items) == 0)) [
    | inl e ↦ rw e (record {
      test = in_job job;
      change = rejected now ErrorCode.processing_error;
      equation = sym (
          update_where_none (in_job job) _ s.items
            (length-keep_zero (in_job job) s.items (==→≡ _ _ e)));
      answers = λ i. ground arith;
      covers = All-trivial _ (λ i h. h) s.items;
      only = λ d. All-trivial _ (λ i h. h) s.items;
    })
    | inr e ↦ rw e (handle_batch-Attempt remote texts now job (start job.operation_id s))
  ]

  handled-operations :
      (s : ProviderState) → (handled s).operations ≡ (start job.operation_id s).operations
  handled-operations s = elim (Bool-cases (length (keep (in_job job) s.items) == 0)) [
    | inl e ↦ rw e refl
    | inr e ↦ rw e (
        handle_batch-operations remote texts now job (keep (in_job job) s.items)
          (start job.operation_id s))
  ]

  pub process-Ends :
      (s : ProviderState)
      → Goes job.operation_id s
      → Ends job.operation_id (process remote texts now job s)
  process-Ends s g =
      let h = start-Goes job.operation_id s g in
      rw (process_going s g) (
        update_operation_status_if_complete-Ends job.operation_id (handled s) h.operation
          (rw (handled-operations s) h.found) h.going)

  -- A job clears what only pending items of its batch pass.
  pub process-clears :
      (r : ProviderOperationItem → Bool) (s : ProviderState)
      → Goes job.operation_id s
      → Pends r
      → any (λ i. r i && not (in_job job i)) s.items ≡ false
      → any r (process remote texts now job s).items ≡ false
  process-clears r s g pends h = rw (process_going s g) (
      rw (update_operation_status_if_complete-items job.operation_id (handled s))
        (Attempt-clears (in_job job) r s.items (handled s).items (handled-Attempt s) pends h))

  -- Whatever Serasa answers, and also where the request cannot be made, a job of an operation that
  -- is not cancelled leaves no item of its batch pending; where no item of the operation is pending
  -- then, the operation is COMPLETED if none of its items has failed, FAILED if all have, and
  -- PARTIALLY_FAILED otherwise.
  pub process_summary :
      (s : ProviderState)
      → Goes job.operation_id s
      → (any (in_job job) (process remote texts now job s).items ≡ false)
        × Ends job.operation_id (process remote texts now job s)
  process_summary s g = (
    process-clears (in_job job) s g (λ i h. ground arith) (self_apart (in_job job) s.items),
    process-Ends s g,
  )
    where
      self_apart :
          (p : ProviderOperationItem → Bool) (xs : List ProviderOperationItem)
          → any (λ i. p i && not (p i)) xs ≡ false
      self_apart p [] = refl
      self_apart p (x ∷ xs) = ground (arith, self_apart p xs)

-- A job with the time at which the worker takes it.
abbrev pub Turn : Type 0
Turn = Date × OperationBatchJobData

-- A pending item of an operation whose batch is none of the jobs'.
abbrev pub is_left_out : Text → List Turn → ProviderOperationItem → Bool
is_left_out k turns i =
    is_pending_of k i && not (any (λ (t : Turn). t.1.batch_index == i.batch_index) turns)

module _ (remote : Remote) (texts : Texts) where
  -- The worker takes one job after another.
  unfoldable pub run_jobs : List Turn → ProviderState → ProviderState
  run_jobs [] s = s
  run_jobs ((now, job) ∷ turns) s = run_jobs turns (process remote texts now job s)

  process-left_out :
      (k : Text) (now : Date) (job : OperationBatchJobData) (turns : List Turn) (s : ProviderState)
      → job.operation_id ≡ k
      → Goes k s
      → any (is_left_out k ((now, job) ∷ turns)) s.items ≡ false
      → any (is_left_out k turns) (process remote texts now job s).items ≡ false
  process-left_out k now job turns s same g h =
      process-clears remote texts now job (is_left_out k turns) s (rw same g) (λ i e. ground arith)
        (any_cong s.items h)
    where
      any_cong :
          (xs : List ProviderOperationItem)
          → any (is_left_out k ((now, job) ∷ turns)) xs ≡ false
          → any (λ i. is_left_out k turns i && not (in_job job i)) xs ≡ false
      any_cong [] h = refl
      any_cong (x ∷ xs) h = ground (arith, any_cong xs, same)

  run_turns-Ends :
      (k : Text) (now : Date) (job : OperationBatchJobData) (turns : List Turn) (s : ProviderState)
      → job.operation_id ≡ k
      → All (λ (t : Turn). t.1.operation_id ≡ k) turns
      → Goes k s
      → any (is_left_out k ((now, job) ∷ turns)) s.items ≡ false
      → Ends k (run_jobs ((now, job) ∷ turns) s)
        × (any (is_left_out k []) (run_jobs ((now, job) ∷ turns) s).items ≡ false)
  unfolding run_jobs
  run_turns-Ends k now job [] s same rest g h = (
    subst (λ i. Ends i (process remote texts now job s)) same
        (process-Ends remote texts now job s (rw same g)),
    process-left_out k now job [] s same g h,
  )
  run_turns-Ends k now job ((later, next) ∷ turns) s same rest g h =
      run_turns-Ends k later next turns (process remote texts now job s) rest.0 rest.1
        (Goes-of_Ends (
          subst (λ i. Ends i (process remote texts now job s)) same
            (process-Ends remote texts now job s (rw same g))))
        (process-left_out k now job ((later, next) ∷ turns) s same g h)

-- The jobs of an operation that reach all its pending items leave none pending, whatever their
-- order, and the operation has the status that sums up its items.
pub run_jobs-Ends :
    (remote : Remote) (texts : Texts) (k : Text) (now : Date) (job : OperationBatchJobData)
    (turns : List Turn) (s : ProviderState)
    → All (λ (t : Turn). t.1.operation_id ≡ k) ((now, job) ∷ turns)
    → Goes k s
    → any (is_left_out k ((now, job) ∷ turns)) s.items ≡ false
    → let s' = run_jobs remote texts ((now, job) ∷ turns) s in
      (any (is_pending_of k) s'.items ≡ false)
      × (o : ProviderOperation) × (find (operation_has_id k) s'.operations ≡ some o)
      × Sums k s'.items o.status
run_jobs-Ends remote texts k now job turns s all g h =
    let r = run_turns-Ends remote texts k now job turns s all.0 all.1 g h in
    let none_pending = drop_turns (run_jobs remote texts ((now, job) ∷ turns) s).items r.1 in
    (none_pending, r.0.operation, r.0.found, r.0.sums none_pending)
  where
    drop_turns :
        (xs : List ProviderOperationItem)
        → any (is_left_out k []) xs ≡ false
        → any (is_pending_of k) xs ≡ false
    drop_turns [] h = refl
    drop_turns (x ∷ xs) h = ground (arith, drop_turns xs)
