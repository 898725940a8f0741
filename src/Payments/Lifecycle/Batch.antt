-- ===== src/Payments/Lifecycle/Batch.antt =====
-- A whole cycle: the size of its batch, its counters, and what it does to the table.
use cobdata_back.Base.{
  ℕ, ◌+◌, ◌≡◌, ◌≢◌, ◌≤◌, refl, false, some, List, [], ◌∷◌, ◌++◌, arith, find, any, length,
  length-take, length-unique_from, length-append, ◌==◌, All, Distinct, has_key, All-keep, All-take,
  All-order_by, All-unique_by, unique_by-Distinct, All-append, Outcome, Bool-cases, inl, inr,
}
use cobdata_back.Payments.Model.{Text, Date, PaymentCharge, PaymentGateway}
use cobdata_back.Payments.Store.{Store, charge_has_id}
use cobdata_back.Payments.Factory.{Adapter, ServiceError}
use cobdata_back.Payments.Lifecycle.{
  JobResult, JobState, transition_to_paid, transition_to_issued, transition_to_failed,
  transition_to_expired,
}
use cobdata_back.Payments.Lifecycle.Cycle.{
  creation_date, charge_id, candidates, pending_charges, expired_charges, apply_update,
  reconcile_charge, run_charge, run_charges, execute, no_result,
}
use cobdata_back.Payments.Lifecycle.Locking.{create_settlement-charges, lock_others}
use cobdata_back.Payments.Lifecycle.Reconcile.{stay, Follows, reconcile_charge-Follows}

-- A cycle handles no more charges than a batch.
pub candidates-le-batch_size :
    (batch_size : ℕ) (now : Date) (s : Store) → length (candidates batch_size now s) ≤ batch_size
unfolding candidates pending_charges expired_charges
candidates-le-batch_size batch_size now s =
    omega (arith, length-take {0}, length-unique_from {0}, length-append {0})

candidates-Distinct :
    (batch_size : ℕ) (now : Date) (s : Store) → Distinct charge_id (candidates batch_size now s)
unfolding candidates
candidates-Distinct batch_size now s =
    unique_by-Distinct charge_id
      (pending_charges batch_size now s ++ expired_charges batch_size now s)

-- The candidates are rows of the table.
candidates-All :
    (P : PaymentCharge → Type 0) (batch_size : ℕ) (now : Date) (s : Store)
    → All P s.charges
    → All P (candidates batch_size now s)
unfolding candidates pending_charges expired_charges
candidates-All P batch_size now s h =
    All-unique_by P charge_id (pending_charges batch_size now s ++ expired_charges batch_size now s)
      (All-append P (pending_charges batch_size now s) (expired_charges batch_size now s)
        (All-take P batch_size _ (All-order_by P creation_date _ (All-keep P _ s.charges h)))
        (All-take P _ _ (All-order_by P creation_date _ (All-keep P _ s.charges h))))

abbrev pub transitions : JobResult → ℕ
transitions r =
    r.transitioned_to_paid + r.transitioned_to_expired + r.transitioned_to_issued
    + r.transitioned_to_failed

-- The counters after a state, from those before it and the number of charges in between.
pub record Counted (n : ℕ) (before after : JobResult) : Type 0 where
  pub handled :
      n + before.processed_count + before.provider_errors
      ≤ after.processed_count + after.provider_errors
  pub processed : after.processed_count ≤ before.processed_count + n
  pub errors : after.provider_errors ≤ before.provider_errors + n
  pub moved :
      transitions after + before.processed_count ≤ transitions before + after.processed_count

module _ (code message : Text) (now : Date) (adapters : List Adapter)
    (decrypt : PaymentGateway → Outcome ServiceError Text)
    (meanwhile : PaymentCharge → Store → Store) where
  run_charge-Counted :
      (charge : PaymentCharge) (s : JobState)
      → Counted 1 s.result (run_charge code message now adapters decrypt meanwhile charge s).result
  unfolding run_charge reconcile_charge apply_update transition_to_paid transition_to_issued
      transition_to_failed transition_to_expired
  run_charge-Counted charge s = ground arith

  run_charges-Counted :
      (cs : List PaymentCharge) (s : JobState)
      → Counted
          (length cs)
          s.result
          (run_charges code message now adapters decrypt meanwhile cs s).result
  unfolding run_charges
  run_charges-Counted [] s = ground arith
  run_charges-Counted (c ∷ cs) s = ground (
    arith,
    run_charge-Counted c s,
    run_charges-Counted cs (run_charge code message now adapters decrypt meanwhile c s),
  )

  -- Whatever the provider answers and whatever others write in between: a cycle has no more
  -- candidates than a batch has charges; the processed charges and the errors are each as many as
  -- the candidates at most, and together as many as the candidates at least; and there are no more
  -- transitions than processed charges.
  pub execute_counts :
      (batch_size : ℕ) (s : Store)
      → let r = (execute code message now adapters decrypt meanwhile batch_size s).result in
        (length (candidates batch_size now s) ≤ batch_size)
        × (r.processed_count ≤ length (candidates batch_size now s))
        × (r.provider_errors ≤ length (candidates batch_size now s))
        × (length (candidates batch_size now s) ≤ r.processed_count + r.provider_errors)
        × (transitions r ≤ r.processed_count)
  unfolding execute
  execute_counts batch_size s = ground (
    arith,
    run_charges-Counted (candidates batch_size now s) (record { store = s; result = no_result }),
    candidates-le-batch_size batch_size now s,
  )

-- A cycle during which nobody else writes.
module _ (code message : Text) (now : Date) (adapters : List Adapter)
    (decrypt : PaymentGateway → Outcome ServiceError Text) where
  abbrev alone : PaymentCharge → Store → Store
  alone _ s = s

  abbrev round : PaymentCharge → JobState → JobState
  round = run_charge code message now adapters decrypt alone

  abbrev rounds : List PaymentCharge → JobState → JobState
  rounds = run_charges code message now adapters decrypt alone

  round-others :
      (charge : PaymentCharge) (s : JobState) (k : Text)
      → k ≢ charge.id
      → find (charge_has_id k) (round charge s).store.charges
        ≡ find (charge_has_id k) s.store.charges
  unfolding run_charge reconcile_charge apply_update transition_to_paid transition_to_issued
      transition_to_failed transition_to_expired
  round-others charge s k ne = grind (arith, create_settlement-charges, lock_others)

  round-Follows :
      (charge : PaymentCharge) (s : JobState)
      → find (charge_has_id charge.id) s.store.charges ≡ some charge
      → Follows now charge (find (charge_has_id charge.id) (round charge s).store.charges)
  unfolding run_charge
  round-Follows charge s found = grind (arith, reconcile_charge-Follows)

  rounds-others :
      (cs : List PaymentCharge) (s : JobState) (k : Text)
      → any (has_key charge_id k) cs ≡ false
      → find (charge_has_id k) (rounds cs s).store.charges ≡ find (charge_has_id k) s.store.charges
  unfolding run_charges
  rounds-others [] s k none_of = refl
  rounds-others (c ∷ cs) s k none_of =
      ground (arith, round-others c s k, rounds-others cs (round c s) k)

  abbrev IsCurrent : JobState → PaymentCharge → Type 0
  IsCurrent s c = find (charge_has_id c.id) s.store.charges ≡ some c

  round-IsCurrent :
      (c : PaymentCharge) (cs : List PaymentCharge) (s : JobState)
      → any (has_key charge_id c.id) cs ≡ false
      → All (IsCurrent s) cs
      → All (IsCurrent (round c s)) cs
  round-IsCurrent c [] s apart h = tt
  round-IsCurrent c (d ∷ cs) s apart h =
      (ground (arith, round-others c s d.id, h.0), round-IsCurrent c cs s (ground arith) h.1)

  rounds-Follows :
      (cs : List PaymentCharge) (s : JobState)
      → Distinct charge_id cs
      → All (IsCurrent s) cs
      → (c : PaymentCharge) → IsCurrent s c
      → Follows now c (find (charge_has_id c.id) (rounds cs s).store.charges)
  unfolding run_charges
  rounds-Follows [] s distinct current c found = rw found (grind (arith, stay))
  rounds-Follows (d ∷ cs) s distinct current c found = elim (Bool-cases (c.id == d.id)) [
    | inl same ↦ ground (
      arith,
      round-Follows d s current.0,
      rounds-others cs (round d s) d.id,
      current.0,
      distinct.0,
    )
    | inr apart ↦
        rounds-Follows cs (round d s) distinct.1 (round-IsCurrent d cs s distinct.0 current.1) c
          (ground (arith, round-others d s c.id))
  ]

  -- With unique ids, a cycle during which nobody else writes moves each charge of the table along
  -- one edge of its life at most, with its id and amount kept and its version not lowered: to PAID
  -- at any time, to ISSUED or FAILED only from PENDING, to EXPIRED only from PENDING or ISSUED and
  -- past its date.
  pub execute-Follows :
      (batch_size : ℕ) (s : Store)
      → All (λ c. find (charge_has_id c.id) s.charges ≡ some c) s.charges
      → (c : PaymentCharge) → find (charge_has_id c.id) s.charges ≡ some c
      → Follows now c (
          find
            (charge_has_id c.id)
            (execute code message now adapters decrypt alone batch_size s).store.charges)
  unfolding execute
  execute-Follows batch_size s unique c found =
      rounds-Follows (candidates batch_size now s) (record { store = s; result = no_result })
        (candidates-Distinct batch_size now s) (candidates-All _ batch_size now s unique) c found
