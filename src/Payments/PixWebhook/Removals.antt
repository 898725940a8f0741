-- ===== src/Payments/PixWebhook/Removals.antt =====
-- What the automatic removal of a paid debt, which the webhook asks for, does to the tables of the
-- payments: it changes the status at Serasa of a contract, or nothing.
use cobdata_back.Base.{
  ◌≡◌, ◌⊎◌, refl, false, some, [], ◌∷◌, List, arith, find, find-update_where, any, update_where,
  Option-cases, Bool-cases, inl, inr,
}
use cobdata_back.Contracts.{Text, Contract, SerasaStatus}
use cobdata_back.Payments.Store.{Store, contract_has_id}
use cobdata_back.Providers.Model.{ProviderState, OperationAction, has_text, is_one_of, with_serasa}
use cobdata_back.Providers.Operations.{
  Ids, contract_statuses, create_for_contract, submit, is_active_contract, of_account,
}
use cobdata_back.Providers.Selection.{includes}
use cobdata_back.Providers.Removal.{
  is_removable, is_open_removal, is_active_user, create_automatic_removal_for_paid_contract,
}

abbrev pub removing_in : List Text → Store → Store
removing_in ids s = record s {
  contracts =
      update_where (λ c. is_one_of ids c.id) (with_serasa SerasaStatus.removing) s.contracts;
}

abbrev IsRemoving : Store → Store → Type 0
IsRemoving s t = (t ≡ s) ⊎ ((ids : List Text) × (t ≡ removing_in ids s))

-- The tables of the payments but for a status at Serasa.
pub record Keeps (s t : Store) : Type 0 where
  pub charges : t.charges ≡ s.charges
  pub settlements : t.settlements ≡ s.settlements
  pub events : t.events ≡ s.events
  pub interactions : t.interactions ≡ s.interactions
  pub present :
      (k : Text) (c : Contract)
      → find (contract_has_id k) s.contracts ≡ some c
      → (status : SerasaStatus) × (find (contract_has_id k) t.contracts
          ≡ some (with_serasa status c))

pub Keeps-refl : (s : Store) → Keeps s s
Keeps-refl s = record {
  charges = refl;
  settlements = refl;
  events = refl;
  interactions = refl;
  present = λ k c e. (c.serasa_status, e);
}

removing-present :
    (ids : List Text) (s : Store) (k : Text) (c : Contract)
    → find (contract_has_id k) s.contracts ≡ some c
    → (status : SerasaStatus) × (find (contract_has_id k) (removing_in ids s).contracts
        ≡ some (with_serasa status c))
removing-present ids s k c e = elim (Bool-cases (is_one_of ids c.id)) [
  | inl q ↦ (
    SerasaStatus.removing,
    rw
        (
          find-update_where (contract_has_id k) (λ x. is_one_of ids x.id)
              (with_serasa SerasaStatus.removing) (λ x. refl) s.contracts,
          e,
          q,
        )
        refl,
  )
  | inr q ↦ (
    c.serasa_status,
    rw
        (
          find-update_where (contract_has_id k) (λ x. is_one_of ids x.id)
              (with_serasa SerasaStatus.removing) (λ x. refl) s.contracts,
          e,
          q,
        )
        refl,
  )
]

IsRemoving-Keeps : (s t : Store) → IsRemoving s t → Keeps s t
IsRemoving-Keeps s t (inl e) = rw e (Keeps-refl s)
IsRemoving-Keeps s t (inr (ids, e)) = rw e (record {
  charges = refl;
  settlements = refl;
  events = refl;
  interactions = refl;
  present = removing-present ids s;
})

submission-IsRemoving :
    (ids : Ids) (contract_id user account_id : Text) (w : ProviderState)
    → IsRemoving w.store
        (create_for_contract ids contract_id user account_id OperationAction.remove false w).1.store
unfolding create_for_contract submit
submission-IsRemoving ids contract_id user account_id w =
    elim (Option-cases (find (is_active_contract contract_id account_id) w.store.contracts)) [
      | inl e ↦ inl (ground (arith, e))
      | inr (c, e) ↦ elim (Option-cases (find (of_account account_id) w.providers)) [
        | inl d ↦ inl (ground (arith, e, d))
        | inr (p, d) ↦
            elim (Bool-cases
              (includes (contract_statuses OperationAction.remove false) c.serasa_status)) [
                | inr f ↦ inl (ground (arith, e, d, f))
                | inl f ↦ elim (Bool-cases (has_text c.debt_id)) [
                  | inr g ↦ inl (ground (arith, e, d, f, g))
                  | inl g ↦ inr (c.id ∷ [], ground (arith, e, d, f, g))
                ]
              ]
      ]
    ]

module _ (ids : Ids) (contract_id account_id : Text) (w : ProviderState) where
  abbrev removed : ProviderState
  removed = (create_automatic_removal_for_paid_contract ids contract_id account_id w).1

  abbrev submitted_by : Text → ProviderState
  submitted_by user =
      (create_for_contract ids contract_id user account_id OperationAction.remove false w).1

  -- The removal is the submission for the first active user, or nothing.
  removed-cases : (removed ≡ w) ⊎ ((user : Text) × (removed ≡ submitted_by user))
  unfolding create_automatic_removal_for_paid_contract
  removed-cases = elim (Option-cases (find (is_active_user account_id) w.users)) [
    | inl e ↦ inl (ground (arith, e))
    | inr (u, e) ↦
        elim (Option-cases (find (is_removable contract_id account_id) w.store.contracts)) [
          | inl d ↦ inl (ground (arith, d))
          | inr (c, d) ↦
              elim (Bool-cases (any (is_open_removal w.operations contract_id) w.items)) [
                | inl o ↦ inl (ground (arith, d, o))
                | inr o ↦ inr (u.id, ground (arith, e, d, o))
              ]
        ]
  ]

  pub removal-Keeps : Keeps w.store removed.store
  removal-Keeps = elim removed-cases [
    | inl e ↦ rw e (Keeps-refl w.store)
    | inr (user, e) ↦ rw e (
        IsRemoving-Keeps w.store (submitted_by user).store
          (submission-IsRemoving ids contract_id user account_id w))
  ]
