-- ===== src/Providers/Selection.antt =====
-- The contracts that an operation may be about: getEligibleStatuses, selectEligibleContracts and
-- applyAgingComparison of src/providers/operations.service.ts.
use cobdata_back.Base.{
  ℕ, ◌+◌, ◌*◌, Bool, true, false, not, ◌&&◌, ◌||◌, Option, none, some, List, [], ◌∷◌, ltb, leb,
  ◌==◌, if◌then◌else◌, is_some, any, keep,
}
use cobdata_back.Contracts.{
  Text, Date, Contract, ContractStatus, PaymentStatus, SerasaStatus, same_contract_status,
  same_payment_status, same_serasa,
}
use cobdata_back.Providers.Model.{OperationAction, same_action}

abbrev pub eligible_for_create : List SerasaStatus
eligible_for_create =
    SerasaStatus.not_enabled ∷ SerasaStatus.pending ∷ SerasaStatus.failed ∷ SerasaStatus.removed
    ∷ []

abbrev pub eligible_for_remove : List SerasaStatus
eligible_for_remove = SerasaStatus.registered ∷ SerasaStatus.updated ∷ []

-- `statuses.includes(status)`
abbrev pub includes : List SerasaStatus → SerasaStatus → Bool
includes statuses status = any (same_serasa status) statuses

unfoldable pub get_eligible_statuses : OperationAction → Bool → List SerasaStatus
get_eligible_statuses action true = eligible_for_remove
get_eligible_statuses OperationAction.create_or_update false = eligible_for_create
get_eligible_statuses OperationAction.remove false = eligible_for_remove

pub data Operator : Type 0 where
  gt lt eq : Operator

abbrev pub compares : Operator → ℕ → ℕ → Bool
compares Operator.gt bound v = ltb bound v
compares Operator.lt bound v = ltb v bound
compares Operator.eq bound v = v == bound

-- A search term without its outer spaces, and the digits of it, if there are any.
pub record Search : Type 0 where
  pub term : Text
  pub document : Option Text

-- interface OperationContractFilters. A pair of an operator and a value is one optional field, since
-- the code reads them only together; `search` is empty where the term has no text.
pub record OperationContractFilters : Type 0 where
  pub contract_status : Option ContractStatus
  pub search : Option Search
  pub serasa_status : Option SerasaStatus
  pub payment_status : Option PaymentStatus
  pub resync_only : Bool
  pub installment_only : Bool
  pub min_original_value : Option ℕ
  pub max_original_value : Option ℕ
  pub min_updated_value : Option ℕ
  pub max_updated_value : Option ℕ
  pub updated_value : Option Operator
  pub updated_value_bound : ℕ
  pub offer_value : Option Operator
  pub offer_value_bound : ℕ
  pub aging : Option Operator
  pub aging_days : ℕ
  pub date_from : Option Date
  pub date_to : Option Date

abbrev pub day : ℕ
day = 86400000

-- A date less a number of milliseconds. The dates before 1970 are negative, so a date is compared
-- with such a bound by adding to both sides.
pub record Bound : Type 0 where
  pub date : Date
  pub back : ℕ

abbrev pub at : Date → Bound
at d = record { date = d; back = 0 }

-- `where.occurrenceDate`
pub record DateWhere : Type 0 where
  pub gte : Option Bound
  pub lt : Option Bound
  pub lte : Option Bound

abbrev pub not_before : Option Bound → Date → Bool
not_before none d = true
not_before (some b) d = leb b.date (d + b.back)

abbrev pub before : Option Bound → Date → Bool
before none d = true
before (some b) d = ltb (d + b.back) b.date

abbrev pub not_after : Option Bound → Date → Bool
not_after none d = true
not_after (some b) d = leb (d + b.back) b.date

abbrev pub within : DateWhere → Date → Bool
within w d = not_before w.gte d && (before w.lt d && not_after w.lte d)

-- `today` is the midnight of the day in São Paulo, written in UTC.
unfoldable pub apply_aging_comparison : Date → Option Operator → ℕ → DateWhere
apply_aging_comparison today none aging = record { gte = none; lt = none; lte = none }
apply_aging_comparison today (some Operator.gt) aging = record {
  gte = none;
  lt = some (record { date = today; back = aging * day });
  lte = none;
}
apply_aging_comparison today (some Operator.lt) aging = record {
  gte = some (record { date = today + day; back = aging * day });
  lt = none;
  lte = none;
}
apply_aging_comparison today (some Operator.eq) aging = record {
  gte = some (record { date = today; back = aging * day });
  lt = some (record { date = today + day; back = aging * day });
  lte = none;
}

-- The dates of the filter replace the bounds of the aging that have the same name.
abbrev pub date_where : Date → OperationContractFilters → DateWhere
date_where today f =
    let w = apply_aging_comparison today f.aging f.aging_days in
    record {
      gte = elim f.date_from [ none ↦ w.gte | some d ↦ some (at d) ];
      lt = w.lt;
      lte = elim f.date_to [ none ↦ w.lte | some d ↦ some (at d) ];
    }

abbrev pub at_least : Option ℕ → ℕ → Bool
at_least none v = true
at_least (some bound) v = leb bound v

abbrev pub at_most : Option ℕ → ℕ → Bool
at_most none v = true
at_most (some bound) v = leb v bound

-- `where.updatedValue`: a comparison replaces the two bounds.
abbrev pub updated_value_passes : OperationContractFilters → ℕ → Bool
updated_value_passes f v = elim f.updated_value [
  | none ↦ at_least f.min_updated_value v && at_most f.max_updated_value v
  | some op ↦ compares op f.updated_value_bound v
]

-- A contract without an offer passes no comparison.
abbrev pub offer_value_passes : OperationContractFilters → Option ℕ → Bool
offer_value_passes f value = elim f.offer_value [
  | none ↦ true
  | some op ↦ elim value [ none ↦ false | some v ↦ compares op f.offer_value_bound v ]
]

abbrev pub search_passes : (Text → Text → Bool) → Option Search → Contract → Bool
search_passes contains none c = true
search_passes contains (some q) c =
    contains c.contract_number q.term
    || elim q.document [ none ↦ false | some document ↦ c.debtor_document == document ]

-- A filter on the status replaces the list of the eligible ones.
abbrev pub serasa_passes : List SerasaStatus → Option SerasaStatus → SerasaStatus → Bool
serasa_passes statuses none status = includes statuses status
serasa_passes statuses (some wanted) status = same_serasa status wanted

-- A filter on the payment status replaces the demand for an open debt.
abbrev pub payment_passes : OperationAction → OperationContractFilters → Contract → Bool
payment_passes action f c =
    let debt_known = same_action action OperationAction.remove || f.resync_only in
    (if debt_known then is_some c.debt_id else true) && elim f.payment_status [
      | none ↦
          if debt_known then true else same_payment_status c.payment_status PaymentStatus.open_debt
      | some status ↦ same_payment_status c.payment_status status
    ]

abbrev pub installments_pass : Bool → Option ℕ → Bool
installments_pass installment_only total =
    if installment_only then (elim total [ none ↦ false | some n ↦ ltb 1 n ]) else true

-- `contains` is the search of the database that ignores case.
module _ (contains : Text → Text → Bool) (today : Date) (wallet_id : Text)
    (action : OperationAction) (statuses : List SerasaStatus) (f : OperationContractFilters) where
  abbrev pub is_eligible_contract : Contract → Bool
  is_eligible_contract c =
      c.wallet.id == wallet_id
      && (same_contract_status c.status ContractStatus.active
          && (not c.deleted
              && (serasa_passes statuses f.serasa_status c.serasa_status
                  && (payment_passes action f c
                      && (search_passes contains f.search c
                          && (installments_pass f.installment_only c.total_installments
                              && (at_least f.min_original_value c.original_value
                                  && (at_most f.max_original_value c.original_value
                                      && (updated_value_passes f c.updated_value
                                          && (offer_value_passes f c.offer_value
                                              && within (date_where today f)
                                                  c.occurrence_date))))))))))

  -- The two early returns of the code.
  abbrev pub asks_for_none : Bool
  asks_for_none =
      elim f.contract_status [
        | none ↦ false
        | some status ↦ not (same_contract_status status ContractStatus.active)
      ]
      || elim f.serasa_status [ none ↦ false | some status ↦ not (includes statuses status) ]

  unfoldable pub select_eligible_contracts : List Contract → List Contract
  select_eligible_contracts contracts =
      if asks_for_none then [] else keep is_eligible_contract contracts
