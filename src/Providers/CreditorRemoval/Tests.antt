-- ===== src/Providers/CreditorRemoval/Tests.antt =====
-- A file with a contract of the creditor, a line twice, and one that is no document.
use cobdata_back.Base.{◌+◌, ◌≡◌, refl, some, List, [], ◌∷◌, throws}
use cobdata_back.Contracts.{Text, ContractStatus}
use cobdata_back.Payments.Fixtures.{contract, empty_store}
use cobdata_back.Providers.Model.{ProviderState}
use cobdata_back.Providers.Operations.{Ids, already_cancelled}
use cobdata_back.Providers.Removal.{cancel_contract}
use cobdata_back.Providers.CreditorRemoval.{
  CreditorRemovalBatch, CreditorRemovalBatchStatus, Line, RemovalRow, match_rows, no_match, resolve,
  validate_in_background, find_last, query, unique_rows, confirm, queued,
}
use cobdata_back.Providers.CreditorRemoval.Matching.{AddsUp, validate_in_background_counts}
use cobdata_back.Providers.CreditorRemoval.Batches.{own, resolve-own}
use cobdata_back.Providers.CreditorRemoval.Apply.{ApplyState, apply_in_background}
use cobdata_back.Providers.CreditorRemoval.Apply.Stuck.{apply_in_background_again}

abbrev mine : Line
mine = record {
  contract_number = contract.contract_number;
  debtor_document = contract.debtor_document;
  digits = 11;
}

abbrev lines : List Line
lines = mine ∷ mine ∷ record mine { digits = 9 } ∷ record mine { contract_number = 4321 } ∷ []

abbrev batch : CreditorRemovalBatch
batch = record {
  account_id = contract.account_id;
  creditor_id = contract.wallet.creditor_id;
  user_id = 6;
  status = CreditorRemovalBatchStatus.pending_validation;
  total_lines = 0;
  valid_lines = 0;
  invalid_lines = 0;
  matched_count = 0;
  unmatched_count = 0;
  blocked_count = 0;
  duplicate_lines = 0;
  contract_ids = [];
  cancelled_count = 0;
  queued_for_serasa_removal = 0;
}

-- The contract is matched once; the second line of it is a duplicate.
validated :
    (validate_in_background (some lines) (contract ∷ []) batch).1.contract_ids ≡ contract.id ∷ []
unfolding validate_in_background resolve match_rows find_last query unique_rows
validated = refl

confirmed : (confirm (record batch { status = CreditorRemovalBatchStatus.ready })).0 ≡ queued
unfolding confirm
confirmed = refl

validate_in_background_counts_example :
    AddsUp lines (validate_in_background (some lines) (contract ∷ []) batch).1
validate_in_background_counts_example = validate_in_background_counts lines (contract ∷ []) batch

abbrev removed_row : RemovalRow
removed_row = record {
  contract_number = contract.contract_number;
  debtor_document = contract.debtor_document;
}

resolve-own_example :
    resolve
      (removed_row ∷ removed_row ∷ [])
      contract.account_id
      contract.wallet.creditor_id
      (contract ∷ [])
    ≡ match_rows
        (own contract.account_id contract.wallet.creditor_id (contract ∷ []))
        (removed_row ∷ removed_row ∷ [])
        no_match
resolve-own_example =
    resolve-own (removed_row ∷ removed_row ∷ []) contract.account_id contract.wallet.creditor_id
      (contract ∷ [])

abbrev ids : Text → Ids
ids contract_id = record { operation = 100 + contract_id; item = λ n. 200 + n }

-- The contract was cancelled after the file was checked.
abbrev tables : ProviderState
tables = record {
  store = record empty_store {
    contracts = record contract { status = ContractStatus.cancelled } ∷ [];
  };
  operations = [];
  items = [];
  jobs = [];
  notes = [];
  webhook_events = [];
  wallets = [];
  providers = [];
  users = [];
}

abbrev applying : ApplyState
applying = record {
  batch = record batch {
    status = CreditorRemovalBatchStatus.applying;
    contract_ids = contract.id ∷ 4322 ∷ [];
  };
  tables = tables;
}

abbrev failed_state : ApplyState
failed_state = record applying {
  batch = record applying.batch { status = CreditorRemovalBatchStatus.failed };
}

first_run : apply_in_background ids 20 applying ≡ (throws already_cancelled, failed_state)
unfolding apply_in_background cancel_contract
first_run = refl

apply_in_background_again_example :
    apply_in_background ids 30 failed_state ≡ (throws already_cancelled, failed_state)
apply_in_background_again_example =
    apply_in_background_again ids ids 20 30 applying failed_state already_cancelled
      (refl, (refl, tt)) first_run
