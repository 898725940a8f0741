-- ===== src/Providers/CreditorRemoval.antt =====
-- src/providers/creditor-removal.service.ts: a creditor takes back the contracts of a file. The lines
-- are matched with contracts, the creditor confirms, and a job cancels the contracts one by one.
pub mod Apply
pub mod Matching
pub mod Found
pub mod Pairs
pub mod Batches
mod Tests
use cobdata_back.Base.{
  ℕ, zero, suc, ◌+◌, ◌-◌, ◌%◌, Bool, true, false, not, ◌&&◌, ◌||◌, Option, none, some, List, [],
  ◌∷◌, ◌++◌, ◌==◌, if◌then◌else◌, any, keep, take, map, length, Outcome, returns, throws,
}
use cobdata_back.Contracts.{
  Text, Date, Contract, ContractStatus, PaymentStatus, same_contract_status, same_payment_status,
}
use cobdata_back.Providers.Model.{ProviderState, is_one_of}
use cobdata_back.Providers.Operations.{OperationError, Ids}
use cobdata_back.Providers.Removal.{cancel_contract}

pub data CreditorRemovalBatchStatus : Type 0 where
  pending_validation validating ready applying completed failed : CreditorRemovalBatchStatus

-- A line of the file as the library for spreadsheets reads it: the two texts, trimmed and reduced to
-- digits, and the number of these digits.
pub record Line : Type 0 where
  pub contract_number : Text
  pub debtor_document : Text
  pub digits : ℕ

pub record RemovalRow : Type 0 where
  pub contract_number : Text
  pub debtor_document : Text

abbrev pub is_valid_line : Line → Bool
is_valid_line l = not (l.contract_number == 0) && (l.digits == 11 || l.digits == 14)

-- The rows of the valid lines, and the number of the others.
abbrev pub row_of : Line → RemovalRow
row_of l = record { contract_number = l.contract_number; debtor_document = l.debtor_document }

abbrev pub rows : List Line → List RemovalRow × ℕ
rows ls =
    (map row_of (keep is_valid_line ls), length (keep (λ (l : Line). not (is_valid_line l)) ls))

abbrev pub same_row : RemovalRow → RemovalRow → Bool
same_row a b = a.contract_number == b.contract_number && a.debtor_document == b.debtor_document

-- The values of a `Map` of rows by their two texts: a later row replaces an earlier equal one.
pub unique_rows : List RemovalRow → List RemovalRow
unique_rows [] = []
unique_rows (r ∷ rs) = r ∷ keep (λ x. not (same_row r x)) (unique_rows rs)

abbrev pub drop : ℕ → List RemovalRow → List RemovalRow
drop zero xs = xs
drop (suc n) [] = []
drop (suc n) (x ∷ xs) = drop n xs

abbrev pub batch_limit : ℕ
batch_limit = 2000

-- The contracts that a query for a batch of rows returns.
abbrev pub is_asked : Text → Text → List RemovalRow → Contract → Bool
is_asked account_id creditor_id batch c =
    c.account_id == account_id
    && (not c.deleted
        && (c.wallet.creditor_id == creditor_id
            && (any (λ (r : RemovalRow). r.contract_number == c.contract_number) batch
                && any (λ (r : RemovalRow). r.debtor_document == c.debtor_document) batch)))

-- The queries for the batches from here on; the fuel is the number of rows.
pub query : Text → Text → List Contract → ℕ → List RemovalRow → List Contract
query account_id creditor_id contracts zero pairs = []
query account_id creditor_id contracts (suc fuel) [] = []
query account_id creditor_id contracts (suc fuel) (p ∷ ps) =
    keep (is_asked account_id creditor_id (take batch_limit (p ∷ ps))) contracts
    ++ query account_id creditor_id contracts fuel (drop batch_limit (p ∷ ps))

abbrev pub is_row_of : RemovalRow → Contract → Bool
is_row_of r c = c.contract_number == r.contract_number && c.debtor_document == r.debtor_document

-- `byKey.get`: the last contract that was put under the key.
pub find_last : (Contract → Bool) → List Contract → Option Contract
find_last p [] = none
find_last p (c ∷ cs) = elim (find_last p cs) [
  | none ↦ if p c then some c else none
  | some d ↦ some d
]

pub record Matches : Type 0 where
  pub matched : List Text
  pub unmatched : ℕ
  pub blocked : ℕ
  pub duplicate_lines : ℕ

abbrev pub is_blocked_contract : Contract → Bool
is_blocked_contract c =
    same_contract_status c.status ContractStatus.cancelled
    || same_payment_status c.payment_status PaymentStatus.paid_off

-- One round of the loop over the rows, after `byKey.get`.
abbrev pub match_found : Option Contract → Matches → Matches
match_found none m = record m { unmatched = m.unmatched + 1 }
match_found (some c) m =
    if is_blocked_contract c
    then record m { blocked = m.blocked + 1 }
    else if is_one_of m.matched c.id
    then record m { duplicate_lines = m.duplicate_lines + 1 }
    else record m { matched = m.matched ++ c.id ∷ [] }

abbrev pub match_row : List Contract → RemovalRow → Matches → Matches
match_row contracts r m = match_found (find_last (is_row_of r) contracts) m

pub match_rows : List Contract → List RemovalRow → Matches → Matches
match_rows contracts [] m = m
match_rows contracts (r ∷ rs) m = match_rows contracts rs (match_row contracts r m)

abbrev pub no_match : Matches
no_match = record { matched = []; unmatched = 0; blocked = 0; duplicate_lines = 0 }

unfoldable pub resolve : List RemovalRow → Text → Text → List Contract → Matches
resolve rs account_id creditor_id contracts =
    match_rows (query account_id creditor_id contracts (length rs) (unique_rows rs)) rs no_match

-- model CreditorRemovalBatch, less the file and the message of an error.
pub record CreditorRemovalBatch : Type 0 where
  pub account_id : Text
  pub creditor_id : Text
  pub user_id : Text
  pub status : CreditorRemovalBatchStatus
  pub total_lines : ℕ
  pub valid_lines : ℕ
  pub invalid_lines : ℕ
  pub matched_count : ℕ
  pub unmatched_count : ℕ
  pub blocked_count : ℕ
  pub duplicate_lines : ℕ
  pub contract_ids : List Text
  pub cancelled_count : ℕ
  pub queued_for_serasa_removal : ℕ

abbrev pub with_status : CreditorRemovalBatchStatus → CreditorRemovalBatch → CreditorRemovalBatch
with_status status b = record b { status = status }

-- `validateInBackground`: `file` is the file's lines, or none where it cannot be read.
unfoldable pub validate_in_background :
    Option (List Line) → List Contract → CreditorRemovalBatch → Bool × CreditorRemovalBatch
validate_in_background none contracts b = (false, with_status CreditorRemovalBatchStatus.failed b)
validate_in_background (some ls) contracts b =
    let (valid, invalid) = rows ls in
    let m = resolve valid b.account_id b.creditor_id contracts in
    (
      true,
      record b {
        status = CreditorRemovalBatchStatus.ready;
        total_lines = length valid + invalid;
        valid_lines = length valid;
        invalid_lines = invalid;
        matched_count = length m.matched;
        unmatched_count = m.unmatched;
        blocked_count = m.blocked;
        duplicate_lines = m.duplicate_lines;
        contract_ids = m.matched;
      },
    )

pub data Confirmation : Type 0 where
  already_confirmed queued not_ready : Confirmation

-- `confirm`, for a batch that was found.
unfoldable pub confirm : CreditorRemovalBatch → Confirmation × CreditorRemovalBatch
confirm b = elim b.status [
  | CreditorRemovalBatchStatus.applying ↦ (already_confirmed, b)
  | CreditorRemovalBatchStatus.completed ↦ (already_confirmed, b)
  | CreditorRemovalBatchStatus.ready ↦ (queued, with_status CreditorRemovalBatchStatus.applying b)
  | _ ↦ (not_ready, b)
]
