-- ===== src/Providers/CreditorRemoval/Matching.antt =====
-- The counts of `validateInBackground`.
use cobdata_back.Base.{
  ℕ, ◌+◌, ◌≡◌, refl, not, Option, none, some, List, [], ◌∷◌, keep, map, length, arith, inl, inr,
  Bool-cases, length-append,
}
use cobdata_back.Contracts.{Text, Contract}
use cobdata_back.Providers.Model.{is_one_of}
use cobdata_back.Providers.CreditorRemoval.{
  RemovalRow, Line, CreditorRemovalBatch, CreditorRemovalBatchStatus, is_valid_line, row_of,
  Matches, find_last, is_row_of, is_blocked_contract, match_found, match_row, match_rows, no_match,
  resolve, query, unique_rows, validate_in_background,
}

-- The rows that are counted under one of the four headings.
abbrev pub counted : Matches → ℕ
counted m = length m.matched + m.unmatched + m.blocked + m.duplicate_lines

counted-match_found :
    (found : Option Contract) (m : Matches) → counted (match_found found m) ≡ counted m + 1
counted-match_found none m = omega arith
counted-match_found (some c) m = elim (Bool-cases (is_blocked_contract c)) [
  | inl e ↦ rw e (omega arith)
  | inr e ↦ rw e (elim (Bool-cases (is_one_of m.matched c.id)) [
    | inl f ↦ rw f (omega arith)
    | inr f ↦ rw f (omega (arith, length-append m.matched (c.id ∷ [])))
  ])
]

counted-match_rows :
    (cs : List Contract) (rs : List RemovalRow) (m : Matches)
    → counted (match_rows cs rs m) ≡ counted m + length rs
unfolding match_rows
counted-match_rows cs [] m = omega arith
counted-match_rows cs (r ∷ rs) m = omega (
  arith,
  counted-match_found (find_last (is_row_of r) cs) m,
  counted-match_rows cs rs (match_row cs r m),
)

counted-resolve :
    (rs : List RemovalRow) (account_id creditor_id : Text) (cs : List Contract)
    → counted (resolve rs account_id creditor_id cs) ≡ length rs
unfolding resolve
counted-resolve rs account_id creditor_id cs = omega (
  arith,
  counted-match_rows (query account_id creditor_id cs (length rs) (unique_rows rs)) rs no_match,
)

length-keep-not :
    (ls : List Line)
    → length (map row_of (keep is_valid_line ls)) + length (keep (λ l. not (is_valid_line l)) ls)
      ≡ length ls
length-keep-not [] = omega arith
length-keep-not (l ∷ ls) = elim (Bool-cases (is_valid_line l)) [
  | inl e ↦ rw e (omega (arith, length-keep-not ls))
  | inr e ↦ rw e (omega (arith, length-keep-not ls))
]

-- What the creditor sees of a checked file adds up.
pub record AddsUp (ls : List Line) (b : CreditorRemovalBatch) : Type 0 where
  pub ready : b.status ≡ CreditorRemovalBatchStatus.ready
  pub lines : b.total_lines ≡ length ls
  pub valid : b.valid_lines + b.invalid_lines ≡ b.total_lines
  pub found :
      b.matched_count + b.unmatched_count + b.blocked_count + b.duplicate_lines ≡ b.valid_lines
  pub contracts : length b.contract_ids ≡ b.matched_count

-- After the check of a file that can be read, the batch is ready, each line is counted as valid or
-- invalid, and each valid line once as matched, unmatched, blocked or a duplicate; the batch has as
-- many contracts as it has matched lines.
pub validate_in_background_counts :
    (ls : List Line) (cs : List Contract) (b : CreditorRemovalBatch)
    → AddsUp ls (validate_in_background (some ls) cs b).1
unfolding validate_in_background
validate_in_background_counts ls cs b = record {
  ready = refl;
  lines = length-keep-not ls;
  valid = refl;
  found = counted-resolve (map row_of (keep is_valid_line ls)) b.account_id b.creditor_id cs;
  contracts = refl;
}
