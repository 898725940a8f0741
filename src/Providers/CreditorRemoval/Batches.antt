-- ===== src/Providers/CreditorRemoval/Batches.antt =====
-- `resolve`: the queries for batches of 2000 rows against one query for all contracts.
use cobdata_back.Base.{
  ℕ, zero, suc, ◌≡◌, ◌≤◌, ◌⊎◌, refl, sym, ap, ◌∙◌, Bool, true, false, not, ◌&&◌, Option, none, List,
  [], ◌∷◌, ◌==◌, ==→≡, ==_refl, any, keep, take, length, arith, inl, inr, Bool-cases, All,
}
use cobdata_back.Contracts.{Text, Contract}
use cobdata_back.Providers.CreditorRemoval.{
  RemovalRow, Matches, find_last, is_row_of, is_asked, match_row, match_found, match_rows, no_match,
  resolve, query, unique_rows, same_row, drop, batch_limit,
}
use cobdata_back.Providers.CreditorRemoval.Found.{
  find_last-append, keep_step, later_again, covered_later, later,
}
use cobdata_back.Providers.CreditorRemoval.Pairs.{
  covers-row, any-take-drop, length-drop, or_left, length-unique_rows, any-unique_rows, covers,
  when_covered,
}

module _ (account_id creditor_id : Text) where
  abbrev pub is_own : Contract → Bool
  is_own c = c.account_id == account_id && (not c.deleted && (c.wallet.creditor_id == creditor_id))

  -- The contracts that the query is about, whatever the numbers and documents.
  abbrev pub own : List Contract → List Contract
  own cs = keep is_own cs

  same_test :
      (batch : List RemovalRow) (r : RemovalRow) (c : Contract)
      → (is_row_of r c && is_asked account_id creditor_id batch c)
        ≡ (is_row_of r c && (is_own c && covers batch r))
  same_test batch r c = elim (Bool-cases (is_row_of r c)) [
    | inl e ↦ ground (
      arith,
      e,
      ap (λ n. any (λ (x : RemovalRow). x.contract_number == n) batch)
          (==→≡ c.contract_number r.contract_number (ground (arith, e))),
      ap (λ n. any (λ (x : RemovalRow). x.debtor_document == n) batch)
          (==→≡ c.debtor_document r.debtor_document (ground (arith, e))),
    )
    | inr e ↦ rw e refl
  ]

  find_last-batch :
      (batch : List RemovalRow) (r : RemovalRow) (cs : List Contract)
      → find_last (is_row_of r) (keep (is_asked account_id creditor_id batch) cs)
        ≡ when_covered batch r (find_last (is_row_of r) (own cs))
  unfolding find_last
  find_last-batch batch r [] = ground arith
  find_last-batch batch r (c ∷ cs) =
      keep_step (is_row_of r) (is_asked account_id creditor_id batch c) c
        (keep (is_asked account_id creditor_id batch) cs)
      ∙ rw (same_test batch r c, find_last-batch batch r cs)
          (covered_later (is_row_of r c) (is_own c) (covers batch r) c
            (find_last (is_row_of r) (own cs)))
      ∙ ap (when_covered batch r) (sym (keep_step (is_row_of r) (is_own c) c (own cs)))

  module _ (cs : List Contract) (r : RemovalRow) where
    abbrev asked_once : Option Contract
    asked_once = find_last (is_row_of r) (own cs)

    abbrev queried : ℕ → List RemovalRow → Option Contract
    queried fuel ps = find_last (is_row_of r) (query account_id creditor_id cs fuel ps)

    first_batch :
        (fuel : ℕ) (p : RemovalRow) (ps : List RemovalRow)
        → queried (suc fuel) (p ∷ ps)
          ≡ later
              (when_covered (take batch_limit (p ∷ ps)) r asked_once)
              (queried fuel (drop batch_limit (p ∷ ps)))
    unfolding query
    first_batch fuel p ps =
        find_last-append (is_row_of r)
          (keep (is_asked account_id creditor_id (take batch_limit (p ∷ ps))) cs)
          (query account_id creditor_id cs fuel (drop batch_limit (p ∷ ps)))
        ∙ ap (λ o. later o (queried fuel (drop batch_limit (p ∷ ps))))
            (find_last-batch (take batch_limit (p ∷ ps)) r cs)

    queried-cases :
        (fuel : ℕ) (ps : List RemovalRow)
        → (queried fuel ps ≡ none) ⊎ (queried fuel ps ≡ asked_once)
    unfolding query find_last
    queried-cases zero ps = inl refl
    queried-cases (suc fuel) [] = inl refl
    queried-cases (suc fuel) (p ∷ ps) = elim (queried-cases fuel (drop batch_limit (p ∷ ps))) [
      | inl e ↦ elim (Bool-cases (covers (take batch_limit (p ∷ ps)) r)) [
        | inl k ↦ inr (first_batch fuel p ps ∙ rw (e, k) refl)
        | inr k ↦ inl (first_batch fuel p ps ∙ rw (e, k) refl)
      ]
      | inr e ↦ inr (
          first_batch fuel p ps
          ∙ rw e (later_again (covers (take batch_limit (p ∷ ps)) r) asked_once))
    ]

    only_first :
        (fuel : ℕ) (p : RemovalRow) (ps : List RemovalRow)
        → any (same_row r) (drop batch_limit (p ∷ ps)) ≡ false
        → any (same_row r) (p ∷ ps) ≡ true
        → later
            (when_covered (take batch_limit (p ∷ ps)) r asked_once)
            (queried fuel (drop batch_limit (p ∷ ps)))
          ≡ asked_once
    only_first fuel p ps e k = elim (queried-cases fuel (drop batch_limit (p ∷ ps))) [
      | inl g ↦ rw (g, in_first) refl
      | inr g ↦ rw (g, in_first) (later_again true asked_once)
    ]
      where
        in_first : covers (take batch_limit (p ∷ ps)) r ≡ true
        in_first = covers-row r (take batch_limit (p ∷ ps)) (
            or_left (any (same_row r) (take batch_limit (p ∷ ps)))
              (sym (any-take-drop (same_row r) batch_limit (p ∷ ps)) ∙ k) e)

    -- A row of the batches is found as by one query for all contracts.
    queried-found :
        (fuel : ℕ) (ps : List RemovalRow)
        → length ps ≤ fuel
        → any (same_row r) ps ≡ true
        → queried fuel ps ≡ asked_once
    queried-found zero [] h k = ground (arith, k)
    queried-found zero (p ∷ ps) h k = absurd (omega arith)
    queried-found (suc fuel) [] h k = ground (arith, k)
    queried-found (suc fuel) (p ∷ ps) h k =
        first_batch fuel p ps ∙ elim (Bool-cases (any (same_row r) (drop batch_limit (p ∷ ps)))) [
          | inl e ↦
              rw
                (queried-found fuel (drop batch_limit (p ∷ ps)) (omega (arith, length-drop 1999 ps))
                  e)
                (later_again (covers (take batch_limit (p ∷ ps)) r) asked_once)
          | inr e ↦ only_first fuel p ps e k
        ]

match_rows_agree :
    (xs ys : List Contract) (rs : List RemovalRow) (m : Matches)
    → All (λ r. find_last (is_row_of r) xs ≡ find_last (is_row_of r) ys) rs
    → match_rows xs rs m ≡ match_rows ys rs m
unfolding match_rows
match_rows_agree xs ys [] m h = refl
match_rows_agree xs ys (r ∷ rs) m h =
    ap (λ found. match_rows xs rs (match_found found m)) h.0
    ∙ match_rows_agree xs ys rs (match_row ys r m) h.1

same_row_refl : (r : RemovalRow) → same_row r r ≡ true
same_row_refl r = ground (arith, ==_refl r.contract_number, ==_refl r.debtor_document)

All_asked :
    (P : RemovalRow → Type 0) (rs ws : List RemovalRow)
    → ((r : RemovalRow) → any (same_row r) ws ≡ true → P r)
    → ((r : RemovalRow) → any (same_row r) rs ≡ true → any (same_row r) ws ≡ true)
    → All P rs
All_asked P [] ws f sub = tt
All_asked P (r ∷ rs) ws f sub = (
  f r (sub r (rw (same_row_refl r) refl)),
  All_asked P rs ws f (λ x e. sub x (ground (arith, e))),
)

-- The queries for batches of 2000 rows match the rows as one query for all contracts of the creditor
-- does.
pub resolve-own :
    (rs : List RemovalRow) (account_id creditor_id : Text) (cs : List Contract)
    → resolve rs account_id creditor_id cs ≡ match_rows (own account_id creditor_id cs) rs no_match
unfolding resolve
resolve-own rs account_id creditor_id cs =
    match_rows_agree (query account_id creditor_id cs (length rs) (unique_rows rs))
      (own account_id creditor_id cs) rs no_match
      (All_asked
        (λ r.
          queried account_id creditor_id cs r (length rs) (unique_rows rs)
          ≡ asked_once account_id creditor_id cs r)
        rs rs
        (λ r e.
          queried-found account_id creditor_id cs r (length rs) (unique_rows rs)
            (length-unique_rows rs) (sym (any-unique_rows r rs) ∙ e))
        (λ r e. e))
