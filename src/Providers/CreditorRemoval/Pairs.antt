-- ===== src/Providers/CreditorRemoval/Pairs.antt =====
-- `pairs`, the rows without repetition, and their batches.
use cobdata_back.Base.{
  ℕ, zero, suc, ◌≡◌, ◌≤◌, refl, sym, ap, ◌∙◌, Bool, true, false, not, ◌&&◌, ◌||◌, Option, none,
  List, [], ◌∷◌, ◌==◌, length-keep, if◌then◌else◌, any, keep, take, length, arith, inl, inr,
  Bool-cases,
}
use cobdata_back.Contracts.{Contract}
use cobdata_back.Providers.CreditorRemoval.{RemovalRow, unique_rows, same_row, drop}

-- Both texts of a row stand in a batch, maybe in different rows.
abbrev pub covers : List RemovalRow → RemovalRow → Bool
covers batch r =
    any (λ (x : RemovalRow). x.contract_number == r.contract_number) batch
    && any (λ (x : RemovalRow). x.debtor_document == r.debtor_document) batch

abbrev pub when_covered : List RemovalRow → RemovalRow → Option Contract → Option Contract
when_covered batch r found = if covers batch r then found else none

pub covers-row :
    (r : RemovalRow) (batch : List RemovalRow)
    → any (same_row r) batch ≡ true
    → covers batch r ≡ true
covers-row r [] h = ground arith
covers-row r (x ∷ xs) h = elim (Bool-cases (same_row r x)) [
  | inl e ↦ ground (arith, e)
  | inr e ↦ ground (arith, e, covers-row r xs (ground arith))
]

pub any-take-drop :
    (p : RemovalRow → Bool) (n : ℕ) (xs : List RemovalRow)
    → any p xs ≡ (any p (take n xs) || any p (drop n xs))
any-take-drop p zero xs = refl
any-take-drop p (suc n) [] = refl
any-take-drop p (suc n) (x ∷ xs) = ground (arith, any-take-drop p n xs)

pub length-drop : (n : ℕ) (xs : List RemovalRow) → length (drop n xs) ≤ length xs
length-drop zero xs = omega arith
length-drop (suc n) [] = omega arith
length-drop (suc n) (x ∷ xs) = omega (arith, length-drop n xs)

pub or_left : (a : Bool) {b : Bool} → (a || b) ≡ true → b ≡ false → a ≡ true
or_left a h k = ground (arith, h, k)

pub length-unique_rows : (rs : List RemovalRow) → length (unique_rows rs) ≤ length rs
unfolding unique_rows
length-unique_rows [] = omega arith
length-unique_rows (r ∷ rs) =
    omega (arith, length-unique_rows rs, length-keep (λ x. not (same_row r x)) (unique_rows rs))

-- Rows that equal another row do not count for a row that differs from it.
pub any-others :
    (r x : RemovalRow) (ys : List RemovalRow)
    → same_row r x ≡ false
    → any (same_row r) (keep (λ y. not (same_row x y)) ys) ≡ any (same_row r) ys
any-others r x [] h = refl
any-others r x (y ∷ ys) h = elim (Bool-cases (same_row x y)) [
  | inl e ↦ rw e (any-others r x ys h ∙ ground (arith, e, h))
  | inr e ↦ rw e (ap (λ b. same_row r y || b) (any-others r x ys h))
]

pub any-unique_rows :
    (r : RemovalRow) (rs : List RemovalRow)
    → any (same_row r) rs ≡ any (same_row r) (unique_rows rs)
unfolding unique_rows
any-unique_rows r [] = refl
any-unique_rows r (x ∷ xs) = elim (Bool-cases (same_row r x)) [
  | inl e ↦ rw e refl
  | inr e ↦ rw e (any-unique_rows r xs ∙ sym (any-others r x (unique_rows xs) e))
]
