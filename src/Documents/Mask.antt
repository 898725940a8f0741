-- ===== src/Documents/Mask.antt =====
-- The punctuation of a printed number.
use cobdata_back.Base.{
  ℕ, ◌≡◌, refl, arith, suc, Bool, true, false, not, ◌&&◌, ◌||◌, List, [], ◌∷◌, ◌++◌, ◌==◌, length,
  if◌then◌else◌,
}
use cobdata_back.Documents.{
  is_allowed, is_mark, is_numeral, all, normalize_cnpj, is_document, is_valid_cpf, is_valid_cnpj,
}

normalize-mark :
    (xs ys : List ℕ) (c : ℕ)
    → is_mark c ≡ true
    → normalize_cnpj (xs ++ c ∷ ys) ≡ normalize_cnpj (xs ++ ys)
normalize-mark [] ys c h = ground arith
normalize-mark (x ∷ xs) ys c h = ground (arith, normalize-mark xs ys c h)

allowed-mark :
    (xs ys : List ℕ) (c : ℕ)
    → is_mark c ≡ true
    → all is_allowed (xs ++ c ∷ ys) ≡ all is_allowed (xs ++ ys)
allowed-mark [] ys c h = ground arith
allowed-mark (x ∷ xs) ys c h = ground (arith, allowed-mark xs ys c h)

-- The decision on a text that is allowed, by its normal form.
abbrev decide : Bool → List ℕ → Bool
decide allowed document =
    if not allowed
    then false
    else if length document == 11 && all is_numeral document
    then is_valid_cpf document
    else if length document == 14
    then is_valid_cnpj document
    else false

positive : (n : ℕ) → (suc n == 0) ≡ false
positive n = ground arith

not_empty :
    (z a x : Bool) → z ≡ false → (if z || not a then false else x) ≡ (if not a then false else x)
not_empty z a x h = ground arith

-- The decision on a text with a form.
abbrev chosen : List ℕ → Bool
chosen document = decide true document

is_document-decides :
    (value : List ℕ) → is_document value ≡ decide (all is_allowed value) (normalize_cnpj value)
unfolding is_document
is_document-decides [] = refl
is_document-decides (c ∷ cs) =
    not_empty (length (c ∷ cs) == 0) (all is_allowed (c ∷ cs)) (chosen (normalize_cnpj (c ∷ cs)))
      (positive (length cs))

-- A mark of the printed form, or white space, anywhere in a text does not change whether the text
-- is accepted as a document.
pub is_document-mark :
    (xs ys : List ℕ) (c : ℕ)
    → is_mark c ≡ true
    → is_document (xs ++ c ∷ ys) ≡ is_document (xs ++ ys)
is_document-mark xs ys c h =
    rw
      (
        is_document-decides (xs ++ c ∷ ys),
        is_document-decides (xs ++ ys),
        allowed-mark xs ys c h,
        normalize-mark xs ys c h,
      )
      refl
