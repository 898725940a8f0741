-- ===== src/Documents.antt =====
-- src/common/utils/cpf.util.ts, src/common/utils/cnpj.util.ts and
-- src/common/validators/is-document.validator.ts: the numbers that identify a person or a company.
-- A text is the list of the ASCII codes of its characters.
pub mod CheckDigits
pub mod Mask
mod Tests
use cobdata_back.Base.{
  ℕ, ◌+◌, ◌-◌, ◌*◌, ◌%◌, zero, suc, Bool, true, false, not, ◌&&◌, ◌||◌, List, [], ◌∷◌, ◌++◌, map,
  ltb, leb, ◌==◌, if◌then◌else◌, keep, take, length,
}

abbrev pub is_numeral : ℕ → Bool
is_numeral c = leb 48 c && leb c 57

abbrev pub is_upper : ℕ → Bool
is_upper c = leb 65 c && leb c 90

abbrev pub is_lower : ℕ → Bool
is_lower c = leb 97 c && leb c 122

abbrev pub all : (ℕ → Bool) → List ℕ → Bool
all p [] = true
all p (c ∷ cs) = p c && all p cs

abbrev pub all_same : List ℕ → Bool
all_same [] = true
all_same (c ∷ cs) = all (λ d. d == c) cs

abbrev pub value_of : ℕ → ℕ
value_of c = c - 48

-- The place of a text, 0 beyond its end.
abbrev pub at : ℕ → List ℕ → ℕ
at n [] = 0
at zero (c ∷ cs) = c
at (suc n) (c ∷ cs) = at n cs

-- The sum of the products, as far as the weights go.
abbrev pub weighted : List ℕ → List ℕ → ℕ
weighted [] vs = 0
weighted (w ∷ ws) [] = 0
weighted (w ∷ ws) (v ∷ vs) = v * w + weighted ws vs

abbrev pub cpf_weights1 : List ℕ
cpf_weights1 = 10 ∷ 9 ∷ 8 ∷ 7 ∷ 6 ∷ 5 ∷ 4 ∷ 3 ∷ 2 ∷ []

abbrev pub cpf_weights2 : List ℕ
cpf_weights2 = 11 ∷ 10 ∷ 9 ∷ 8 ∷ 7 ∷ 6 ∷ 5 ∷ 4 ∷ 3 ∷ 2 ∷ []

unfoldable pub cpf_digit : ℕ → ℕ
cpf_digit sum = let remainder = (sum * 10) % 11 in if remainder == 10 then 0 else remainder

unfoldable pub is_valid_cpf : List ℕ → Bool
is_valid_cpf cpf =
    let digits = map value_of cpf in
    if not (length cpf == 11 && all is_numeral cpf)
    then false
    else if all_same cpf
    then false
    else if not (at 9 digits == cpf_digit (weighted cpf_weights1 digits))
    then false
    else at 10 digits == cpf_digit (weighted cpf_weights2 digits)

abbrev pub upper : ℕ → ℕ
upper c = if is_lower c then c - 32 else c

abbrev pub is_alphanumeric : ℕ → Bool
is_alphanumeric c = is_upper c || is_numeral c

abbrev pub normalize_cnpj : List ℕ → List ℕ
normalize_cnpj cs = keep is_alphanumeric (map upper cs)

abbrev pub cnpj_weights1 : List ℕ
cnpj_weights1 = 5 ∷ 4 ∷ 3 ∷ 2 ∷ 9 ∷ 8 ∷ 7 ∷ 6 ∷ 5 ∷ 4 ∷ 3 ∷ 2 ∷ []

abbrev pub cnpj_weights2 : List ℕ
cnpj_weights2 = 6 ∷ 5 ∷ 4 ∷ 3 ∷ 2 ∷ 9 ∷ 8 ∷ 7 ∷ 6 ∷ 5 ∷ 4 ∷ 3 ∷ 2 ∷ []

unfoldable pub cnpj_digit : ℕ → ℕ
cnpj_digit sum = let remainder = sum % 11 in if ltb remainder 2 then 0 else 11 - remainder

unfoldable pub is_valid_cnpj : List ℕ → Bool
is_valid_cnpj cnpj =
    let normalized = normalize_cnpj cnpj in
    let values = map value_of (take 12 normalized) in
    let digit1 = cnpj_digit (weighted cnpj_weights1 values) in
    let digit2 = cnpj_digit (weighted cnpj_weights2 (values ++ digit1 ∷ [])) in
    if not
      (length normalized == 14 && is_numeral (at 12 normalized) && is_numeral (at 13 normalized))
    then false
    else if all_same normalized
    then false
    else if not (value_of (at 12 normalized) == digit1)
    then false
    else value_of (at 13 normalized) == digit2

-- White space, and the marks of the printed form.
abbrev pub is_mark : ℕ → Bool
is_mark c = c == 46 || c == 45 || c == 47 || c == 32 || leb 9 c && leb c 13

abbrev pub is_allowed : ℕ → Bool
is_allowed c = is_numeral c || is_upper c || is_lower c || is_mark c

unfoldable pub is_document : List ℕ → Bool
unfolding is_valid_cpf is_valid_cnpj
is_document value =
    let document = normalize_cnpj value in
    if length value == 0 || not (all is_allowed value)
    then false
    else if length document == 11 && all is_numeral document
    then is_valid_cpf document
    else if length document == 14
    then is_valid_cnpj document
    else false
