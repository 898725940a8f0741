-- ===== src/Documents/Tests.antt =====
-- Runs on known numbers: the CPF 529.982.247-25 and the CNPJ 11.222.333/0001-81.
use cobdata_back.Base.{ℕ, ◌≡◌, refl, true, false, not, ◌&&◌, ◌==◌, List, [], ◌∷◌}
use cobdata_back.Documents.{
  is_valid_cpf, is_valid_cnpj, cpf_digit, cnpj_digit, all, all_same, is_numeral, value_of,
}
use cobdata_back.Documents.CheckDigits.{place_digit, is_valid_cpf-place_digit}

abbrev known_cpf : List ℕ
known_cpf = 53 ∷ 50 ∷ 57 ∷ 57 ∷ 56 ∷ 50 ∷ 50 ∷ 52 ∷ 55 ∷ 50 ∷ 53 ∷ []

abbrev known_cnpj : List ℕ
known_cnpj = 49 ∷ 49 ∷ 50 ∷ 50 ∷ 50 ∷ 51 ∷ 51 ∷ 51 ∷ 48 ∷ 48 ∷ 48 ∷ 49 ∷ 56 ∷ 49 ∷ []

accepts_cpf : is_valid_cpf known_cpf ≡ true
unfolding is_valid_cpf cpf_digit
accepts_cpf = refl

accepts_cnpj : is_valid_cnpj known_cnpj ≡ true
unfolding is_valid_cnpj cnpj_digit
accepts_cnpj = refl

refuses_repeated : is_valid_cpf (49 ∷ 49 ∷ 49 ∷ 49 ∷ 49 ∷ 49 ∷ 49 ∷ 49 ∷ 49 ∷ 49 ∷ 49 ∷ []) ≡ false
unfolding is_valid_cpf
refuses_repeated = refl

is_valid_cpf-place_digit_example : is_valid_cpf known_cpf ≡ (
    all is_numeral known_cpf
    && (not (all_same known_cpf)
        && ((value_of 50 == place_digit 1 (5 ∷ 2 ∷ 9 ∷ 9 ∷ 8 ∷ 2 ∷ 2 ∷ 4 ∷ 7 ∷ []))
            && (value_of 53 == place_digit 0 (5 ∷ 2 ∷ 9 ∷ 9 ∷ 8 ∷ 2 ∷ 2 ∷ 4 ∷ 7 ∷ 2 ∷ [])))))
is_valid_cpf-place_digit_example = is_valid_cpf-place_digit 53 50 57 57 56 50 50 52 55 50 53
