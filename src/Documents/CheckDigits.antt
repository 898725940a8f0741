-- ===== src/Documents/CheckDigits.antt =====
-- The check digits of a CPF against another way to compute them.
use cobdata_back.Base.{
  ℕ, ◌≡◌, ◌+◌, ◌*◌, ◌%◌, arith, Bool, true, false, not, ◌&&◌, List, [], ◌∷◌, map, ◌==◌,
  if◌then◌else◌,
}
use cobdata_back.Documents.{
  is_numeral, all, all_same, value_of, weighted, cpf_weights1, cpf_weights2, cpf_digit,
  is_valid_cpf,
}

-- The sum of the values, each times its place, counted from `place` on.
abbrev pub place_sum : ℕ → List ℕ → ℕ
place_sum place [] = 0
place_sum place (v ∷ vs) = place * v + place_sum (place + 1) vs

-- The remainder by 11, where 10 counts as 0.
abbrev pub place_digit : ℕ → List ℕ → ℕ
place_digit place vs = (place_sum place vs % 11) % 10

-- A digit whose sum, times 10, is another number up to elevens.
cpf_digit-rest :
    (sum other elevens : ℕ) → sum * 10 ≡ other + elevens * 11 → cpf_digit sum ≡ other % 11 % 10
unfolding cpf_digit
cpf_digit-rest sum other elevens h = ground arith

guards :
    (p q r s : Bool)
    → (if not (true && p) then false else if q then false else if not r then false else s)
      ≡ (p && (not q && (r && s)))
guards p q r s = ground arith

module _ (v1 v2 v3 v4 v5 v6 v7 v8 v9 : ℕ) where
  first_place :
      cpf_digit (weighted cpf_weights1 (v1 ∷ v2 ∷ v3 ∷ v4 ∷ v5 ∷ v6 ∷ v7 ∷ v8 ∷ v9 ∷ []))
      ≡ place_digit 1 (v1 ∷ v2 ∷ v3 ∷ v4 ∷ v5 ∷ v6 ∷ v7 ∷ v8 ∷ v9 ∷ [])
  first_place =
      cpf_digit-rest (weighted cpf_weights1 (v1 ∷ v2 ∷ v3 ∷ v4 ∷ v5 ∷ v6 ∷ v7 ∷ v8 ∷ v9 ∷ []))
        (place_sum 1 (v1 ∷ v2 ∷ v3 ∷ v4 ∷ v5 ∷ v6 ∷ v7 ∷ v8 ∷ v9 ∷ []))
        (9 * v1 + 8 * v2 + 7 * v3 + 6 * v4 + 5 * v5 + 4 * v6 + 3 * v7 + 2 * v8 + v9) (omega arith)

  second_place :
      (v10 : ℕ)
      → cpf_digit (weighted cpf_weights2 (v1 ∷ v2 ∷ v3 ∷ v4 ∷ v5 ∷ v6 ∷ v7 ∷ v8 ∷ v9 ∷ v10 ∷ []))
        ≡ place_digit 0 (v1 ∷ v2 ∷ v3 ∷ v4 ∷ v5 ∷ v6 ∷ v7 ∷ v8 ∷ v9 ∷ v10 ∷ [])
  second_place v10 =
      cpf_digit-rest (weighted cpf_weights2 (v1 ∷ v2 ∷ v3 ∷ v4 ∷ v5 ∷ v6 ∷ v7 ∷ v8 ∷ v9 ∷ v10 ∷ []))
        (place_sum 0 (v1 ∷ v2 ∷ v3 ∷ v4 ∷ v5 ∷ v6 ∷ v7 ∷ v8 ∷ v9 ∷ v10 ∷ []))
        (10 * v1 + 9 * v2 + 8 * v3 + 7 * v4 + 6 * v5 + 5 * v6 + 4 * v7 + 3 * v8 + 2 * v9 + v10)
        (omega arith)

module _ (c1 c2 c3 c4 c5 c6 c7 c8 c9 a b : ℕ) where
  abbrev pub cpf : List ℕ
  cpf = c1 ∷ c2 ∷ c3 ∷ c4 ∷ c5 ∷ c6 ∷ c7 ∷ c8 ∷ c9 ∷ a ∷ b ∷ []

  abbrev pub nine : List ℕ
  nine = map value_of (c1 ∷ c2 ∷ c3 ∷ c4 ∷ c5 ∷ c6 ∷ c7 ∷ c8 ∷ c9 ∷ [])

  abbrev pub ten : List ℕ
  ten = map value_of (c1 ∷ c2 ∷ c3 ∷ c4 ∷ c5 ∷ c6 ∷ c7 ∷ c8 ∷ c9 ∷ a ∷ [])

  -- A text of eleven characters is a valid CPF exactly where these are numerals, not all the same,
  -- the tenth is the sum of the first nine, each times its place from 1 to 9, modulo 11 and then
  -- modulo 10, and the eleventh the same for the first ten and the places from 0 to 9.
  pub is_valid_cpf-place_digit : is_valid_cpf cpf ≡ (
      all is_numeral cpf
      && (not (all_same cpf)
          && ((value_of a == place_digit 1 nine) && (value_of b == place_digit 0 ten))))
  unfolding is_valid_cpf
  is_valid_cpf-place_digit =
      rw
        (
          first_place (value_of c1) (value_of c2) (value_of c3) (value_of c4) (value_of c5)
              (value_of c6) (value_of c7) (value_of c8) (value_of c9),
          second_place (value_of c1) (value_of c2) (value_of c3) (value_of c4) (value_of c5)
              (value_of c6) (value_of c7) (value_of c8) (value_of c9) (value_of a),
        )
        (guards (all is_numeral cpf) (all_same cpf) (value_of a == place_digit 1 nine)
          (value_of b == place_digit 0 ten))
