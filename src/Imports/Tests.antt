-- ===== src/Imports/Tests.antt =====
-- Amounts as creditors write them.
use cobdata_back.Base.{ℕ, ◌≡◌, refl, List, [], ◌∷◌}
use cobdata_back.Imports.{normalize_currency_value}
use cobdata_back.Imports.Currency.{
  amount, normalize_currency_value-amount, normalize_currency_value_twice,
}

-- `R$ 1.234,56`
abbrev brazilian : List ℕ
brazilian = 82 ∷ 36 ∷ 32 ∷ 49 ∷ 46 ∷ 50 ∷ 51 ∷ 52 ∷ 44 ∷ 53 ∷ 54 ∷ []

-- `1234.56`
abbrev decimal : List ℕ
decimal = 49 ∷ 50 ∷ 51 ∷ 52 ∷ 46 ∷ 53 ∷ 54 ∷ []

-- `0.1234`
abbrev four_places : List ℕ
four_places = 48 ∷ 46 ∷ 49 ∷ 50 ∷ 51 ∷ 52 ∷ []

brazilian_read : normalize_currency_value brazilian ≡ decimal
unfolding normalize_currency_value
brazilian_read = refl

-- Four digits after the dot are read as 1234, not as a fraction.
four_places_read : normalize_currency_value four_places ≡ 48 ∷ 49 ∷ 50 ∷ 51 ∷ 52 ∷ []
unfolding normalize_currency_value
four_places_read = refl

normalize_currency_value-amount_example :
    normalize_currency_value brazilian ≡ amount (49 ∷ 46 ∷ 50 ∷ 51 ∷ 52 ∷ []) (53 ∷ 54 ∷ [])
normalize_currency_value-amount_example =
    normalize_currency_value-amount brazilian (49 ∷ 46 ∷ 50 ∷ 51 ∷ 52 ∷ []) 44 (53 ∷ 54 ∷ []) refl
      refl refl

normalize_currency_value_twice_example :
    normalize_currency_value (normalize_currency_value brazilian)
    ≡ normalize_currency_value brazilian
normalize_currency_value_twice_example = normalize_currency_value_twice brazilian
