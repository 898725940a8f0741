-- ===== src/Imports.antt =====
-- src/imports/utils/import-line.util.ts: how an import reads an amount of money. A text is the list of
-- the ASCII codes of its characters.
pub mod Separators
pub mod Currency
mod Tests
use cobdata_back.Base.{
  ℕ, zero, suc, ◌+◌, ◌-◌, max, Bool, true, false, not, ◌&&◌, ◌||◌, Option, none, some, List, [],
  ◌∷◌, ◌++◌, leb, ◌==◌, if◌then◌else◌, keep, take, length,
}
use cobdata_back.Documents.{is_numeral}

-- `[.,]`
abbrev pub is_separator : ℕ → Bool
is_separator c = c == 44 || c == 46

-- `[0-9,.-]`
abbrev pub is_numeric : ℕ → Bool
is_numeric c = is_numeral c || (is_separator c || c == 45)

abbrev pub without_separators : List ℕ → List ℕ
without_separators cs = keep (λ c. not (is_separator c)) cs

-- A position that is one further, for a text that begins with `c`.
abbrev pub shifted : ℕ → ℕ → Option ℕ → Option ℕ
shifted k c none = if c == k then some 0 else none
shifted k c (some n) = some (n + 1)

-- `lastIndexOf`, none for -1.
abbrev pub last_index_of : ℕ → List ℕ → Option ℕ
last_index_of k [] = none
last_index_of k (c ∷ cs) = shifted k c (last_index_of k cs)

-- `Math.max`, where none is -1.
abbrev pub max_index : Option ℕ → Option ℕ → Option ℕ
max_index none n = n
max_index (some m) none = some m
max_index (some m) (some n) = some (max m n)

abbrev pub decimal_index : List ℕ → Option ℕ
decimal_index cs = max_index (last_index_of 44 cs) (last_index_of 46 cs)

-- `slice(n)`
abbrev pub skip : ℕ → List ℕ → List ℕ
skip zero cs = cs
skip (suc n) [] = []
skip (suc n) (c ∷ cs) = skip n cs

abbrev pub is_empty : List ℕ → Bool
is_empty [] = true
is_empty (c ∷ cs) = false

-- What is read of the characters `[0-9,.-]` with the last separator at an index.
abbrev pub read_at : List ℕ → Option ℕ → List ℕ
read_at numeric none = without_separators numeric
read_at numeric (some i) =
    if leb (length numeric - i - 1) 2
    then without_separators (take i numeric) ++ 46 ∷ without_separators (skip (suc i) numeric)
    else without_separators numeric

unfoldable pub normalize_currency_value : List ℕ → List ℕ
normalize_currency_value value =
    let numeric = keep is_numeric value in
    if is_empty numeric then value else read_at numeric (decimal_index numeric)
