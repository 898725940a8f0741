-- ===== src/Imports/Separators.antt =====
-- The last separator of a text.
use cobdata_back.Base.{
  ℕ, suc, ◌+◌, ◌≡◌, ◌⊎◌, refl, ap, ◌∙◌, Bool, true, false, Option, none, some, List, [], ◌∷◌, ◌++◌,
  any, take, length, arith, inl, inr, Bool-cases,
}
use cobdata_back.Imports.{
  is_separator, shifted, last_index_of, max_index, decimal_index, without_separators, skip,
}

abbrev pub has_separator : List ℕ → Bool
has_separator cs = any is_separator cs

pub record LastSeparator (cs : List ℕ) : Type 0 where
  pub before : List ℕ
  pub separator : ℕ
  pub after : List ℕ
  pub is_one : is_separator separator ≡ true
  pub is_last : has_separator after ≡ false
  pub splits : cs ≡ before ++ separator ∷ after

pub has_separator-cases : (cs : List ℕ) → (has_separator cs ≡ false) ⊎ LastSeparator cs
has_separator-cases [] = inl refl
has_separator-cases (c ∷ cs) = elim (has_separator-cases cs) [
  | inr l ↦ inr (record {
    before = c ∷ l.before;
    separator = l.separator;
    after = l.after;
    is_one = l.is_one;
    is_last = l.is_last;
    splits = ap (λ t. c ∷ t) l.splits;
  })
  | inl none_of ↦ elim (Bool-cases (is_separator c)) [
    | inl is_sep ↦ inr (record {
      before = [];
      separator = c;
      after = cs;
      is_one = is_sep;
      is_last = none_of;
      splits = refl;
    })
    | inr e ↦ inl (rw (e, none_of) refl)
  ]
]

last_index_of-none :
    (k : ℕ) (cs : List ℕ)
    → is_separator k ≡ true
    → has_separator cs ≡ false
    → last_index_of k cs ≡ none
last_index_of-none k [] h e = refl
last_index_of-none k (c ∷ cs) h e =
    ap (shifted k c) (last_index_of-none k cs h (ground (arith, e))) ∙ ground (arith, h, e)

pub decimal_index-none : (cs : List ℕ) → has_separator cs ≡ false → decimal_index cs ≡ none
decimal_index-none cs e = rw (last_index_of-none 44 cs refl e, last_index_of-none 46 cs refl e) refl

max_index-shifted :
    (c n : ℕ) (a b : Option ℕ)
    → max_index a b ≡ some n
    → max_index (shifted 44 c a) (shifted 46 c b) ≡ some (n + 1)
max_index-shifted c n none none h = absurd (ground arith)
max_index-shifted c n none (some b) h = ground (arith, h)
max_index-shifted c n (some a) none h = ground (arith, h)
max_index-shifted c n (some a) (some b) h = ground (arith, h)

pub decimal_index_last :
    (xs : List ℕ) (c : ℕ) (ys : List ℕ)
    → is_separator c ≡ true
    → has_separator ys ≡ false
    → decimal_index (xs ++ c ∷ ys) ≡ some (length xs)
decimal_index_last [] c ys h e =
    rw (last_index_of-none 44 ys refl e, last_index_of-none 46 ys refl e) (ground (arith, h))
decimal_index_last (x ∷ xs) c ys h e =
    max_index-shifted x (length xs) (last_index_of 44 (xs ++ c ∷ ys))
      (last_index_of 46 (xs ++ c ∷ ys)) (decimal_index_last xs c ys h e)
    ∙ ap some {x = length xs + 1} {y = suc (length xs)} (omega arith)

pub take-length : (xs ys : List ℕ) → take (length xs) (xs ++ ys) ≡ xs
take-length [] ys = refl
take-length (x ∷ xs) ys = ap (λ t. x ∷ t) (take-length xs ys)

pub skip-length : (xs : List ℕ) (c : ℕ) (ys : List ℕ) → skip (suc (length xs)) (xs ++ c ∷ ys) ≡ ys
skip-length [] c ys = refl
skip-length (x ∷ xs) c ys = skip-length xs c ys

pub without_separators_id : (cs : List ℕ) → has_separator cs ≡ false → without_separators cs ≡ cs
without_separators_id [] e = refl
without_separators_id (c ∷ cs) e = ground (arith, without_separators_id cs)

pub has_separator-without_separators : (cs : List ℕ) → has_separator (without_separators cs) ≡ false
has_separator-without_separators [] = refl
has_separator-without_separators (c ∷ cs) = elim (Bool-cases (is_separator c)) [
  | inl e ↦ rw e (has_separator-without_separators cs)
  | inr e ↦ rw (e, e) (has_separator-without_separators cs)
]
