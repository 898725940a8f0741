-- ===== src/Imports/Currency.antt =====
-- `normalizeCurrencyValue`: which amount it reads.
use cobdata_back.Base.{
  ℕ, ◌-◌, ◌≡◌, refl, ap, sym, ◌∙◌, Bool, true, false, not, ◌||◌, List, [], ◌∷◌, ◌++◌, leb,
  if◌then◌else◌, any, any-append, keep, length, length-append, arith, inl, inr, Bool-cases,
}
use cobdata_back.Imports.{
  is_separator, is_numeric, is_empty, decimal_index, without_separators, read_at,
  normalize_currency_value,
}
use cobdata_back.Imports.Separators.{
  has_separator, LastSeparator, has_separator-cases, decimal_index-none, decimal_index_last,
  take-length, skip-length, without_separators_id, has_separator-without_separators,
}

-- Whether a text has other characters than `[0-9,.-]`.
abbrev pub has_other : List ℕ → Bool
has_other cs = any (λ c. not (is_numeric c)) cs

has_other-keep : (cs : List ℕ) → has_other (keep is_numeric cs) ≡ false
has_other-keep [] = refl
has_other-keep (c ∷ cs) = elim (Bool-cases (is_numeric c)) [
  | inl e ↦ rw (e, e) (has_other-keep cs)
  | inr e ↦ rw e (has_other-keep cs)
]

keep_id : (cs : List ℕ) → has_other cs ≡ false → keep is_numeric cs ≡ cs
keep_id [] e = refl
keep_id (c ∷ cs) e = elim (Bool-cases (is_numeric c)) [
  | inl f ↦ rw f (ap (λ t. c ∷ t) (keep_id cs (ground (arith, e))))
  | inr f ↦ absurd (ground (arith, e, f))
]

has_other-without_separators :
    (cs : List ℕ) → has_other cs ≡ false → has_other (without_separators cs) ≡ false
has_other-without_separators [] e = refl
has_other-without_separators (c ∷ cs) e = elim (Bool-cases (is_separator c)) [
  | inl f ↦ rw f (has_other-without_separators cs (ground (arith, e)))
  | inr f ↦ rw f (ground (arith, e, has_other-without_separators cs))
]

without_separators-append :
    (xs ys : List ℕ)
    → without_separators (xs ++ ys) ≡ without_separators xs ++ without_separators ys
without_separators-append [] ys = refl
without_separators-append (x ∷ xs) ys = elim (Bool-cases (is_separator x)) [
  | inl e ↦ rw e (without_separators-append xs ys)
  | inr e ↦ rw e (ap (λ t. x ∷ t) (without_separators-append xs ys))
]

-- What is read of a text with the last separator after `xs`.
abbrev pub amount : List ℕ → List ℕ → List ℕ
amount xs ys =
    if leb (length ys) 2 then without_separators xs ++ 46 ∷ ys else without_separators xs ++ ys

length_after :
    (xs : List ℕ) (c : ℕ) (ys : List ℕ) → length (xs ++ c ∷ ys) - length xs - 1 ≡ length ys
length_after xs c ys = omega (arith, length-append xs (c ∷ ys))

without_last :
    (xs : List ℕ) (c : ℕ) (ys : List ℕ)
    → is_separator c ≡ true
    → has_separator ys ≡ false
    → without_separators (xs ++ c ∷ ys) ≡ without_separators xs ++ ys
without_last xs c ys h e =
    without_separators-append xs (c ∷ ys)
    ∙ ap (λ t. without_separators xs ++ t) (rw h (without_separators_id ys e))

read_at-amount :
    (xs : List ℕ) (c : ℕ) (ys : List ℕ)
    → is_separator c ≡ true
    → has_separator ys ≡ false
    → read_at (xs ++ c ∷ ys) (decimal_index (xs ++ c ∷ ys)) ≡ amount xs ys
read_at-amount xs c ys h e =
    ap (read_at (xs ++ c ∷ ys)) (decimal_index_last xs c ys h e)
    ∙ rw
        (
          length_after xs c ys,
          take-length xs (c ∷ ys),
          skip-length xs c ys,
          without_separators_id ys e,
          without_last xs c ys h e,
        )
        refl

is_empty-append : (xs : List ℕ) (c : ℕ) (ys : List ℕ) → is_empty (xs ++ c ∷ ys) ≡ false
is_empty-append [] c ys = refl
is_empty-append (x ∷ xs) c ys = refl

-- A text whose characters among `[0-9,.-]` are `xs`, a comma or a dot, and `ys` without another: where
-- `ys` has two characters at most, the amount is `xs` without separators, a dot and `ys`, else it is
-- `xs` without separators and `ys`.
pub normalize_currency_value-amount :
    (value xs : List ℕ) (c : ℕ) (ys : List ℕ)
    → keep is_numeric value ≡ xs ++ c ∷ ys
    → is_separator c ≡ true
    → has_separator ys ≡ false
    → normalize_currency_value value ≡ amount xs ys
unfolding normalize_currency_value
normalize_currency_value-amount value xs c ys k h e =
    ap (λ numeric. if is_empty numeric then value else read_at numeric (decimal_index numeric)) k
    ∙ rw (is_empty-append xs c ys) (read_at-amount xs c ys h e)

without_separator-same :
    (cs : List ℕ)
    → has_separator cs ≡ false
    → is_empty cs ≡ false
    → has_other cs ≡ false
    → normalize_currency_value cs ≡ cs
unfolding normalize_currency_value
without_separator-same cs e f g =
    ap (λ numeric. if is_empty numeric then cs else read_at numeric (decimal_index numeric))
      (keep_id cs g)
    ∙ rw f (ap (read_at cs) (decimal_index-none cs e) ∙ without_separators_id cs e)

with_dot-same :
    (xs ys : List ℕ)
    → has_separator xs ≡ false
    → has_separator ys ≡ false
    → has_other xs ≡ false
    → has_other ys ≡ false
    → leb (length ys) 2 ≡ true
    → normalize_currency_value (xs ++ 46 ∷ ys) ≡ xs ++ 46 ∷ ys
with_dot-same xs ys a b f g short =
    normalize_currency_value-amount (xs ++ 46 ∷ ys) xs 46 ys
      (keep_id (xs ++ 46 ∷ ys) (any-append (λ c. not (is_numeric c)) xs (46 ∷ ys) ∙ rw (f, g) refl))
      refl b
    ∙ rw (short, without_separators_id xs a) refl

is_empty-long : (xs ys : List ℕ) → leb (length ys) 2 ≡ false → is_empty (xs ++ ys) ≡ false
is_empty-long [] [] h = absurd (ground (arith, h))
is_empty-long [] (y ∷ ys) h = refl
is_empty-long (x ∷ xs) ys h = refl

amount-same :
    (xs ys : List ℕ)
    → has_separator ys ≡ false
    → has_other xs ≡ false
    → has_other ys ≡ false
    → normalize_currency_value (amount xs ys) ≡ amount xs ys
amount-same xs ys e f g = elim (Bool-cases (leb (length ys) 2)) [
  | inl short ↦ rw short (
      with_dot-same (without_separators xs) ys (has_separator-without_separators xs) e
        (has_other-without_separators xs f) g short)
  | inr long ↦ rw long (
      without_separator-same (without_separators xs ++ ys)
        (any-append is_separator (without_separators xs) ys
          ∙ rw (has_separator-without_separators xs, e) refl)
        (is_empty-long (without_separators xs) ys long)
        (any-append (λ c. not (is_numeric c)) (without_separators xs) ys
          ∙ rw (has_other-without_separators xs f, g) refl))
]

numeric_only :
    (value : List ℕ)
    → has_separator (keep is_numeric value) ≡ false
    → is_empty (keep is_numeric value) ≡ false
    → normalize_currency_value value ≡ keep is_numeric value
unfolding normalize_currency_value
numeric_only value e f = rw f (
    ap (read_at (keep is_numeric value)) (decimal_index-none (keep is_numeric value) e)
    ∙ without_separators_id (keep is_numeric value) e)

nothing_numeric :
    (value : List ℕ)
    → is_empty (keep is_numeric value) ≡ true
    → normalize_currency_value value ≡ value
unfolding normalize_currency_value
nothing_numeric value e = rw e refl

-- A normalized amount is normalized again without a change.
pub normalize_currency_value_twice :
    (value : List ℕ)
    → normalize_currency_value (normalize_currency_value value) ≡ normalize_currency_value value
normalize_currency_value_twice value = elim (has_separator-cases (keep is_numeric value)) [
  | inl e ↦ elim (Bool-cases (is_empty (keep is_numeric value))) [
    | inl f ↦ ap normalize_currency_value (nothing_numeric value f)
    | inr f ↦
        ap normalize_currency_value (numeric_only value e f)
        ∙ without_separator-same (keep is_numeric value) e f (has_other-keep value)
        ∙ sym (numeric_only value e f)
  ]
  | inr l ↦ again l (any-append (λ c. not (is_numeric c)) l.before (l.separator ∷ l.after))
]
  where
    again :
        (l : LastSeparator (keep is_numeric value))
        → has_other (l.before ++ l.separator ∷ l.after)
          ≡ (has_other l.before || has_other (l.separator ∷ l.after))
        → normalize_currency_value (normalize_currency_value value) ≡ normalize_currency_value value
    again l a =
        ap normalize_currency_value reads
        ∙ amount-same l.before l.after l.is_last (ground (arith, a, plain))
            (ground (arith, a, plain))
        ∙ sym reads
      where
        reads : normalize_currency_value value ≡ amount l.before l.after
        reads =
            normalize_currency_value-amount value l.before l.separator l.after l.splits l.is_one
              l.is_last

        plain : has_other (l.before ++ l.separator ∷ l.after) ≡ false
        plain = ap has_other (sym l.splits) ∙ has_other-keep value
