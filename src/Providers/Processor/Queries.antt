-- ===== src/Providers/Processor/Queries.antt =====
-- Lemmas on the queries that the worker makes: a list of ids that were read, and the update of the
-- rows with these ids.
use cobdata_back.Base.{
  sym, ◌∙◌, ◌≤◌, ◌≡◌, refl, Bool, true, false, not, ◌&&◌, some, inl, inr, List, [], ◌∷◌, arith,
  ==_refl, Bool-cases, if◌then◌else◌, find, any, keep, length, update_where, All, Distinct, has_key,
}
use cobdata_back.Contracts.{Text}
use cobdata_back.Providers.Model.{ProviderOperationItem, is_one_of}
use cobdata_back.Providers.Processor.{ids_of}

module _ {ℓ} {A : Type ℓ} where
  pub All-weaken {κ μ} :
      (P : A → Type κ) (Q : A → Type μ)
      → ((x : A) → P x → Q x)
      → (xs : List A) → All P xs
      → All Q xs
  All-weaken P Q step [] h = tt
  All-weaken P Q step (x ∷ xs) h = (step x h.0, All-weaken P Q step xs h.1)

  -- An update of every row that passes leaves none that does, if no changed row passes.
  pub any-update_where_every :
      (p q : A → Bool) (f : A → A)
      → ((x : A) → p (f x) ≡ false)
      → (xs : List A) → All (λ x. p x ≡ true → q x ≡ true) xs
      → any p (update_where q f xs) ≡ false
  any-update_where_every p q f leaves [] h = refl
  any-update_where_every p q f leaves (x ∷ xs) h =
      let rest = any-update_where_every p q f leaves xs h.1 in
      elim (Bool-cases (q x)) [
        | inl e ↦ rw (e, leaves x) rest
        | inr e ↦ elim (Bool-cases (p x)) [
          | inl d ↦ absurd (true_ne_false (sym (h.0 d) ∙ e))
          | inr d ↦ rw (e, d) rest
        ]
      ]
    where
      true_ne_false : true ≡ false → ⊥
      true_ne_false h = cc

  pub All-of_any :
      (p q : A → Bool) (xs : List A)
      → any (λ x. p x && not (q x)) xs ≡ false
      → All (λ x. p x ≡ true → q x ≡ true) xs
  All-of_any p q [] h = tt
  All-of_any p q (x ∷ xs) h = (ground arith, All-of_any p q xs (ground arith))

  pub All-trivial {κ} : (P : A → Type κ) → ((x : A) → P x) → (xs : List A) → All P xs
  All-trivial P h [] = tt
  All-trivial P h (x ∷ xs) = (h x, All-trivial P h xs)

  pub All-compose :
      (p q r : A → Bool) (xs : List A)
      → All (λ x. p x ≡ true → q x ≡ true) xs
      → All (λ x. q x ≡ true → r x ≡ true) xs
      → All (λ x. p x ≡ true → r x ≡ true) xs
  All-compose p q r [] h k = tt
  All-compose p q r (x ∷ xs) h k = (λ e. k.0 (h.0 e), All-compose p q r xs h.1 k.1)

  -- The row that a query finds, after an update of the rows that it passes.
  pub find-updated :
      (p : A → Bool) (f : A → A)
      → ((x : A) → p (f x) ≡ p x)
      → (xs : List A) (x : A) → find p xs ≡ some x
      → find p (update_where p f xs) ≡ some (f x)
  find-updated p f same [] x h = ground arith
  find-updated p f same (y ∷ xs) x h = elim (Bool-cases (p y)) [
    | inl e ↦ ground (arith, same y)
    | inr e ↦ ground (arith, find-updated p f same xs x)
  ]

  -- The row that a query finds, where the update depends on more.
  pub find-updated_if :
      (p q : A → Bool) (f : A → A)
      → ((x : A) → p (f x) ≡ p x)
      → (xs : List A) (x : A) → find p xs ≡ some x
      → find p (update_where q f xs) ≡ some (if q x then f x else x)
  find-updated_if p q f same [] x h = ground arith
  find-updated_if p q f same (y ∷ xs) x h = elim (Bool-cases (p y)) [
    | inl e ↦ ground (arith, same y)
    | inr e ↦ ground (arith, same y, find-updated_if p q f same xs x)
  ]

  pub length-keep_zero : (p : A → Bool) (xs : List A) → length (keep p xs) ≡ 0 → any p xs ≡ false
  length-keep_zero p [] h = refl
  length-keep_zero p (x ∷ xs) h = ground (arith, length-keep_zero p xs)

  pub length-keep_pos : (p : A → Bool) (xs : List A) → any p xs ≡ false → length (keep p xs) ≡ 0
  length-keep_pos p [] h = refl
  length-keep_pos p (x ∷ xs) h = ground (arith, length-keep_pos p xs)

  -- Rows that pass `p` and those that pass `p` and `q`, by their number.
  pub length-keep-le :
      (p q : A → Bool) (xs : List A) → length (keep (λ x. p x && q x) xs) ≤ length (keep p xs)
  length-keep-le p q [] = omega arith
  length-keep-le p q (x ∷ xs) = ground (arith, length-keep-le p q xs)

  pub length-keep_eq :
      (p q : A → Bool) (xs : List A)
      → length (keep (λ x. p x && q x) xs) ≡ length (keep p xs)
      → any (λ x. p x && not (q x)) xs ≡ false
  length-keep_eq p q [] h = refl
  length-keep_eq p q (x ∷ xs) h = ground (arith, length-keep_eq p q xs, length-keep-le p q xs)

  pub length-keep_ne :
      (p q : A → Bool) (xs : List A)
      → any (λ x. p x && not (q x)) xs ≡ false
      → length (keep (λ x. p x && q x) xs) ≡ length (keep p xs)
  length-keep_ne p q [] h = refl
  length-keep_ne p q (x ∷ xs) h = ground (arith, length-keep_ne p q xs)

-- Each row that a query reads has its id in the list of the ids that were read.
pub ids_of-keep :
    (p : ProviderOperationItem → Bool) (xs : List ProviderOperationItem)
    → All (λ x. p x ≡ true → is_one_of (ids_of (keep p xs)) x.id ≡ true) xs
ids_of-keep p [] = tt
ids_of-keep p (x ∷ xs) = (
  λ h. rw h (rw (==_refl x.id) refl),
  All-weaken _ _ (λ y h e. more y (h e)) xs (ids_of-keep p xs),
)
  where
    more :
        (y : ProviderOperationItem)
        → is_one_of (ids_of (keep p xs)) y.id ≡ true
        → is_one_of (ids_of (keep p (x ∷ xs))) y.id ≡ true
    more y h = ground arith

abbrev pub row_id : ProviderOperationItem → Text
row_id i = i.id

is_one_of-any :
    (p : ProviderOperationItem → Bool) (k : Text) (xs : List ProviderOperationItem)
    → any (has_key row_id k) xs ≡ false
    → is_one_of (ids_of (keep p xs)) k ≡ false
is_one_of-any p k [] h = refl
is_one_of-any p k (x ∷ xs) h = ground (arith, is_one_of-any p k xs)

-- Where the ids differ, only the rows that a query read have an id among those that were read.
pub ids_of-keep_only :
    (p : ProviderOperationItem → Bool) (xs : List ProviderOperationItem)
    → Distinct row_id xs
    → All (λ x. is_one_of (ids_of (keep p xs)) x.id ≡ true → p x ≡ true) xs
ids_of-keep_only p [] d = tt
ids_of-keep_only p (x ∷ xs) d =
    (λ h. ground (arith, is_one_of-any p x.id xs d.0), apart xs d.0 (ids_of-keep_only p xs d.1))
  where
    apart :
        (ys : List ProviderOperationItem)
        → any (has_key row_id x.id) ys ≡ false
        → All (λ y. is_one_of (ids_of (keep p xs)) y.id ≡ true → p y ≡ true) ys
        → All (λ y. is_one_of (ids_of (keep p (x ∷ xs))) y.id ≡ true → p y ≡ true) ys
    apart [] e h = tt
    apart (y ∷ ys) e h = (λ g. ground (arith, h.0), apart ys (ground arith) h.1)
