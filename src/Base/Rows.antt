-- ===== src/Base/Rows.antt =====
-- A database table is the list of its rows in the order of creation; a `where` clause is a Boolean
-- test on a row. These are the queries that the services make.
use Prim.Native.Nat.{ℕ, zero, suc, ◌+◌, ◌≤◌, max}
use mathlib.Core.Path.{◌≡◌, refl, ap}
use mathlib.Core.Logic.{inl, inr}
use mathlib.Core.Bool.{Bool, true, false, ◌||◌}
use mathlib.Core.Option.{Option, none, some}
use mathlib.Core.List.{List, [], ◌∷◌, ◌++◌}
use native.Mathlib.Omega.{arith}
use cobdata_back.Base.Test.{if◌then◌else◌, Bool-cases, leb, ◌==◌, is_some}

module _ {ℓ} {A : Type ℓ} where
  -- `findFirst`
  abbrev pub find : (A → Bool) → List A → Option A
  find p [] = none
  find p (x ∷ xs) = if p x then some x else find p xs

  abbrev pub any : (A → Bool) → List A → Bool
  any p [] = false
  any p (x ∷ xs) = p x || any p xs

  -- `updateMany`: the rows that pass the test are changed, in place.
  abbrev pub update_where : (A → Bool) → (A → A) → List A → List A
  update_where p f [] = []
  update_where p f (x ∷ xs) = (if p x then f x else x) ∷ update_where p f xs

  -- `findMany`
  abbrev pub keep : (A → Bool) → List A → List A
  keep p [] = []
  keep p (x ∷ xs) = let rest = keep p xs in if p x then x ∷ rest else rest

  abbrev pub length : List A → ℕ
  length [] = 0
  length (x ∷ xs) = suc (length xs)

  -- `_sum` over the rows that pass the test, zero where there is none.
  abbrev pub sum_where : (A → Bool) → (A → ℕ) → List A → ℕ
  sum_where p f [] = 0
  sum_where p f (x ∷ xs) = (if p x then f x else 0) + sum_where p f xs

  -- `_max` over the rows that pass the test, null where there is none.
  abbrev pub max_where : (A → Bool) → (A → ℕ) → List A → Option ℕ
  max_where p f [] = none
  max_where p f (x ∷ xs) =
      let rest = max_where p f xs in
      if p x then some (elim rest [ none ↦ f x | some m ↦ max (f x) m ]) else rest

  -- `orderBy: asc`, by insertion: rows with the same key keep their order.
  abbrev pub insert_by : (A → ℕ) → A → List A → List A
  insert_by key x [] = x ∷ []
  insert_by key x (y ∷ ys) = if leb (key x) (key y) then x ∷ y ∷ ys else y ∷ insert_by key x ys

  abbrev pub order_by : (A → ℕ) → List A → List A
  order_by key [] = []
  order_by key (x ∷ xs) = insert_by key x (order_by key xs)

  abbrev pub take : ℕ → List A → List A
  take zero xs = []
  take (suc n) [] = []
  take (suc n) (x ∷ xs) = x ∷ take n xs

  -- `Array.from(new Map(xs.map(x => [key(x), x])).values())`: a later row replaces an earlier one
  -- with its key, at the earlier one's place.
  abbrev pub put_by : (A → ℕ) → A → List A → List A
  put_by key x [] = x ∷ []
  put_by key x (y ∷ ys) = if key x == key y then x ∷ ys else y ∷ put_by key x ys

  abbrev pub unique_from : (A → ℕ) → List A → List A → List A
  unique_from key acc [] = acc
  unique_from key acc (x ∷ xs) = unique_from key (put_by key x acc) xs

  abbrev pub unique_by : (A → ℕ) → List A → List A
  unique_by key xs = unique_from key [] xs

  pub length-take : (n : ℕ) (xs : List A) → length (take n xs) ≤ n
  length-take zero xs = omega arith
  length-take (suc n) [] = omega arith
  length-take (suc n) (x ∷ xs) = omega (arith, length-take n xs)

  pub length-keep : (p : A → Bool) (xs : List A) → length (keep p xs) ≤ length xs
  length-keep p [] = omega arith
  length-keep p (x ∷ xs) = ground (arith, length-keep p xs)

  length-put_by : (key : A → ℕ) (x : A) (ys : List A) → length (put_by key x ys) ≤ length ys + 1
  length-put_by key x [] = omega arith
  length-put_by key x (y ∷ ys) = ground (arith, length-put_by key x ys)

  pub length-unique_from :
      (key : A → ℕ) (acc xs : List A) → length (unique_from key acc xs) ≤ length acc + length xs
  length-unique_from key acc [] = omega arith
  length-unique_from key acc (x ∷ xs) =
      omega (arith, length-unique_from key (put_by key x acc) xs, length-put_by key x acc)

  pub length-append : (xs ys : List A) → length (xs ++ ys) ≡ length xs + length ys
  length-append [] ys = omega arith
  length-append (x ∷ xs) ys = omega (arith, length-append xs ys)

  pub any-append : (p : A → Bool) (xs ys : List A) → any p (xs ++ ys) ≡ (any p xs || any p ys)
  any-append p [] ys = refl
  any-append p (x ∷ xs) ys = ground (arith, any-append p xs ys)

  pub sum_where-append :
      (p : A → Bool) (f : A → ℕ) (xs ys : List A)
      → sum_where p f (xs ++ ys) ≡ sum_where p f xs + sum_where p f ys
  sum_where-append p f [] ys = omega arith
  sum_where-append p f (x ∷ xs) ys = omega (arith, sum_where-append p f xs ys)

  pub sum_where_none :
      (p : A → Bool) (f : A → ℕ) (xs : List A) → any p xs ≡ false → sum_where p f xs ≡ 0
  sum_where_none p f [] h = refl
  sum_where_none p f (x ∷ xs) h = ground (arith, sum_where_none p f xs)

  pub max_where-is_some :
      (p : A → Bool) (f : A → ℕ) (xs : List A) → any p xs ≡ true → is_some (max_where p f xs) ≡ true
  max_where-is_some p f [] h = ground arith
  max_where-is_some p f (x ∷ xs) h = ground (arith, max_where-is_some p f xs)

  -- A query finds nothing exactly where no row passes.
  pub find-eq-none : (p : A → Bool) (xs : List A) → any p xs ≡ false → find p xs ≡ none
  find-eq-none p [] h = refl
  find-eq-none p (x ∷ xs) h = ground (arith, find-eq-none p xs)

  pub any_of_find : (p : A → Bool) (xs : List A) (x : A) → find p xs ≡ some x → any p xs ≡ true
  any_of_find p [] x h = ground arith
  any_of_find p (y ∷ xs) x h = ground (arith, any_of_find p xs x)

  pub find-passes : (p : A → Bool) (xs : List A) (x : A) → find p xs ≡ some x → p x ≡ true
  find-passes p [] x h = ground arith
  find-passes p (y ∷ xs) x h = ground (arith, find-passes p xs x)

  -- What one query finds passes another one too.
  pub any_of_found :
      (p q : A → Bool) (xs : List A) (x : A) → find p xs ≡ some x → q x ≡ true → any q xs ≡ true
  any_of_found p q [] x h k = ground arith
  any_of_found p q (y ∷ xs) x h k = ground (arith, any_of_found p q xs x)

  -- A query finds a new row where no older one passes.
  pub find-append_new :
      (p : A → Bool) (xs : List A) (x : A)
      → any p xs ≡ false
      → p x ≡ true
      → find p (xs ++ x ∷ []) ≡ some x
  find-append_new p [] x h k = ground arith
  find-append_new p (y ∷ xs) x h k = ground (arith, find-append_new p xs x)

  -- An update that no row passes changes nothing.
  pub update_where_none :
      (p : A → Bool) (f : A → A) (xs : List A) → any p xs ≡ false → update_where p f xs ≡ xs
  update_where_none p f [] h = refl
  update_where_none p f (x ∷ xs) h = ground (arith, update_where_none p f xs)

  -- An update that does not change whether a row passes `p` maps the row that `p` finds.
  pub find-update_where :
      (p q : A → Bool) (f : A → A)
      → ((x : A) → p (f x) ≡ p x)
      → (xs : List A)
      → find p (update_where q f xs)
        ≡ (elim (find p xs) [ none ↦ none | some x ↦ some (if q x then f x else x) ])
  find-update_where p q f same [] = refl
  find-update_where p q f same (x ∷ xs) = ground (arith, same x, find-update_where p q f same xs)

  -- A query does not see an update of other rows.
  pub find-update_where_apart :
      (p q : A → Bool) (f : A → A)
      → ((x : A) → p (f x) ≡ p x)
      → ((x : A) → p x ≡ true → q x ≡ false)
      → (xs : List A) → find p (update_where q f xs) ≡ find p xs
  find-update_where_apart p q f same apart [] = refl
  find-update_where_apart p q f same apart (x ∷ xs) =
      ground (arith, same x, apart x, find-update_where_apart p q f same apart xs)

  pub any-update_where :
      (p q : A → Bool) (f : A → A)
      → ((x : A) → p (f x) ≡ p x)
      → (xs : List A) → any p (update_where q f xs) ≡ any p xs
  any-update_where p q f same [] = refl
  any-update_where p q f same (x ∷ xs) = ground (arith, same x, any-update_where p q f same xs)

  -- An update keeps a row that passes where it keeps what passes.
  pub any_kept :
      (p q : A → Bool) (f : A → A)
      → ((x : A) → p x ≡ true → p (f x) ≡ true)
      → (xs : List A) → any p xs ≡ true
      → any p (update_where q f xs) ≡ true
  any_kept p q f keeps [] h = h
  any_kept p q f keeps (x ∷ xs) h = ground (arith, keeps x, any_kept p q f keeps xs)

  pub length-update_where :
      (p : A → Bool) (f : A → A) (xs : List A) → length (update_where p f xs) ≡ length xs
  length-update_where p f [] = refl
  length-update_where p f (x ∷ xs) = ap suc (length-update_where p f xs)

module _ {ℓ κ} {A : Type ℓ} where
  -- Every row has the property.
  abbrev pub All : (A → Type κ) → List A → Type κ
  All P [] = Unit
  All P (x ∷ xs) = P x × All P xs

  pub All-append : (P : A → Type κ) (xs ys : List A) → All P xs → All P ys → All P (xs ++ ys)
  All-append P [] ys h k = k
  All-append P (x ∷ xs) ys h k = (h.0, All-append P xs ys h.1 k)

  pub All-update_where :
      (P : A → Type κ) (p : A → Bool) (f : A → A)
      → ((x : A) → p x ≡ true → P x → P (f x))
      → (xs : List A) → All P xs
      → All P (update_where p f xs)
  All-update_where P p f step [] h = tt
  All-update_where P p f step (x ∷ xs) h = (
    elim (Bool-cases (p x)) [ inl e ↦ rw e (step x e h.0) | inr e ↦ rw e h.0 ],
    All-update_where P p f step xs h.1,
  )

  -- A property that an update establishes on the rows it changes, and that holds of the others.
  pub All-updated :
      (P : A → Type κ) (p : A → Bool) (f : A → A)
      → ((x : A) → p x ≡ true → P (f x))
      → ((x : A) → p x ≡ false → P x)
      → (xs : List A) → All P (update_where p f xs)
  All-updated P p f changed kept [] = tt
  All-updated P p f changed kept (x ∷ xs) = (
    elim (Bool-cases (p x)) [ inl e ↦ rw e (changed x e) | inr e ↦ rw e (kept x e) ],
    All-updated P p f changed kept xs,
  )
