-- ===== src/Base/Keys.antt =====
-- What the queries of `Base.Rows` preserve: a property of every row, and rows of different keys.
use Prim.Native.Nat.{ℕ, zero, suc}
use mathlib.Core.Path.{◌≡◌, refl}
use mathlib.Core.Logic.{inl, inr}
use mathlib.Core.Bool.{Bool, false, ◌||◌}
use mathlib.Core.List.{List, [], ◌∷◌}
use native.Mathlib.Omega.{arith}
use cobdata_back.Base.Test.{Bool-cases, leb, ◌==◌}
use cobdata_back.Base.Rows.{
  any, keep, take, order_by, insert_by, put_by, unique_by, unique_from, All,
}

module _ {ℓ κ} {A : Type ℓ} (P : A → Type κ) where
  pub All-keep : (p : A → Bool) (xs : List A) → All P xs → All P (keep p xs)
  All-keep p [] h = tt
  All-keep p (x ∷ xs) h = elim (Bool-cases (p x)) [
    | inl e ↦ rw e (h.0, All-keep p xs h.1)
    | inr e ↦ rw e (All-keep p xs h.1)
  ]

  pub All-take : (n : ℕ) (xs : List A) → All P xs → All P (take n xs)
  All-take zero xs h = tt
  All-take (suc n) [] h = tt
  All-take (suc n) (x ∷ xs) h = (h.0, All-take n xs h.1)

  All-insert_by : (key : A → ℕ) (x : A) (ys : List A) → P x → All P ys → All P (insert_by key x ys)
  All-insert_by key x [] p h = (p, tt)
  All-insert_by key x (y ∷ ys) p h = elim (Bool-cases (leb (key x) (key y))) [
    | inl e ↦ rw e (p, h)
    | inr e ↦ rw e (h.0, All-insert_by key x ys p h.1)
  ]

  pub All-order_by : (key : A → ℕ) (xs : List A) → All P xs → All P (order_by key xs)
  All-order_by key [] h = tt
  All-order_by key (x ∷ xs) h = All-insert_by key x (order_by key xs) h.0 (All-order_by key xs h.1)

  All-put_by : (key : A → ℕ) (x : A) (ys : List A) → P x → All P ys → All P (put_by key x ys)
  All-put_by key x [] p h = (p, tt)
  All-put_by key x (y ∷ ys) p h = elim (Bool-cases (key x == key y)) [
    | inl e ↦ rw e (p, h.1)
    | inr e ↦ rw e (h.0, All-put_by key x ys p h.1)
  ]

  All-unique_from :
      (key : A → ℕ) (acc xs : List A) → All P acc → All P xs → All P (unique_from key acc xs)
  All-unique_from key acc [] h k = h
  All-unique_from key acc (x ∷ xs) h k =
      All-unique_from key (put_by key x acc) xs (All-put_by key x acc k.0 h) k.1

  pub All-unique_by : (key : A → ℕ) (xs : List A) → All P xs → All P (unique_by key xs)
  All-unique_by key xs h = All-unique_from key [] xs tt h

module _ {ℓ} {A : Type ℓ} (key : A → ℕ) where
  abbrev pub has_key : ℕ → A → Bool
  has_key k x = key x == k

  -- No two rows have the same key.
  abbrev pub Distinct : List A → Type 0
  Distinct [] = Unit
  Distinct (x ∷ xs) = (any (has_key (key x)) xs ≡ false) × Distinct xs

  any-put_by :
      (k : ℕ) (x : A) (ys : List A)
      → any (has_key k) (put_by key x ys) ≡ (key x == k || any (has_key k) ys)
  any-put_by k x [] = refl
  any-put_by k x (y ∷ ys) = ground (arith, any-put_by k x ys)

  put_by-Distinct : (x : A) (ys : List A) → Distinct ys → Distinct (put_by key x ys)
  put_by-Distinct x [] h = ground arith
  put_by-Distinct x (y ∷ ys) h = ground (arith, put_by-Distinct x ys h.1, any-put_by (key y) x ys)

  unique_from-Distinct : (acc xs : List A) → Distinct acc → Distinct (unique_from key acc xs)
  unique_from-Distinct acc [] h = h
  unique_from-Distinct acc (x ∷ xs) h =
      unique_from-Distinct (put_by key x acc) xs (put_by-Distinct x acc h)

  pub unique_by-Distinct : (xs : List A) → Distinct (unique_by key xs)
  unique_by-Distinct xs = unique_from-Distinct [] xs tt
