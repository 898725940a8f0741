-- ===== src/Providers/Invariant.antt =====
-- What holds of the items of all operations at any time: a batch has one item at most, since
-- BATCH_SIZE of src/providers/operations.service.ts is 1, ids are unique, and no item is sent more
-- than five times, the limit of the job that sends removals again.
pub mod Effects
pub mod Removals
pub mod Events
pub mod Reach
use cobdata_back.Base.{
  ℕ, zero, suc, ◌+◌, ◌≤◌, ◌<◌, ◌/◌, ◌≡◌, ◌≢◌, refl, Bool, true, false, ◌&&◌, inl, inr, List, [],
  ◌∷◌, ◌++◌, arith, leb, ◌==◌, if◌then◌else◌, Bool-cases, any, any-append, keep, length,
  length-append, update_where, All, All-append, All-update_where, Distinct, has_key,
}
use cobdata_back.Contracts.{Text}
use cobdata_back.Providers.Model.{ProviderOperationItem, is_item_of, is_pending}
use cobdata_back.Providers.Operations.{items_from}
use cobdata_back.Providers.Processor.Queries.{row_id}

abbrev pub in_place : Text → ℕ → ProviderOperationItem → Bool
in_place k b i = is_item_of k i && i.batch_index == b

-- The number of the items of a batch.
abbrev pub batch_length : Text → ℕ → List ProviderOperationItem → ℕ
batch_length k b items = length (keep (in_place k b) items)

-- An item that can still be sent had four attempts at most, any other five.
abbrev pub is_bounded : ProviderOperationItem → Bool
is_bounded i = if is_pending i then leb i.attempts 4 else leb i.attempts 5

pub record IsSound (items : List ProviderOperationItem) : Type 0 where
  pub one : (k b : ℕ) → batch_length k b items ≤ 1
  pub distinct : Distinct row_id items
  pub bounded : All (λ i. is_bounded i ≡ true) items

-- New ids: of an operation, and of its items by their index.
pub record IsFresh (k : Text) (item_id : ℕ → Text) (items : List ProviderOperationItem)
    : Type 0 where
  pub unused : any (is_item_of k) items ≡ false
  pub new : (n : ℕ) → any (has_key row_id (item_id n)) items ≡ false
  pub apart : (n m : ℕ) → item_id n ≡ item_id m → n ≡ m

-- A change that leaves an item in its place.
pub record Stays (f : ProviderOperationItem → ProviderOperationItem) : Type 0 where
  pub id : (i : ProviderOperationItem) → (f i).id ≡ i.id
  pub operation : (i : ProviderOperationItem) → (f i).operation_id ≡ i.operation_id
  pub batch : (i : ProviderOperationItem) → (f i).batch_index ≡ i.batch_index

module _ (q : ProviderOperationItem → Bool) (f : ProviderOperationItem → ProviderOperationItem)
    (stays : Stays f) where
  batch_length-update :
      (k b : ℕ) (xs : List ProviderOperationItem)
      → batch_length k b (update_where q f xs) ≡ batch_length k b xs
  batch_length-update k b [] = refl
  batch_length-update k b (x ∷ xs) =
      ground (arith, stays.operation x, stays.batch x, batch_length-update k b xs)

  any_key-update :
      (k : ℕ) (xs : List ProviderOperationItem)
      → any (has_key row_id k) (update_where q f xs) ≡ any (has_key row_id k) xs
  any_key-update k [] = refl
  any_key-update k (x ∷ xs) = ground (arith, stays.id x, any_key-update k xs)

  update-Distinct :
      (xs : List ProviderOperationItem) → Distinct row_id xs → Distinct row_id (update_where q f xs)
  update-Distinct [] d = tt
  update-Distinct (x ∷ xs) d = (
    rw (any_key-update (row_id (if q x then f x else x)) xs) (ground (arith, stays.id x, d.0)),
    update-Distinct xs d.1,
  )

  bounded-update :
      (xs : List ProviderOperationItem)
      → All (λ i. q i ≡ true → is_bounded i ≡ true → is_bounded (f i) ≡ true) xs
      → All (λ i. is_bounded i ≡ true) xs
      → All (λ i. is_bounded i ≡ true) (update_where q f xs)
  bounded-update [] step h = tt
  bounded-update (x ∷ xs) step h = (
    elim (Bool-cases (q x)) [ inl e ↦ rw e (step.0 e h.0) | inr e ↦ rw e h.0 ],
    bounded-update xs step.1 h.1,
  )

  pub update-IsSound :
      (xs : List ProviderOperationItem)
      → All (λ i. q i ≡ true → is_bounded i ≡ true → is_bounded (f i) ≡ true) xs
      → IsSound xs
      → IsSound (update_where q f xs)
  update-IsSound xs step s = record {
    one = λ k b. rw (batch_length-update k b xs) (s.one k b);
    distinct = update-Distinct xs s.distinct;
    bounded = bounded-update xs step s.bounded;
  }

module _ (k : Text) (item_id : ℕ → Text) where
  -- The new items from an index on are in batches from that index on, one in each.
  new-one :
      (k' b index : ℕ) (cs : List Text)
      → batch_length k' b (items_from k item_id index cs)
        ≤ (if k == k' then (if leb index b then 1 else 0) else 0)
  unfolding items_from
  new-one k' b index [] = ground arith
  new-one k' b index (c ∷ cs) = ground (arith, new-one k' b (index + 1) cs)

  new_key :
      (j index : ℕ) (cs : List Text)
      → ((n : ℕ) → index ≤ n → (item_id n == j) ≡ false)
      → any (has_key row_id j) (items_from k item_id index cs) ≡ false
  unfolding items_from
  new_key j index [] h = refl
  new_key j index (c ∷ cs) h =
      ground (arith, h index, new_key j (index + 1) cs (λ n g. h n (omega arith)))

  module _ (items : List ProviderOperationItem) (fresh : IsFresh k item_id items) where
    id_apart : (n m : ℕ) → n < m → (item_id m == item_id n) ≡ false
    id_apart n m h = ground (arith, fresh.apart m n)

    new-Distinct : (index : ℕ) (cs : List Text) → Distinct row_id (items_from k item_id index cs)
    unfolding items_from
    new-Distinct index [] = tt
    new-Distinct index (c ∷ cs) = (
      new_key (item_id index) (index + 1) cs (λ n g. id_apart index n (omega arith)),
      new-Distinct (index + 1) cs,
    )

    append-Distinct :
        (xs : List ProviderOperationItem) (cs : List Text)
        → ((n : ℕ) → any (has_key row_id (item_id n)) xs ≡ false)
        → Distinct row_id xs
        → Distinct row_id (xs ++ items_from k item_id 0 cs)
    append-Distinct [] cs new d = new-Distinct 0 cs
    append-Distinct (x ∷ xs) cs new d = (
      rw (any-append (has_key row_id x.id) xs (items_from k item_id 0 cs))
          (ground (arith, d.0, new_key x.id 0 cs (λ n g. ground (arith, new n)))),
      append-Distinct xs cs (λ n. ground (arith, new n)) d.1,
    )

    new-bounded :
        (index : ℕ) (cs : List Text)
        → All (λ i. is_bounded i ≡ true) (items_from k item_id index cs)
    unfolding items_from
    new-bounded index [] = tt
    new-bounded index (c ∷ cs) = (refl, new-bounded (index + 1) cs)

    -- The items of a new operation.
    pub grow-IsSound :
        (cs : List Text) → IsSound items → IsSound (items ++ items_from k item_id 0 cs)
    grow-IsSound cs s = record {
      one = λ k' b. place k' b;
      distinct = append-Distinct items cs fresh.new s.distinct;
      bounded = All-append _ items _ s.bounded (new-bounded 0 cs);
    }
      where
        unused_place :
            (b : ℕ) (xs : List ProviderOperationItem)
            → any (is_item_of k) xs ≡ false
            → batch_length k b xs ≡ 0
        unused_place b [] h = refl
        unused_place b (x ∷ xs) h = ground (arith, unused_place b xs)

        append_place :
            (k' b : ℕ) (xs ys : List ProviderOperationItem)
            → batch_length k' b (xs ++ ys) ≡ batch_length k' b xs + batch_length k' b ys
        append_place k' b [] ys = omega arith
        append_place k' b (x ∷ xs) ys = ground (arith, append_place k' b xs ys)

        place : (k' b : ℕ) → batch_length k' b (items ++ items_from k item_id 0 cs) ≤ 1
        place k' b =
            rw (append_place k' b items (items_from k item_id 0 cs)) (elim (Bool-cases (k == k')) [
              | inl e ↦ ground (arith, new-one k' b 0 cs, unused_place b items fresh.unused)
              | inr e ↦ ground (arith, new-one k' b 0 cs, s.one k' b)
            ])
