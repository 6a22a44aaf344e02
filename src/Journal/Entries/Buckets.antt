-- ===== src/Journal/Entries/Buckets.antt =====
-- The buckets of get_timeline_counts, gubbi/storage/repositories/entries.py.
use gubbi.Prelude.{
  ℕ, ◌+◌, ◌<◌, ◌≡◌, refl, Bool, true, false, ◌&&◌, ◌||◌, List, [], ◌∷◌, ◌++◌, ◌==◌, nat_eq, ltb,
  length, count, map, contains, arith, All, sym, ◌∙◌, ap,
}
use gubbi.Journal.Entries.Timeline.{insert_key, sorted_keys, BucketCount, count_key, group_counts}

unfoldable pub all_above : ℕ → List ℕ → Bool
all_above m [] = true
all_above m (k ∷ ks) = ltb m k && all_above m ks

-- Strictly ascending.
unfoldable pub ascending : List ℕ → Bool
unfolding all_above
ascending [] = true
ascending (k ∷ ks) = all_above k ks && ascending ks

all_above-insert_key :
    (m k : ℕ) (ks : List ℕ) → all_above m (insert_key k ks) ≡ (ltb m k && all_above m ks)
unfolding all_above insert_key
all_above-insert_key m k [] = refl
all_above-insert_key m k (j ∷ js) = ground (arith, all_above-insert_key m k js)

all_above-weaken : (m k : ℕ) (ks : List ℕ) → m < k → all_above k ks ≡ true → all_above m ks ≡ true
unfolding all_above
all_above-weaken m k [] less h = refl
all_above-weaken m k (j ∷ js) less h = ground (arith, all_above-weaken m k js less)

ascending-insert_key :
    (k : ℕ) (ks : List ℕ) → ascending ks ≡ true → ascending (insert_key k ks) ≡ true
unfolding ascending insert_key
ascending-insert_key k [] h = refl
ascending-insert_key k (j ∷ js) h =
    ground (arith, ascending-insert_key k js, all_above-insert_key j k js, all_above-weaken k j js)

ascending-sorted_keys : (ks : List ℕ) → ascending (sorted_keys ks) ≡ true
unfolding ascending sorted_keys
ascending-sorted_keys [] = refl
ascending-sorted_keys (k ∷ ks) = ascending-insert_key k _ (ascending-sorted_keys ks)

contains-insert_key :
    (i k : ℕ) (ks : List ℕ) → contains (insert_key k ks) i ≡ (k == i || contains ks i)
unfolding insert_key
contains-insert_key i k [] = ground arith
contains-insert_key i k (j ∷ js) = ground (arith, contains-insert_key i k js)

contains-sorted_keys : (i : ℕ) (ks : List ℕ) → contains (sorted_keys ks) i ≡ contains ks i
unfolding sorted_keys
contains-sorted_keys i [] = refl
contains-sorted_keys i (k ∷ ks) =
    ground (arith, contains-insert_key i k (sorted_keys ks), contains-sorted_keys i ks)

abbrev pub sum_of : {A : Type 0} → (A → ℕ) → List A → ℕ
sum_of f [] = 0
sum_of f (x ∷ xs) = f x + sum_of f xs

above_absent : (i : ℕ) (ks : List ℕ) → all_above i ks ≡ true → contains ks i ≡ false
unfolding all_above
above_absent i [] h = refl
above_absent i (k ∷ ks) h = ground (arith, above_absent i ks)

abbrev one_if : Bool → ℕ
one_if false = 0
one_if true = 1

sum_key :
    (x : ℕ) (xs ks : List ℕ)
    → ascending ks ≡ true
    → sum_of (count_key (x ∷ xs)) ks ≡ one_if (contains ks x) + sum_of (count_key xs) ks
unfolding ascending
sum_key x xs [] h = refl
sum_key x xs (k ∷ ks) h = ground (arith, sum_key x xs ks, above_absent k ks)

sum_nil : (ks : List ℕ) → sum_of (count_key []) ks ≡ 0
sum_nil [] = refl
sum_nil (k ∷ ks) = omega (arith, sum_nil ks)

sum_keys :
    (xs ks : List ℕ) → ascending ks ≡ true → sum_of (count_key xs) ks ≡ count (contains ks) xs
sum_keys [] ks h = sum_nil ks
sum_keys (x ∷ xs) ks h = ground (arith, sum_key x xs ks h, sum_keys xs ks h)

count_contained :
    (xs zs : List ℕ)
    → ((i : ℕ) → contains xs i ≡ true → contains zs i ≡ true)
    → count (contains zs) xs ≡ length xs
count_contained [] zs h = omega arith
count_contained (x ∷ xs) zs h =
    ground (arith, h x, count_contained xs zs (λ i k. h i (ground arith)))

contains-append :
    (i : ℕ) (xs ys : List ℕ) → contains (xs ++ ys) i ≡ (contains xs i || contains ys i)
contains-append i [] ys = refl
contains-append i (x ∷ xs) ys = ground (arith, contains-append i xs ys)

sum_of-map :
    {A B : Type 0}
    → (f : B → ℕ) (g : A → B) (xs : List A) → sum_of f (map g xs) ≡ sum_of (λ x. f (g x)) xs
sum_of-map f g [] = refl
sum_of-map f g (x ∷ xs) = ap (λ n. f (g x) + n) (sum_of-map f g xs)

sum_grouped :
    (xs zs : List ℕ)
    → ((i : ℕ) → contains xs i ≡ true → contains zs i ≡ true)
    → sum_of (count_key xs) (sorted_keys zs) ≡ length xs
sum_grouped xs zs h =
    sum_keys xs (sorted_keys zs) (ascending-sorted_keys zs)
    ∙ count_contained xs (sorted_keys zs) (λ i k. contains-sorted_keys i zs ∙ h i k)

count_key_positive : (k : ℕ) (xs : List ℕ) → contains xs k ≡ true → 0 < count_key xs k
count_key_positive k [] h = ground arith
count_key_positive k (x ∷ xs) h = ground (arith, count_key_positive k xs)

pub sum_of-entry_count :
    (xs ys : List ℕ) → sum_of (λ (r : BucketCount). r.entry_count) (group_counts xs ys) ≡ length xs
unfolding group_counts
sum_of-entry_count xs ys =
    sum_of-map _ _ (sorted_keys (xs ++ ys))
    ∙ sum_grouped xs (xs ++ ys) (λ i h. ground (arith, contains-append i xs ys))

pub sum_of-conversation_count :
    (xs ys : List ℕ)
    → sum_of (λ (r : BucketCount). r.conversation_count) (group_counts xs ys) ≡ length ys
unfolding group_counts
sum_of-conversation_count xs ys =
    sum_of-map _ _ (sorted_keys (xs ++ ys))
    ∙ sum_grouped ys (xs ++ ys) (λ i h. ground (arith, contains-append i xs ys))

map_bucket :
    (xs ys ks : List ℕ)
    → map
        (λ (r : BucketCount). r.bucket)
        (map
          (λ k. record {
            bucket = k;
            entry_count = count_key xs k;
            conversation_count = count_key ys k;
          })
          ks)
      ≡ ks
map_bucket xs ys [] = refl
map_bucket xs ys (k ∷ ks) = ap (λ js. k ∷ js) (map_bucket xs ys ks)

pub ascending-group_counts :
    (xs ys : List ℕ) → ascending (map (λ (r : BucketCount). r.bucket) (group_counts xs ys)) ≡ true
unfolding group_counts
ascending-group_counts xs ys =
    ap ascending (map_bucket xs ys (sorted_keys (xs ++ ys))) ∙ ascending-sorted_keys (xs ++ ys)

nonempty_rows :
    (xs ys ks : List ℕ)
    → ((k : ℕ) → contains ks k ≡ true → contains (xs ++ ys) k ≡ true)
    → All
        (λ (r : BucketCount). 0 < r.entry_count + r.conversation_count)
        (map
          (λ k. record {
            bucket = k;
            entry_count = count_key xs k;
            conversation_count = count_key ys k;
          })
          ks)
nonempty_rows xs ys [] h = tt
nonempty_rows xs ys (k ∷ ks) h = (
  ground (arith, h k, contains-append k xs ys, count_key_positive k xs, count_key_positive k ys),
  nonempty_rows xs ys ks (λ j g. h j (ground arith)),
)

pub nonempty-group_counts :
    (xs ys : List ℕ)
    → All (λ (r : BucketCount). 0 < r.entry_count + r.conversation_count) (group_counts xs ys)
unfolding group_counts
nonempty-group_counts xs ys =
    nonempty_rows xs ys (sorted_keys (xs ++ ys))
      (λ k h. sym (contains-sorted_keys k (xs ++ ys)) ∙ h)
