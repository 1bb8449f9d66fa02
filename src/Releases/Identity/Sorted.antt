-- ===== src/Releases/Identity/Sorted.antt =====
-- The ids of an identity, sorted and without repetition, are the set of the ids.
use sumo_provision.Base.{
  ℕ, ◌≤◌, ◌<◌, ◌≡◌, refl, ◌∙◌, sym, true, false, ◌||◌, List, [], ◌∷◌, arith, ℕ_eq, ℕ_ord, nat_eq,
  ltb, contains, sort_by, insert_by, dedup, All, All-imp, Bool-cases, inl, inr,
}
use sumo_provision.Map.{IsAscending}
use sumo_provision.Releases.Identity.{sorted_ids}

abbrev id_of : ℕ → ℕ
id_of i = i

contains-insert_by :
    (i x : ℕ) (ys : List ℕ) → contains (insert_by id_of x ys) i ≡ (nat_eq x i || contains ys i)
unfolding contains insert_by
contains-insert_by i x [] = refl
contains-insert_by i x (y ∷ ys) = ground (arith, contains-insert_by i x ys)

contains-sort_by : (i : ℕ) (xs : List ℕ) → contains (sort_by id_of xs) i ≡ contains xs i
unfolding contains sort_by
contains-sort_by i [] = refl
contains-sort_by i (x ∷ xs) =
    ground (arith, contains-insert_by i x (sort_by id_of xs), contains-sort_by i xs)

contains-dedup : (i : ℕ) (xs : List ℕ) → contains (dedup xs) i ≡ contains xs i
unfolding contains dedup
contains-dedup i [] = refl
contains-dedup i (x ∷ []) = refl
contains-dedup i (x ∷ y ∷ ys) = ground (arith, contains-dedup i (y ∷ ys))

pub contains-sorted_ids : (i : ℕ) (ids : List ℕ) → contains (sorted_ids ids) i ≡ contains ids i
unfolding sorted_ids
contains-sorted_ids i ids = contains-dedup i (sort_by id_of ids) ∙ contains-sort_by i ids

-- ascending, with repetitions
abbrev IsWeak : List ℕ → Type 0
IsWeak [] = Unit
IsWeak (x ∷ xs) = All (λ y. x ≤ y) xs × IsWeak xs

lower-insert_by :
    (b x : ℕ) (ys : List ℕ) → b ≤ x → All (λ y. b ≤ y) ys → All (λ y. b ≤ y) (insert_by id_of x ys)
unfolding insert_by
lower-insert_by b x [] h k = (h, tt)
lower-insert_by b x (y ∷ ys) h k = ground (arith, lower-insert_by b x ys)

insert_by-IsWeak : (x : ℕ) (ys : List ℕ) → IsWeak ys → IsWeak (insert_by id_of x ys)
unfolding insert_by
insert_by-IsWeak x [] h = (tt, tt)
insert_by-IsWeak x (y ∷ ys) h = elim (Bool-cases (ltb y x)) [
  | inl lt ↦ rw lt ((lower-insert_by y x ys (ground arith) h.0), insert_by-IsWeak x ys h.1)
  | inr ge ↦ rw ge ((ground arith, All-imp ys (λ z k. ground arith) h.0), h)
]

sort_by-IsWeak : (xs : List ℕ) → IsWeak (sort_by id_of xs)
unfolding sort_by
sort_by-IsWeak [] = tt
sort_by-IsWeak (x ∷ xs) = insert_by-IsWeak x (sort_by id_of xs) (sort_by-IsWeak xs)

above-dedup : (b : ℕ) (xs : List ℕ) → All (λ y. b < y) xs → All (λ y. ltb b y ≡ true) (dedup xs)
unfolding dedup
above-dedup b [] h = tt
above-dedup b (x ∷ []) h = (ground arith, tt)
above-dedup b (x ∷ y ∷ ys) h = ground (arith, above-dedup b (y ∷ ys) h.1)

dedup-IsAscending : (xs : List ℕ) → IsWeak xs → IsAscending (dedup xs)
unfolding dedup
dedup-IsAscending [] h = tt
dedup-IsAscending (x ∷ []) h = (tt, tt)
dedup-IsAscending (x ∷ y ∷ ys) h = elim (Bool-cases (nat_eq x y)) [
  | inl same ↦ rw same (dedup-IsAscending (y ∷ ys) h.1)
  | inr other ↦ rw other (
      (
        above-dedup x (y ∷ ys) (ground arith, All-imp ys (λ z k. ground arith) h.1.0),
        dedup-IsAscending (y ∷ ys) h.1,
      ))
]

pub sorted_ids-IsAscending : (ids : List ℕ) → IsAscending (sorted_ids ids)
unfolding sorted_ids
sorted_ids-IsAscending ids = dedup-IsAscending (sort_by id_of ids) (sort_by-IsWeak ids)

below_contains :
    (i j : ℕ) (xs : List ℕ) → All (λ y. ltb i y ≡ true) xs → contains xs j ≡ true → ltb i j ≡ true
unfolding contains
below_contains i j [] b h = cc
below_contains i j (x ∷ xs) b h = ground (arith, below_contains i j xs b.1)

not_contains : (i : ℕ) (xs : List ℕ) → All (λ y. ltb i y ≡ true) xs → contains xs i ≡ false
unfolding contains
not_contains i [] b = refl
not_contains i (x ∷ xs) b = ground (arith, not_contains i xs b.1)

-- An ascending list is determined by its members.
pub IsAscending-ext :
    (xs ys : List ℕ)
    → IsAscending xs
    → IsAscending ys
    → ((i : ℕ) → contains xs i ≡ contains ys i)
    → xs ≡ ys
unfolding contains
IsAscending-ext [] [] s t h = refl
IsAscending-ext [] (y ∷ ys) s t h = ground (arith, h y)
IsAscending-ext (x ∷ xs) [] s t h = ground (arith, h x)
IsAscending-ext (x ∷ xs) (y ∷ ys) s t h =
    let same : x ≡ y =
      ground (arith, h x, h y, below_contains x y xs s.0, below_contains y x ys t.0) in
    let tails : xs ≡ ys = IsAscending-ext xs ys s.1 t.1 (λ i. ground (
      arith,
      h i,
      below_contains x i xs s.0,
      below_contains y i ys t.0,
      not_contains x xs s.0,
      not_contains y ys t.0,
    )) in
    cc

pub sorted_ids-ext :
    (xs ys : List ℕ) → ((i : ℕ) → contains xs i ≡ contains ys i) → sorted_ids xs ≡ sorted_ids ys
sorted_ids-ext xs ys h =
    IsAscending-ext (sorted_ids xs) (sorted_ids ys) (sorted_ids-IsAscending xs)
      (sorted_ids-IsAscending ys)
      (λ i. contains-sorted_ids i xs ∙ h i ∙ sym (contains-sorted_ids i ys))
