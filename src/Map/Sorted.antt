-- ===== src/Map/Sorted.antt =====
-- The order of the keys, which insertion keeps, and which makes a map determined by its lookups.
use mathlib.Core.Path.{subst₂}
use sumo_provision.Base.{
  ◌≡◌, refl, true, none, some, [], ◌∷◌, arith, Ord, All, All-imp, is_empty, foldl, if◌then◌else◌,
  List, false, all, all_iff, any, is_some_and, ◌&&◌, ◌↔◌, Bool, Bool-cases, inl, inr,
}
use sumo_provision.Map.Defs.{Map, Set, get, insert, has, add, add_if}

module _ {ℓ} {K V : Type ℓ} ⦃o : Ord K⦄ where
  abbrev pub Below : K → Map K V → Type 0
  Below k m = All (λ e. o.lt k e.0 ≡ true) m

  abbrev pub IsSorted : Map K V → Type 0
  IsSorted [] = Unit
  IsSorted ((k, v) ∷ m) = Below k m × IsSorted m

  Below-trans : (j k : K) (m : Map K V) → o.lt j k ≡ true → Below k m → Below j m
  Below-trans j k [] h b = tt
  Below-trans j k ((i, w) ∷ m) h b = (o.lt_trans j k i h b.0, Below-trans j k m h b.1)

  Below-insert :
      (i k : K) (v : V) (m : Map K V) → o.lt i k ≡ true → Below i m → Below i (insert k v m)
  unfolding insert
  Below-insert i k v [] h b = (h, tt)
  Below-insert i k v ((j, w) ∷ m) h b = ground (arith, Below-insert i k v m h b.1)

  pub insert-IsSorted : (k : K) (v : V) (m : Map K V) → IsSorted m → IsSorted (insert k v m)
  unfolding insert
  insert-IsSorted k v [] h = (tt, tt)
  insert-IsSorted k v ((j, w) ∷ m) h = elim (Bool-cases (o.lt k j)) [
    | inl lt ↦ rw lt ((lt, Below-trans k j m lt h.0), h)
    | inr ge ↦
        ground
          (arith, Below-insert j k v m, insert-IsSorted k v m h.1, o.lt_tri j k, o.eq.beq_iff j k)
  ]

  pub get-Below : (k : K) (m : Map K V) → Below k m → get k m ≡ none
  unfolding get
  get-Below k [] b = refl
  get-Below k ((j, w) ∷ m) b = ground (arith, get-Below k m b.1, o.lt_irrefl k, o.eq.beq_iff j k)

  lt_of_get : (k j : K) (v : V) (m : Map K V) → Below k m → get j m ≡ some v → o.lt k j ≡ true
  unfolding get
  lt_of_get k j v [] b h = cc
  lt_of_get k j v ((i, w) ∷ m) b h = ground (arith, lt_of_get k j v m b.1, o.eq.beq_iff i j, b.0)

  -- What holds of each entry holds of each lookup; in a sorted map the converse holds too.
  pub All→get {κ} :
      (P : K → V → Type κ) (m : Map K V)
      → All (λ e. P e.0 e.1) m
      → (k : K) (v : V) → get k m ≡ some v
      → P k v
  unfolding get
  All→get P [] h k v e = cc
  All→get P ((j, w) ∷ m) h k v e = elim (Bool-cases (o.eq.beq j k)) [
    | inl here ↦
        let same : w ≡ v = ground (arith, e, here) in subst₂ P ((o.eq.beq_iff j k).0 here) same h.0
    | inr there ↦ All→get P m h.1 k v (rw there at e)
  ]

  pub get→All {κ} :
      (P : K → V → Type κ) (m : Map K V)
      → IsSorted m
      → ((k : K) (v : V) → get k m ≡ some v → P k v)
      → All (λ e. P e.0 e.1) m
  unfolding get
  get→All P [] s h = tt
  get→All P ((j, w) ∷ m) s h = (
    h j w (rw ((o.eq.beq_iff j j).1 refl)),
    get→All P m s.1
        (λ k v e. h k v (ground (arith, lt_of_get j k v m s.0, o.lt_irrefl j, o.eq.beq_iff j k))),
  )

  -- A test of every entry is a test at every lookup.
  pub all-get :
      (p : K × V → Bool) (m : Map K V)
      → IsSorted m
      → (all p m ≡ true) ↔ ((k : K) (v : V) → get k m ≡ some v → p (k, v) ≡ true)
  all-get p m s = (
    λ h. All→get (λ k v. p (k, v) ≡ true) m ((all_iff p m).0 h),
    λ h. (all_iff p m).1 (get→All (λ k v. p (k, v) ≡ true) m s h),
  )

  -- A sorted map is determined by its lookups.
  pub IsSorted-ext :
      (m n : Map K V) → IsSorted m → IsSorted n → ((k : K) → get k m ≡ get k n) → m ≡ n
  unfolding get
  IsSorted-ext [] [] s t h = refl
  IsSorted-ext [] ((j, w) ∷ n) s t h = ground (arith, h j, o.eq.beq_iff j j)
  IsSorted-ext ((j, w) ∷ n) [] s t h = ground (arith, h j, o.eq.beq_iff j j)
  IsSorted-ext ((i, v) ∷ m) ((j, w) ∷ n) s t h =
      let same : i ≡ j = ground (
        arith,
        h i,
        h j,
        o.eq.beq_iff i i,
        o.eq.beq_iff j j,
        o.eq.beq_iff i j,
        o.eq.beq_iff j i,
        lt_of_get i j w m s.0,
        lt_of_get j i v n t.0,
        o.lt_irrefl i,
        o.lt_trans i j i,
      ) in
      let value : v ≡ w = ground (arith, h i, o.eq.beq_iff i i, o.eq.beq_iff j i) in
      let tails : m ≡ n = IsSorted-ext m n s.1 t.1 (λ k.
        ground
          (arith, h k, o.eq.beq_iff i k, o.eq.beq_iff j k, get-Below i m s.0, get-Below j n t.0)) in
      cc

  -- A search for an entry with a given key is a lookup.
  pub any-at :
      (g : K → V → Bool) (k : K) (m : Map K V)
      → IsSorted m
      → any (λ e. g e.0 e.1 && o.eq.beq e.0 k) m ≡ is_some_and (g k) (get k m)
  unfolding any get
  any-at g k [] s = refl
  any-at g k ((j, v) ∷ m) s = elim (Bool-cases (o.eq.beq j k)) [
    | inl here ↦
        let same : j ≡ k = (o.eq.beq_iff j k).0 here in
        rw (any-at g k m s.1, here, ← same, get-Below j m s.0) (ground arith)
    | inr there ↦ rw (any-at g k m s.1, there) (ground arith)
  ]

module _ {ℓ} {K : Type ℓ} ⦃o : Ord K⦄ where
  abbrev pub IsAscending : Set K → Type 0
  IsAscending [] = Unit
  IsAscending (k ∷ s) = All (λ j. o.lt k j ≡ true) s × IsAscending s

  lt_trans-All :
      (i k : K) (s : Set K)
      → o.lt i k ≡ true
      → All (λ j. o.lt k j ≡ true) s
      → All (λ j. o.lt i j ≡ true) s
  lt_trans-All i k s h b = All-imp s (λ j. o.lt_trans i k j h) b

  lt-add :
      (i k : K) (s : Set K)
      → o.lt i k ≡ true
      → All (λ j. o.lt i j ≡ true) s
      → All (λ j. o.lt i j ≡ true) (add k s)
  unfolding add
  lt-add i k [] h b = (h, tt)
  lt-add i k (j ∷ s) h b = ground (arith, lt-add i k s h b.1)

  pub add-IsAscending : (k : K) (s : Set K) → IsAscending s → IsAscending (add k s)
  unfolding add
  add-IsAscending k [] h = (tt, tt)
  add-IsAscending k (j ∷ s) h = elim (Bool-cases (o.lt k j)) [
    | inl lt ↦ rw lt ((lt, lt_trans-All k j s lt h.0), h)
    | inr ge ↦ ground (arith, lt-add j k s, add-IsAscending k s h.1, o.lt_tri j k, o.eq.beq_iff j k)
  ]

  pub foldl-IsAscending {κ} :
      {A : Type κ} (p : A → Bool) (key : A → K) (xs : List A) (s : Set K)
      → IsAscending s
      → IsAscending (foldl (add_if p key) s xs)
  foldl-IsAscending p key [] s h = h
  foldl-IsAscending p key (x ∷ xs) s h = foldl-IsAscending p key xs (add_if p key s x) (added (p x))
    where
      added : (b : Bool) → IsAscending (if b then add (key x) s else s)
      added true = add-IsAscending (key x) s h
      added false = h

  -- A set is empty when it has no member.
  pub is_empty-has : (s : Set K) → (is_empty s ≡ true) ↔ ((k : K) → has k s ≡ false)
  unfolding is_empty has
  is_empty-has [] = (λ _ k. refl, λ _. refl)
  is_empty-has (j ∷ s) = (λ h. cc, λ h. ground (arith, h j, o.eq.beq_iff j j))
