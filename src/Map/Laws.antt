-- ===== src/Map/Laws.antt =====
-- Lookups after an insertion, and in a map collected from a list.
use sumo_provision.Base.{
  ◌≡◌, refl, ◌||◌, some, [], ◌∷◌, arith, Ord, any, foldl, ◌&&◌, Bool, List, if◌then◌else◌,
}
use sumo_provision.Map.Defs.{Map, get, insert, Set, has, add, add_if}

module _ {ℓ} {K V : Type ℓ} ⦃o : Ord K⦄ where
  pub get-insert :
      (k j : K) (v : V) (m : Map K V)
      → get j (insert k v m) ≡ (if o.eq.beq k j then some v else get j m)
  unfolding get insert
  get-insert k j v [] = refl
  get-insert k j v ((i, w) ∷ m) =
      ground (arith, get-insert k j v m, o.eq.beq_iff i k, o.eq.beq_iff k j, o.eq.beq_iff i j)

module _ {ℓ} {K : Type ℓ} ⦃o : Ord K⦄ where
  pub has-add : (k j : K) (s : Set K) → has j (add k s) ≡ (o.eq.beq k j || has j s)
  unfolding has add
  has-add k j [] = ground arith
  has-add k j (i ∷ s) =
      ground (arith, has-add k j s, o.eq.beq_iff i k, o.eq.beq_iff k j, o.eq.beq_iff i j)

  -- A loop that adds the key of each item that passes its test.
  pub has-foldl {κ} :
      {A : Type κ} (p : A → Bool) (key : A → K) (j : K) (xs : List A) (s : Set K)
      → has j (foldl (add_if p key) s xs) ≡ (has j s || any (λ x. p x && o.eq.beq (key x) j) xs)
  unfolding any
  has-foldl p key j [] s = ground arith
  has-foldl p key j (x ∷ xs) s = rw (has-foldl p key j xs) (ground (arith, has-add (key x) j s))
