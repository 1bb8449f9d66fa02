-- ===== src/Map/Defs.antt =====
-- The operations of an ordered map.
use mathlib.Core.List.{foldl}
use sumo_provision.Base.{
  Bool, true, false, Option, none, some, List, [], ◌∷◌, map, Ord, if◌then◌else◌, is_some,
}

abbrev pub Map {ℓ} : Type ℓ → Type ℓ → Type ℓ
Map K V = List (K × V)

module _ {ℓ} {K V : Type ℓ} where
  abbrev pub keys : Map K V → List K
  keys = map (λ e. e.0)

  abbrev pub values : Map K V → List V
  values = map (λ e. e.1)

module _ {ℓ} {K V : Type ℓ} ⦃o : Ord K⦄ where
  -- `get`
  unfoldable pub get : K → Map K V → Option V
  get k [] = none
  get k ((j, v) ∷ m) = if o.eq.beq j k then some v else get k m

  -- `contains_key`
  abbrev pub contains_key : K → Map K V → Bool
  contains_key k m = is_some (get k m)

  -- `insert`: a new entry at its place, or a new value for an old key
  unfoldable pub insert : K → V → Map K V → Map K V
  insert k v [] = (k, v) ∷ []
  insert k v ((j, w) ∷ m) =
      let rest = insert k v m in
      if o.lt k j then (k, v) ∷ (j, w) ∷ m else if o.eq.beq j k then (k, v) ∷ m else (j, w) ∷ rest

  abbrev pub insert_entry : Map K V → K × V → Map K V
  insert_entry m (k, v) = insert k v m

  -- `iter.collect()`: a later entry replaces an earlier one
  unfoldable pub from_list : List (K × V) → Map K V
  unfolding insert
  from_list = foldl insert_entry []

-- `BTreeSet`
abbrev pub Set {ℓ} : Type ℓ → Type ℓ
Set K = List K

module _ {ℓ} {K : Type ℓ} ⦃o : Ord K⦄ where
  unfoldable pub has : K → Set K → Bool
  has k [] = false
  has k (j ∷ s) = if o.eq.beq j k then true else has k s

  unfoldable pub add : K → Set K → Set K
  add k [] = k ∷ []
  add k (j ∷ s) =
      let rest = add k s in if o.lt k j then k ∷ j ∷ s else if o.eq.beq j k then k ∷ s else j ∷ rest

  -- insert the key of an item that passes a test
  abbrev pub add_if {κ} : {A : Type κ} → (A → Bool) → (A → K) → Set K → A → Set K
  add_if p key s x = if p x then add (key x) s else s
