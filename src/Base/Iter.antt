-- ===== src/Base/Iter.antt =====
-- Laws of the iterator chains.
use mathlib.Core.List.{flat_map}
use mathlib.Core.Path.{◌≡◌, refl, ap, fun_ext}
use mathlib.Core.Logic.{◌↔◌, inl, inr}
use mathlib.Core.Bool.{Bool, true, false, ◌&&◌, ◌||◌, not}
use mathlib.Core.List.{List, [], ◌∷◌, ◌++◌, map, map-append}
use native.Mathlib.Omega.{arith}
use sumo_provision.Base.Lists.{all, any, filter, filter-append, is_empty, All, Any}
use sumo_provision.Base.Tests.{Bool-cases}

module _ {ℓ} {A : Type ℓ} where
  pub is_empty-append : (xs ys : List A) → is_empty (xs ++ ys) ≡ (is_empty xs && is_empty ys)
  unfolding is_empty
  is_empty-append [] ys = ground arith
  is_empty-append (x ∷ xs) ys = refl

  pub is_empty_iff : (xs : List A) → (is_empty xs ≡ true) ↔ (xs ≡ [])
  unfolding is_empty
  is_empty_iff [] = ground arith
  is_empty_iff (x ∷ xs) = ground arith

  pub is_empty-filter :
      (p : A → Bool) (xs : List A) → is_empty (filter p xs) ≡ all (λ x. not (p x)) xs
  unfolding is_empty filter all
  is_empty-filter p [] = refl
  is_empty-filter p (x ∷ xs) = ground (arith, is_empty-filter p xs)

  pub all_iff : (p : A → Bool) (xs : List A) → (all p xs ≡ true) ↔ All (λ x. p x ≡ true) xs
  unfolding all
  all_iff p [] = (λ _. tt, λ _. refl)
  all_iff p (x ∷ xs) = (
    λ h. (ground arith, (all_iff p xs).0 (ground arith)),
    λ h. ground (arith, (all_iff p xs).1 h.1),
  )

  pub any_iff : (p : A → Bool) (xs : List A) → (any p xs ≡ true) ↔ Any (λ x. p x ≡ true) xs
  unfolding any
  any_iff p [] = (λ h. cc, λ h. absurd h)
  any_iff p (x ∷ xs) = (
    λ h. elim (Bool-cases (p x)) [
      | inl here ↦ inl here
      | inr other ↦ inr ((any_iff p xs).0 (ground (arith, h, other)))
    ],
    λ h. elim h [
      | inl here ↦ ground (arith, here)
      | inr later ↦ ground (arith, (any_iff p xs).1 later)
    ],
  )

  pub All-imp {κ μ} :
      {P : A → Type κ} {Q : A → Type μ} (xs : List A) → ((x : A) → P x → Q x) → All P xs → All Q xs
  All-imp [] f h = tt
  All-imp (x ∷ xs) f h = (f x h.0, All-imp xs f h.1)

  pub any-filter : (p q : A → Bool) (xs : List A) → any q (filter p xs) ≡ any (λ x. p x && q x) xs
  unfolding any filter
  any-filter p q [] = refl
  any-filter p q (x ∷ xs) = ground (arith, any-filter p q xs)

  pub any-append : (p : A → Bool) (xs ys : List A) → any p (xs ++ ys) ≡ (any p xs || any p ys)
  unfolding any
  any-append p [] ys = refl
  any-append p (x ∷ xs) ys = ground (arith, any-append p xs ys)

  pub any-const_false : (xs : List A) → any (λ _. false) xs ≡ false
  unfolding any
  any-const_false [] = refl
  any-const_false (x ∷ xs) = any-const_false xs

module _ {ℓ κ} {A : Type ℓ} {B : Type κ} where
  pub is_empty-map : (f : A → B) (xs : List A) → is_empty (map f xs) ≡ is_empty xs
  unfolding is_empty
  is_empty-map f [] = refl
  is_empty-map f (x ∷ xs) = refl

  pub is_empty-flat_map :
      (f : A → List B) (xs : List A) → is_empty (flat_map f xs) ≡ all (λ x. is_empty (f x)) xs
  unfolding flat_map all is_empty
  is_empty-flat_map f [] = refl
  is_empty-flat_map f (x ∷ xs) =
      ground (arith, is_empty-append (f x) (flat_map f xs), is_empty-flat_map f xs)

  pub all-map : (p : B → Bool) (f : A → B) (xs : List A) → all p (map f xs) ≡ all (λ x. p (f x)) xs
  unfolding all
  all-map p f [] = refl
  all-map p f (x ∷ xs) = ground (arith, all-map p f xs)

  pub any-map : (p : B → Bool) (f : A → B) (xs : List A) → any p (map f xs) ≡ any (λ x. p (f x)) xs
  unfolding any
  any-map p f [] = refl
  any-map p f (x ∷ xs) = ground (arith, any-map p f xs)

  pub any-flat_map :
      (p : B → Bool) (f : A → List B) (xs : List A)
      → any p (flat_map f xs) ≡ any (λ x. any p (f x)) xs
  unfolding flat_map any
  any-flat_map p f [] = refl
  any-flat_map p f (x ∷ xs) =
      ground (arith, any-append p (f x) (flat_map f xs), any-flat_map p f xs)

-- A test that decides a predicate, over a list and over a conjunction.
pub all-All {ℓ κ} :
    {A : Type ℓ} {P : A → Type κ} (p : A → Bool) (xs : List A)
    → ((x : A) → (p x ≡ true) ↔ P x)
    → (all p xs ≡ true) ↔ All P xs
all-All p xs h = (
  λ t. All-imp xs (λ x. (h x).0) ((all_iff p xs).0 t),
  λ t. (all_iff p xs).1 (All-imp xs (λ x. (h x).1) t),
)

pub &&-× {ℓ κ} :
    {P : Type ℓ} {Q : Type κ} (a b : Bool)
    → (a ≡ true) ↔ P
    → (b ≡ true) ↔ Q
    → ((a && b) ≡ true) ↔ (P × Q)
&&-× true b h k = (λ t. (h.0 refl, k.0 t), λ t. k.1 t.1)
&&-× false b h k = (λ t. cc, λ t. h.1 t.0)

module _ {ℓ κ} {A : Type ℓ} {B : Type κ} where
  pub filter-flat_map :
      (p : B → Bool) (f : A → List B) (xs : List A)
      → filter p (flat_map f xs) ≡ flat_map (λ x. filter p (f x)) xs
  unfolding flat_map filter
  filter-flat_map p f [] = refl
  filter-flat_map p f (x ∷ xs) = rw (filter-append p (f x), filter-flat_map p f xs)

  pub flat_map-ext :
      (f g : A → List B) (xs : List A) → ((x : A) → f x ≡ g x) → flat_map f xs ≡ flat_map g xs
  flat_map-ext f g xs h = ap (λ k. flat_map k xs) (fun_ext h)

  abbrev pub nothing : A → List B
  nothing x = []

  pub flat_map-nil : (xs : List A) → flat_map nothing xs ≡ []
  unfolding flat_map
  flat_map-nil [] = refl
  flat_map-nil (x ∷ xs) = flat_map-nil xs

module _ {ℓ κ μ} {A : Type ℓ} {B : Type κ} {C : Type μ} where
  pub map-flat_map :
      (f : B → C) (g : A → List B) (xs : List A)
      → map f (flat_map g xs) ≡ flat_map (λ x. map f (g x)) xs
  unfolding flat_map
  map-flat_map f g [] = refl
  map-flat_map f g (x ∷ xs) = rw (map-append f (g x), map-flat_map f g xs)

module _ {ℓ κ} {A : Type ℓ} {B : Type κ} where
  pub map-filter-append :
      (f : A → B) (p : A → Bool) (xs ys : List A)
      → map f (filter p (xs ++ ys)) ≡ map f (filter p xs) ++ map f (filter p ys)
  map-filter-append f p xs ys = rw (filter-append, map-append)

pub any-ext {ℓ} :
    {A : Type ℓ} {p q : A → Bool} (xs : List A) → ((x : A) → p x ≡ q x) → any p xs ≡ any q xs
any-ext xs h = ap (λ r. any r xs) (fun_ext h)
