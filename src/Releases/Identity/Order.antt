-- ===== src/Releases/Identity/Order.antt =====
-- Which requests share an identity.
use sumo_provision.Base.{
  ℕ, ◌≡◌, refl, ap, Bool, ◌&&◌, List, [], ◌∷◌, arith, ℕ_eq, nat_eq, nat_eq_iff, Bool-cases, inl,
  inr, filter, contains,
}
use sumo_provision.Wire.Hash.{Hashing}
use sumo_provision.Releases.Identity.{sorted_ids, disabled_ids, vehicle_buffer, vehicle_identity}
use sumo_provision.Releases.Identity.Sorted.{contains-sorted_ids, sorted_ids-ext}

contains-filter :
    (p : ℕ → Bool) (i : ℕ) (xs : List ℕ) → contains (filter p xs) i ≡ (p i && contains xs i)
unfolding contains filter
contains-filter p i [] = ground arith
contains-filter p i (x ∷ xs) = elim (Bool-cases (nat_eq x i)) [
  | inl here ↦
      let same : p x ≡ p i = ap p ((nat_eq_iff x i).0 here) in
      ground (arith, contains-filter p i xs)
  | inr there ↦ ground (arith, contains-filter p i xs)
]

disabled_ids-ext :
    (ms ns ds es : List ℕ)
    → ((i : ℕ) → contains ms i ≡ contains ns i)
    → ((i : ℕ) → (contains ms i && contains ds i) ≡ (contains ns i && contains es i))
    → disabled_ids ms ds ≡ disabled_ids ns es
unfolding disabled_ids
disabled_ids-ext ms ns ds es h k =
    sorted_ids-ext (filter (contains (sorted_ids ms)) ds) (filter (contains (sorted_ids ns)) es)
      (λ i. ground (
        arith,
        contains-filter (contains (sorted_ids ms)) i ds,
        contains-filter (contains (sorted_ids ns)) i es,
        contains-sorted_ids i ms,
        contains-sorted_ids i ns,
        k i,
      ))

-- The identity of a vehicle release depends only on the set of its members and on the set of those
-- members that are disabled.
pub vehicle_identity-ext :
    (hashing : Hashing) (ms ns ds es : List ℕ)
    → ((i : ℕ) → contains ms i ≡ contains ns i)
    → ((i : ℕ) → (contains ms i && contains ds i) ≡ (contains ns i && contains es i))
    → vehicle_identity hashing ms ds ≡ vehicle_identity hashing ns es
unfolding vehicle_identity vehicle_buffer
vehicle_identity-ext hashing ms ns ds es h k =
    rw (disabled_ids-ext ms ns ds es h k, sorted_ids-ext ms ns h) refl
