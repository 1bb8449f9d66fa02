-- ===== src/Identity/Keys/Roundtrip.antt =====
-- A point through its COSE key, and back.
use sumo_provision.Base.{
  ℕ, zero, suc, ◌+◌, ◌≡◌, refl, sym, ◌∙◌, ap, arith, Option, none, some, [], ◌∷◌, ◌++◌, Text,
  length, length-append, Option-cases, inl, inr,
}
use mathlib.Core.Path.{subst}
use sumo_provision.Identity.Keys.{take, drop, Cose, sec1_of, cose_to_sec1, sec1_to_cose}

pub take-append : (x y : Text) → take (length x) (x ++ y) ≡ x
unfolding take
take-append [] y = refl
take-append (c ∷ x) y = ap (λ s. c ∷ s) (take-append x y)

pub drop-append : (x y : Text) → drop (length x) (x ++ y) ≡ y
unfolding drop
drop-append [] y = refl
drop-append (c ∷ x) y = drop-append x y

take_all : (y : Text) → take (length y) y ≡ y
unfolding take
take_all [] = refl
take_all (c ∷ y) = ap (λ s. c ∷ s) (take_all y)

-- A list of `n + m` bytes is its first `n` and the `m` behind them.
pub split :
    (n m : ℕ) (s : Text)
    → length s ≡ n + m
    → (x y : Text) × (s ≡ x ++ y) × (length x ≡ n) × (length y ≡ m)
split zero m s h = ([], s, refl, refl, omega (arith, h))
split (suc n) m [] h = let no : ⊥ = omega (arith, h) in elim no [ ]
split (suc n) m (c ∷ s) h =
    let (x, y, same, sx, sy) = split n m s (omega (arith, h)) in
    (c ∷ x, y, ap (λ t. c ∷ t) same, ap (λ k. suc k) sx, sy)

module _ (cose : Cose) where
  sec1_to_cose-append :
      (x y : Text)
      → length x ≡ 32
      → length y ≡ 32
      → sec1_to_cose cose (4 ∷ (x ++ y)) ≡ cose.new_ec2_pub_key x y
  unfolding sec1_to_cose drop
  sec1_to_cose-append x y sx sy =
      let first : take 32 (x ++ y) ≡ x = subst (λ n. take n (x ++ y) ≡ x) sx (take-append x y) in
      let behind : drop 32 (x ++ y) ≡ y = subst (λ n. drop n (x ++ y) ≡ y) sx (drop-append x y) in
      let second : take 32 (drop 32 (x ++ y)) ≡ y =
        ap (take 32) behind ∙ subst (λ n. take n y ≡ y) sy (take_all y) in
      ap (λ a. cose.new_ec2_pub_key a (take 32 (drop 32 (x ++ y)))) first
      ∙ ap (λ b. cose.new_ec2_pub_key x b) second

  xy-roundtrip :
      (x y : Text)
      → length x ≡ 32
      → length y ≡ 32
      → cose_to_sec1 cose (sec1_to_cose cose (4 ∷ (x ++ y))) ≡ some (4 ∷ (x ++ y))
  unfolding cose_to_sec1
  xy-roundtrip x y sx sy =
      let (key, parsed, point) = cose.xy_of_new x y sx sy in
      let read : cose_to_sec1 cose (cose.new_ec2_pub_key x y) ≡ some (4 ∷ (x ++ y)) =
        rw (parsed, cose_to_sec1) (ap (sec1_of cose) point) in
      ap (cose_to_sec1 cose) (sec1_to_cose-append x y sx sy) ∙ read

  -- A point behind the byte 4 is read back from the COSE key that is built from it.
  pub sec1-roundtrip :
      (point : Text)
      → length point ≡ 64
      → cose_to_sec1 cose (sec1_to_cose cose (4 ∷ point)) ≡ some (4 ∷ point)
  sec1-roundtrip point size =
      let (x, y, same, sx, sy) = split 32 32 point size in
      subst (λ p. cose_to_sec1 cose (sec1_to_cose cose (4 ∷ p)) ≡ some (4 ∷ p)) (sym same)
        (xy-roundtrip x y sx sy)

  sec1_of-size :
      (o : Option (Text × Text)) (sec1 : Text)
      → ((x y : Text) → o ≡ some (x, y) → (length x ≡ 32) × (length y ≡ 32))
      → sec1_of cose o ≡ some sec1
      → (point : Text) × (sec1 ≡ 4 ∷ point) × (length point ≡ 64)
  sec1_of-size none sec1 sizes h = cc
  sec1_of-size (some (x, y)) sec1 sizes h =
      let (sx, sy) = sizes x y refl in (x ++ y, cc, omega (arith, length-append x y, sx, sy))

  -- A point that is read from a COSE key has 65 bytes, of which the first is 4, and is read back
  -- from the COSE key that is built from it.
  pub cose_to_sec1-size :
      (cose_key_cbor sec1 : Text)
      → cose_to_sec1 cose cose_key_cbor ≡ some sec1
      → (length sec1 ≡ 65)
        × ((point : Text) × (sec1 ≡ 4 ∷ point))
        × (cose_to_sec1 cose (sec1_to_cose cose sec1) ≡ some sec1)
  unfolding cose_to_sec1
  cose_to_sec1-size cose_key_cbor sec1 h =
      elim (Option-cases (cose.from_cose_key_bytes cose_key_cbor)) [
        | inl bad ↦ ground (arith, rw (bad, cose_to_sec1) at h)
        | inr (key, parsed) ↦
            let (point, same, size) =
              sec1_of-size (cose.ec2_public_xy key) sec1 (cose.xy_size key)
                (rw (parsed, cose_to_sec1) at h) in
            rw same (ap (λ n. suc n) size, (point, refl), sec1-roundtrip point size)
      ]
