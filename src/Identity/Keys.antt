-- ===== src/Identity/Keys.antt =====
-- The device keys of crates/identity-tower/src/keystore.rs: `cose_to_sec1` and `sec1_to_cose`. The
-- COSE library is a parameter.
pub mod Roundtrip
use sumo_provision.Base.{
  ℕ, zero, suc, ◌≡◌, Option, none, some, List, [], ◌∷◌, ◌++◌, Text, length, Result, ok, err, ◌>>=◌,
}

-- the first `n` bytes, and what is behind them
unfoldable pub take : ℕ → Text → Text
take zero s = []
take (suc n) [] = []
take (suc n) (c ∷ s) = c ∷ take n s

unfoldable pub drop : ℕ → Text → Text
drop zero s = s
drop (suc n) [] = []
drop (suc n) (c ∷ s) = drop n s

-- `CoseKey`, its coordinates, and `new_ec2_pub_key`. The coordinates have 32 bytes, and a key that is
-- built from coordinates has them.
pub record Cose : Type 1 where
  pub CoseKey : Type 0
  pub from_cose_key_bytes : Text → Option CoseKey
  pub ec2_public_xy : CoseKey → Option (Text × Text)
  pub new_ec2_pub_key : Text → Text → Text
  pub xy_size :
      (key : CoseKey) (x y : Text)
      → ec2_public_xy key ≡ some (x, y)
      → (length x ≡ 32) × (length y ≡ 32)
  pub xy_of_new :
      (x y : Text)
      → length x ≡ 32
      → length y ≡ 32
      → (key : CoseKey) × (from_cose_key_bytes (new_ec2_pub_key x y) ≡ some key)
        × (ec2_public_xy key ≡ some (x, y))

module _ (cose : Cose) where
  open cose use {CoseKey, from_cose_key_bytes, ec2_public_xy, new_ec2_pub_key}

  abbrev pub sec1_of : Option (Text × Text) → Option Text
  sec1_of none = none
  sec1_of (some (x, y)) = some (4 ∷ (x ++ y))

  unfoldable pub cose_to_sec1 : Text → Option Text
  cose_to_sec1 cose_key_cbor = elim (from_cose_key_bytes cose_key_cbor) [
    | none ↦ none
    | some key ↦ sec1_of (ec2_public_xy key)
  ]

  -- from the slices `1..33` and `33..65`
  unfoldable pub sec1_to_cose : Text → Text
  unfolding take drop
  sec1_to_cose sec1 = new_ec2_pub_key (take 32 (drop 1 sec1)) (take 32 (drop 33 sec1))
