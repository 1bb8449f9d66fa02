-- ===== src/Wire/Hash.antt =====
-- `ContentHash` of crates/wire/src/lib.rs: its text form and how that is parsed. The crate `hex` is
-- a parameter.
pub mod Roundtrip
use sumo_provision.Base.{
  ℕ, ◌≤◌, ◌<◌, ◌≡◌, ◌⊎◌, Bool, Option, none, some, List, [], ◌∷◌, ◌++◌, Text, text, length, All,
  Result, ok, err, ◌>>=◌, ok_or, if◌then◌else◌, nat_eq,
}
use sumo_provision.Wire.Model.{ContentHash, IsDigest}

pub data ParseHashError : Type 0 where
  not_hex wrong_length : ParseHashError

-- a lower-case or upper-case hexadecimal digit
abbrev pub IsHexDigit : ℕ → Type 0
IsHexDigit c = ((48 ≤ c) × (c ≤ 57)) ⊎ (((97 ≤ c) × (c ≤ 102)) ⊎ ((65 ≤ c) × (c ≤ 70)))

-- `hex::encode` and `hex::decode`: what is encoded is decoded, an encoding is made of hexadecimal
-- digits, and what is decoded is a list of bytes.
pub record Hex : Type 0 where
  pub encode : Text → Text
  pub decode : Text → Option Text
  pub decode-encode : (bytes : Text) → All (λ b. b < 256) bytes → decode (encode bytes) ≡ some bytes
  pub encode_digits : (bytes : Text) → All IsHexDigit (encode bytes)
  pub decode_bytes : (s bytes : Text) → decode s ≡ some bytes → All (λ b. b < 256) bytes

-- `str::strip_prefix`
unfoldable pub strip_prefix : Text → Text → Option Text
strip_prefix [] s = some s
strip_prefix (p ∷ ps) [] = none
strip_prefix (p ∷ ps) (c ∷ cs) = if nat_eq p c then strip_prefix ps cs else none

abbrev pub prefix : Text
prefix = text "sha256:"

-- `strip_prefix("sha256:").unwrap_or(s)`
unfoldable pub hex_part : Text → Text
unfolding strip_prefix
hex_part s = elim (strip_prefix prefix s) [ none ↦ s | some rest ↦ rest ]

module _ (hex : Hex) where
  -- `ContentHash::to_prefixed`
  unfoldable pub to_prefixed : ContentHash → Text
  to_prefixed h = prefix ++ hex.encode h

  -- `ContentHash::from_str`
  unfoldable pub from_str : Text → Result ParseHashError ContentHash
  unfolding hex_part
  from_str s = do
    bytes ← ok_or (hex.decode (hex_part s)) not_hex
    if nat_eq (length bytes) 32 then ok bytes else err wrong_length

-- `ContentHash::of`: SHA-256, which is a parameter beside `hex`.
pub record Hashing : Type 0 where
  pub hex : Hex
  pub sha256 : Text → ContentHash
  pub sha256-IsDigest : (bytes : Text) → IsDigest (sha256 bytes)
