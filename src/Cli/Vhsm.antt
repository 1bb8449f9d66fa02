-- ===== src/Cli/Vhsm.antt =====
-- The provisioning of crates/cli/src/vhsm.rs. Random bytes, SHA-256, CBOR, COSE and the signing key
-- are parameters, as are the claim labels and the audience of the crate `vhsm-proto`.
pub mod Yaml
pub mod Cwt
use sumo_provision.Base.{
  ℕ, ◌+◌, ◌-◌, Bool, ◌||◌, not, Option, none, some, List, [], ◌∷◌, ◌++◌, Text, text, nat_eq, leb,
  length, if◌then◌else◌, Result, ok, err, ◌>>=◌, ok_or,
}
use sumo_provision.Wire.Hash.{Hashing}
use sumo_provision.Content.{u64}

-- `ValidityWindow`
pub record ValidityWindow : Type 0 where
  pub iat : ℕ
  pub nbf : ℕ
  pub exp : ℕ

-- `saturating_add` on u64
unfoldable pub saturating_add : ℕ → ℕ → ℕ
saturating_add a b = if leb u64 (a + b) then u64 - 1 else a + b

-- `ValidityWindow::from_now`
unfoldable pub from_now : ℕ → ℕ → ValidityWindow
unfolding saturating_add
from_now now_unix lifetime_secs = record {
  iat = now_unix;
  nbf = now_unix;
  exp = saturating_add now_unix lifetime_secs;
}

abbrev pub token_len : ℕ
token_len = 32

unfoldable pub token_sha256_hex : Hashing → Text → Text
token_sha256_hex hashing raw_token = hashing.hex.encode (hashing.sha256 raw_token)

-- `replace` of a character
unfoldable pub replace : ℕ → Text → Text → Text
replace from to [] = []
replace from to (c ∷ s) =
    let rest = replace from to s in if nat_eq c from then to ++ rest else c ∷ rest

unfoldable pub yaml_escape : Text → Text
unfolding replace
yaml_escape s = replace b'"' (92 ∷ b'"' ∷ []) (replace 92 (92 ∷ 92 ∷ []) s)

unfoldable pub bootstrap_yaml_fragment : Text → Text → Text
unfolding yaml_escape
bootstrap_yaml_fragment vm_id sha256_hex =
    text "  \""
    ++ (yaml_escape vm_id
        ++ (text "\":"
            ++ ((10 ∷ text "    sha256: \"")
                ++ (sha256_hex ++ (text "\"" ++ ((10 ∷ text "    consumed: false") ++ 10 ∷ []))))))

unfoldable pub bootstrap_yaml_document : Text → Text → Text
unfolding bootstrap_yaml_fragment
bootstrap_yaml_document vm_id sha256_hex =
    text "tokens:" ++ 10 ∷ bootstrap_yaml_fragment vm_id sha256_hex
