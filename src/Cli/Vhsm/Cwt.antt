-- ===== src/Cli/Vhsm/Cwt.antt =====
-- `mint_cwt` of crates/cli/src/vhsm.rs.
use sumo_provision.Base.{
  ℕ, ◌||◌, not, Option, List, [], ◌∷◌, Text, nat_eq, length, if◌then◌else◌, Result, ok, err, ◌>>=◌,
  ok_or,
}
use sumo_provision.Cli.Vhsm.{ValidityWindow}

-- `Value` of the CBOR library, as far as it is built here
mutual
  pub data Value (Integer : Type 0) : Type 0 where
    integer : Integer → Value Integer
    bytes : Text → Value Integer
    characters : Text → Value Integer
    map_of : Entries Integer → Value Integer

  pub data Entries (Integer : Type 0) : Type 0 where
    end : Entries Integer
    entry : Integer → Value Integer → Entries Integer → Entries Integer

pub data CwtError : Type 0 where
  wrong_length not_encoded : CwtError

-- `CoseKey`, with the parameters that are set here
pub record CoseKey (Integer : Type 0) : Type 0 where
  pub kty : Integer
  pub alg : Integer
  pub params : List (Integer × Value Integer)

-- the libraries
pub record Cwt (Integer SigningKey : Type 0) : Type 0 where
  pub of_u64 : ℕ → Integer
  pub one : Integer
  pub claim_iss : Integer
  pub claim_sub : Integer
  pub claim_aud : Integer
  pub claim_exp : Integer
  pub claim_nbf : Integer
  pub claim_iat : Integer
  pub claim_cti : Integer
  pub claim_cnf : Integer
  pub key_crv : Integer
  pub key_x : Integer
  pub key_y : Integer
  pub ec2 : Integer
  pub es256 : Integer
  pub p_256 : Integer
  pub vhsm_audience : Text
  pub to_cbor_value : CoseKey Integer → Option (Value Integer)
  pub into_writer : Value Integer → Option Text
  -- `CoseSign1Builder` with the algorithm ES256 and no additional data, and `to_vec`
  pub sign1 : SigningKey → Text → Option Text

module _ {Integer SigningKey : Type 0} (cwt : Cwt Integer SigningKey) where
  open cwt use {
    of_u64, one, claim_iss, claim_sub, claim_aud, claim_exp, claim_nbf, claim_iat, claim_cti,
    claim_cnf, key_crv, key_x, key_y, ec2, es256, p_256, vhsm_audience, to_cbor_value, into_writer,
    sign1,
  }

  abbrev pub cnf_cose_key : Text → Text → CoseKey Integer
  cnf_cose_key cnf_pub_x cnf_pub_y = record {
    kty = ec2;
    alg = es256;
    params = (key_crv, integer p_256) ∷ (key_x, bytes cnf_pub_x) ∷ (key_y, bytes cnf_pub_y) ∷ [];
  }

  unfoldable pub claims_of : Text → Text → Value Integer → ValidityWindow → Text → Value Integer
  claims_of subject issuer cnf_val validity cti = map_of (
      entry claim_iss (characters issuer) (
        entry claim_sub (characters subject) (
          entry claim_aud (characters vhsm_audience) (
            entry claim_exp (integer (of_u64 validity.exp)) (
              entry claim_nbf (integer (of_u64 validity.nbf)) (
                entry claim_iat (integer (of_u64 validity.iat)) (
                  entry claim_cti (bytes cti)
                    (entry claim_cnf (map_of (entry one cnf_val end)) end))))))))

  abbrev pub check_coordinates : Text → Text → Result CwtError (Unit {0})
  check_coordinates x y =
      if not (nat_eq (length x) 32) || not (nat_eq (length y) 32) then err wrong_length else ok tt

  -- the last argument is what `fill_bytes` drew for the id of the token
  unfoldable pub mint_cwt :
      SigningKey → Text → Text → Text → Text → ValidityWindow → Text → Result CwtError Text
  unfolding claims_of
  mint_cwt signing_key subject issuer cnf_pub_x cnf_pub_y validity cti = do
    checked ← check_coordinates cnf_pub_x cnf_pub_y
    cnf_val ← ok_or (to_cbor_value (cnf_cose_key cnf_pub_x cnf_pub_y)) not_encoded
    payload ← ok_or (into_writer (claims_of subject issuer cnf_val validity cti)) not_encoded
    ok_or (sign1 signing_key payload) not_encoded
