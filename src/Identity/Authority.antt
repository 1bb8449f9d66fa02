-- ===== src/Identity/Authority.antt =====
-- The certificate authority of crates/identity-tower/src/ca.rs, and the handlers of devices.rs that
-- call it directly. The drawn random bytes, the drawn key of a delegate and the time are arguments.
-- Generating, loading and saving an authority is not modelled.
pub mod Crates
pub mod Requests
pub mod Issued
pub mod Delegated
pub mod Serial
use sumo_provision.Base.{
  ℕ, Option, none, some, ◌+◌, ◌*◌, ◌/◌, ◌%◌, ◌-◌, zero, suc, List, [], ◌∷◌, ◌++◌, Text, text,
  Result, ok, err, ◌>>=◌, ok_or, or_err, if◌then◌else◌, to_string, length, nat_eq,
}
use sumo_provision.Wire.Hash.{Hashing, to_prefixed}
use sumo_provision.Identity.Roster.{LeafUsage, client, mtls, IssuedCert, Ca, AppError, internal}
use Crates.{
  X509, Draft, Ext, extended_key_usage, subject_alt_name, delegated_rights, client_auth,
  server_auth, Purpose, leaf, DateTime,
}

abbrev pub leaf_validity : ℕ
leaf_validity = 825 * 24 * 3600

-- `{:02}` and `{:04}`
unfoldable pub zero_pad : ℕ → Text → Text
zero_pad width s = zeros (width - length s) ++ s
  where
    zeros : ℕ → Text
    zeros zero = []
    zeros (suc n) = b'0' ∷ zeros n

-- `fmt_rfc3339`
unfoldable pub fmt_rfc3339 : DateTime → Text
unfolding zero_pad to_string
fmt_rfc3339 t =
    zero_pad 4 (to_string t.year)
    ++ (text "-"
        ++ (zero_pad 2 (to_string t.month)
            ++ (text "-"
                ++ (zero_pad 2 (to_string t.day)
                    ++ (text "T"
                        ++ (zero_pad 2 (to_string t.hour)
                            ++ (text ":"
                                ++ (zero_pad 2 (to_string t.minutes)
                                    ++ (text ":"
                                        ++ (zero_pad 2 (to_string t.seconds) ++ text "Z"))))))))))

-- `b[0] &= 0x7f; b[0] |= 0x01`
unfoldable pub serial_bytes : Text → Text
serial_bytes [] = []
serial_bytes (b ∷ bs) = (b % 128 / 2 * 2 + 1) ∷ bs

pub record DelegateCertReq : Type 0 where
  pub scopes : Text
  pub cn : Option Text

pub record DelegateCertResponse : Type 0 where
  pub cert_pem : Text
  pub key_pem : Text
  pub ca_root_pem : Text

-- the common name, or `default_delegate_cn`
abbrev pub delegate_cn : Option Text → Text
delegate_cn none = text "workshop-minter"
delegate_cn (some cn) = cn

-- the purposes of a leaf
abbrev pub eku : LeafUsage → List Purpose
eku client = client_auth ∷ []
eku mtls = client_auth ∷ server_auth ∷ []

module _ (x509 : X509) where
  open x509 use {
    Name, Spki, Validity, CertReq, SigningKey, name_of, validity_from_now, not_after, request_der,
    request_pem, info_der, public_key, signature, spki_of, spki_der, key_bytes, verifying_key,
    key_of_der, signature_of, verify, pkcs8_pem, serial_of, ia5_of, new_builder, encodes, build,
    to_der, to_pem, cert_validity,
  }

  -- `Ca`
  pub record Root : Type 0 where
    pub signing_key : SigningKey
    pub cert : x509.Certificate
    pub issuer : Name

  unfoldable pub random_serial : Text → Result Text Text
  random_serial drawn = serial_of (serial_bytes drawn)

  -- `CertReq::from_der(bytes).or_else(|_| CertReq::from_pem(bytes))`
  abbrev pub parse_csr : Text → Result Text CertReq
  parse_csr bytes = or_else (request_der bytes) (request_pem bytes)
    where
      or_else : {A : Type 0} → Result Text A → Result Text A → Result Text A
      or_else (ok a) other = ok a
      or_else (err e) other = other

  unfoldable pub parse_and_verify_csr : Text → Result Text CertReq
  parse_and_verify_csr bytes = do
    csr ← parse_csr bytes
    info ← info_der csr
    spki ← spki_der (public_key csr)
    vk ← ok_or (key_of_der spki) (text "CSR public key is not a P-256 key")
    raw ← ok_or (signature csr) (text "CSR signature is not octet-aligned")
    sig ← signature_of raw
    if verify vk info sig
        then ok csr
        else err (text "CSR self-signature (proof-of-possession) failed")

  -- `builder.add_extension`
  unfoldable pub add_extension :
      Ext → Draft Name Spki Validity → Result Text (Draft Name Spki Validity)
  add_extension e d = do done ← encodes e; ok (record d { extensions = d.extensions ++ e ∷ [] })

  -- the names of a node, for its mTLS leaf
  unfoldable pub add_names :
      Text → LeafUsage → Draft Name Spki Validity → Result Text (Draft Name Spki Validity)
  unfolding add_extension
  add_names device_id client d = ok d
  add_names device_id mtls d = do
    san_id ← ia5_of device_id
    san_local ← ia5_of (device_id ++ text ".local")
    add_extension (subject_alt_name (san_id ∷ san_local ∷ [])) d

  module _ (self : Root) where
    unfoldable pub root_cert_pem : Result Text Text
    root_cert_pem = to_pem self.cert

    unfoldable pub root_cert_der : Result Text Text
    root_cert_der = to_der self.cert

    unfoldable pub public_sec1 : Result Text Text
    public_sec1 = do
      spki ← spki_of (verifying_key self.signing_key)
      bytes ← ok_or (key_bytes spki) (text "CA public key is not octet-aligned")
      if nat_eq (length bytes) 65
          then ok bytes
          else err (text "CA public key is not a 65-byte P-256 point")

  module _ (hashing : Hashing) (self : Root) where
    unfoldable pub issue_leaf : Text → Text → Text → LeafUsage → Result Text IssuedCert
    unfolding parse_and_verify_csr random_serial add_extension add_names fmt_rfc3339
    issue_leaf drawn device_id csr_bytes usage = do
      csr ← parse_and_verify_csr csr_bytes
      subject ← name_of (text "CN=" ++ device_id)
      serial ← random_serial drawn
      validity ← validity_from_now leaf_validity
      d ← new_builder (leaf self.issuer) serial validity subject (public_key csr)
      used ← add_extension (extended_key_usage (eku usage)) d
      named ← add_names device_id usage used
      cert ← build self.signing_key named
      der ← to_der cert
      pem ← to_pem cert
      ok (record {
        der = der;
        pem = pem;
        serial_hex = hashing.hex.encode serial;
        not_after = fmt_rfc3339 (not_after (cert_validity cert));
        fingerprint = to_prefixed hashing.hex (hashing.sha256 der);
      })

    unfoldable pub verify_csr_pubkey : Text → Result Text Text
    unfolding parse_and_verify_csr
    verify_csr_pubkey csr_bytes = do
      csr ← parse_and_verify_csr csr_bytes
      bytes ← ok_or (key_bytes (public_key csr)) (text "CSR public key is not octet-aligned")
      ok (hashing.hex.encode bytes)

    -- what the handlers of the roster call
    abbrev pub authority : Text → Ca
    unfolding issue_leaf verify_csr_pubkey root_cert_pem
    authority drawn = record {
      verify_csr_pubkey = verify_csr_pubkey;
      issue_leaf = issue_leaf drawn;
      root_cert_pem = root_cert_pem self;
    }

  -- the certificate and its key
  unfoldable pub mint_delegate_leaf :
      Root → SigningKey → Text → Text → Text → Result Text (Text × Text)
  unfolding random_serial add_extension
  mint_delegate_leaf self key drawn cn scopes = do
    spki ← spki_of (verifying_key key)
    subject ← name_of (text "CN=" ++ cn)
    serial ← random_serial drawn
    validity ← validity_from_now leaf_validity
    d ← new_builder (leaf self.issuer) serial validity subject spki
    used ← add_extension (extended_key_usage (client_auth ∷ [])) d
    granted ← add_extension (delegated_rights scopes) used
    cert ← build self.signing_key granted
    cert_pem ← to_pem cert
    key_pem ← pkcs8_pem key
    ok (cert_pem, key_pem)

  -- the handler, of which the delegation authority is `self`
  unfoldable pub mint_delegate_cert :
      Root → SigningKey → Text → DelegateCertReq → Result AppError DelegateCertResponse
  unfolding mint_delegate_leaf root_cert_pem
  mint_delegate_cert self key drawn req = do
    minted ← or_err (mint_delegate_leaf self key drawn (delegate_cn req.cn) req.scopes) internal
    ca_root_pem ← or_err (root_cert_pem self) internal
    ok (record { cert_pem = minted.0; key_pem = minted.1; ca_root_pem = ca_root_pem })

  -- the handler, of which the identity authority is `self`
  unfoldable pub ca_cert : Root → Result AppError Text
  unfolding root_cert_pem
  ca_cert self = or_err (root_cert_pem self) internal
