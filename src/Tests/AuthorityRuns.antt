-- ===== src/Tests/AuthorityRuns.antt =====
-- The certificate authority on concrete inputs.
use sumo_provision.Base.{
  ℕ, ◌<◌, arith, ◌≡◌, refl, sym, none, some, [], ◌∷◌, All, Text, text, text_eq, Result, ok, err,
  ok-inj, to_string, decimal_digits,
}
use sumo_provision.Wire.Hash.{to_prefixed}
use sumo_provision.Identity.Roster.{mtls, IssuedCert}
use sumo_provision.Identity.Authority.{
  Root, parse_csr, parse_and_verify_csr, random_serial, serial_bytes, add_extension, add_names,
  issue_leaf, zero_pad, fmt_rfc3339, mint_delegate_leaf, mint_delegate_cert, DelegateCertReq,
  DelegateCertResponse, root_cert_pem,
}
use sumo_provision.Identity.Authority.Crates.{X509, Draft, root, DateTime}
use sumo_provision.Identity.Authority.Issued.{IsLeafFor, issue_leaf-IsLeafFor}
use sumo_provision.Identity.Authority.Requests.{IsPossessed}
use sumo_provision.Identity.Authority.Delegated.{IsDelegateFor, mint_delegate_cert-IsDelegateFor}
use sumo_provision.Identity.Authority.Serial.{IsSerial, serial_bytes-IsSerial}
use sumo_provision.Tests.Samples.{hashing, hex, copies, digest}

-- a request of a key and of a signature, which verifies when it is the key
pub record Request : Type 0 where
  pub key : Text
  pub sig : Text

abbrev request_of : Text → Result Text Request
request_of (k ∷ s ∷ []) = ok (record { key = k ∷ []; sig = s ∷ [] })
request_of bytes = err (text "not a request")

abbrev end_of_2027 : DateTime
end_of_2027 = record { year = 2027; month = 12; day = 31; hour = 9; minutes = 5; seconds = 0 }

abbrev x509 : X509
x509 = record {
  Name = Text;
  Spki = Text;
  Validity = ℕ;
  CertReq = Request;
  Certificate = Draft Text Text ℕ;
  SigningKey = Text;
  VerifyingKey = Text;
  Signature = Text;
  name_of = λ s. ok s;
  validity_from_now = λ n. ok n;
  not_after = λ v. end_of_2027;
  request_der = request_of;
  request_pem = λ b. err (text "not PEM");
  info_der = λ r. ok (r.key);
  public_key = λ r. r.key;
  signature = λ r. some r.sig;
  spki_of = λ k. ok k;
  spki_der = λ k. ok k;
  key_bytes = λ k. some k;
  verifying_key = λ k. k;
  key_of_der = λ k. some k;
  signature_of = λ s. ok s;
  verify = λ k info sig. text_eq k sig;
  pkcs8_pem = λ k. ok k;
  serial_of = λ s. ok s;
  ia5_of = λ s. ok s;
  new_builder = λ p serial v subject spki. ok (record {
    profile = p;
    serial = serial;
    validity = v;
    subject = subject;
    spki = spki;
    extensions = [];
  });
  encodes = λ e. ok tt;
  build = λ k d. ok d;
  to_der = λ d. ok d.serial;
  to_pem = λ d. ok d.subject;
  cert_subject = λ d. d.subject;
  cert_validity = λ d. d.validity;
  new_builder_fields = λ p serial v subject spki d h. sym (ok-inj h);
}

abbrev self : Root x509
self = record {
  signing_key = 1 ∷ [];
  cert = record {
    profile = root;
    serial = [];
    validity = 0;
    subject = text "CN=root";
    spki = 1 ∷ [];
    extensions = [];
  };
  issuer = text "CN=root";
}

abbrev drawn : Text
drawn = copies 20 200

abbrev issued : IssuedCert
issued = record {
  der = serial_bytes drawn;
  pem = text "CN=node";
  serial_hex = hex.encode (serial_bytes drawn);
  not_after = text "2027-12-31T09:05:00Z";
  fingerprint = to_prefixed hex (digest (serial_bytes drawn));
}

issued_leaf : issue_leaf x509 hashing self drawn (text "node") (5 ∷ 5 ∷ []) mtls ≡ ok issued
unfolding issue_leaf parse_and_verify_csr random_serial serial_bytes add_extension add_names
    zero_pad fmt_rfc3339 to_string decimal_digits text_eq
issued_leaf = refl

issue_leaf-IsLeafFor_example :
    (csr : Request) × (parse_csr x509 (5 ∷ 5 ∷ []) ≡ ok csr)
    × IsPossessed x509 csr
    × IsLeafFor x509 hashing self (text "node") mtls csr issued
issue_leaf-IsLeafFor_example =
    issue_leaf-IsLeafFor x509 hashing self drawn (text "node") (5 ∷ 5 ∷ []) mtls issued_leaf

-- a request that is signed with another key is refused
refused_leaf :
    issue_leaf x509 hashing self drawn (text "node") (5 ∷ 6 ∷ []) mtls
    ≡ err (text "CSR self-signature (proof-of-possession) failed")
unfolding issue_leaf parse_and_verify_csr text_eq
refused_leaf = refl

abbrev req : DelegateCertReq
req = record { scopes = text "reset:execute"; cn = none }

abbrev resp : DelegateCertResponse
resp = record {
  cert_pem = text "CN=workshop-minter";
  key_pem = 7 ∷ [];
  ca_root_pem = text "CN=root";
}

minted : mint_delegate_cert x509 self (7 ∷ []) drawn req ≡ ok resp
unfolding mint_delegate_cert mint_delegate_leaf random_serial serial_bytes add_extension
    root_cert_pem
minted = refl

mint_delegate_cert-IsDelegateFor_example :
    IsDelegateFor x509 self
      (7 ∷ [])
      (text "workshop-minter")
      (text "reset:execute")
      (text "CN=workshop-minter", 7 ∷ [])
    × (root_cert_pem x509 self ≡ ok (text "CN=root"))
mint_delegate_cert-IsDelegateFor_example =
    mint_delegate_cert-IsDelegateFor x509 self (7 ∷ []) drawn req minted

drawn-bytes : All (λ c. c < 256) drawn
drawn-bytes = ground arith

serial_bytes-IsSerial_example : IsSerial (serial_bytes drawn)
serial_bytes-IsSerial_example = serial_bytes-IsSerial drawn refl drawn-bytes
