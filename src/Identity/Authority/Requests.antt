-- ===== src/Identity/Authority/Requests.antt =====
-- What a signing request proves.
use sumo_provision.Base.{
  ◌≡◌, refl, ap, ◌∙◌, Bool, true, false, if◌then◌else◌, Option, none, some, Text, text, ok, err,
  >>=-eq-ok, ok-inj, ok_or,
}
use mathlib.Core.Path.{subst}
use sumo_provision.Identity.Authority.{parse_csr, parse_and_verify_csr}
use sumo_provision.Identity.Authority.Crates.{X509}

module _ (x509 : X509) where
  open x509 use {
    CertReq, VerifyingKey, Signature, info_der, public_key, signature, spki_der, key_of_der,
    signature_of, verify,
  }

  -- the signature of a request verifies under the key that it asks a certificate for
  pub record IsPossessed (csr : CertReq) : Type 0 where
    pub info : Text
    pub spki : Text
    pub key : VerifyingKey
    pub raw : Text
    pub sig : Signature
    pub info-der : info_der csr ≡ ok info
    pub spki-der : spki_der (public_key csr) ≡ ok spki
    pub key-der : key_of_der spki ≡ some key
    pub raw-sig : signature csr ≡ some raw
    pub sig-parsed : signature_of raw ≡ ok sig
    pub verified : verify key info sig ≡ true

  ok_or-ok : {E A : Type 0} (o : Option A) (e : E) {a : A} → ok_or o e ≡ ok a → o ≡ some a
  ok_or-ok none e h = cc
  ok_or-ok (some b) e h = ap some (ok-inj h)

  checked :
      {E A : Type 0} (b : Bool) (a : A) (e : E) {last : A}
      → (if b then ok a else err e) ≡ ok last
      → (b ≡ true) × (a ≡ last)
  checked true a e h = (refl, ok-inj h)
  checked false a e h = cc

  pub parsed-IsPossessed :
      (bytes : Text) {csr : CertReq}
      → parse_and_verify_csr x509 bytes ≡ ok csr
      → (parse_csr x509 bytes ≡ ok csr) × IsPossessed csr
  unfolding parse_and_verify_csr
  parsed-IsPossessed bytes {csr} h =
      let (req, parsed, h1) = >>=-eq-ok (parse_csr x509 bytes) _ h in
      let (info, e1, h2) = >>=-eq-ok (info_der req) _ h1 in
      let (spki, e2, h3) = >>=-eq-ok (spki_der (public_key req)) _ h2 in
      let (key, e3, h4) =
        >>=-eq-ok (ok_or (key_of_der spki) (text "CSR public key is not a P-256 key")) _ h3 in
      let (raw, e4, h5) =
        >>=-eq-ok (ok_or (signature req) (text "CSR signature is not octet-aligned")) _ h4 in
      let (sig, e5, h6) = >>=-eq-ok (signature_of raw) _ h5 in
      let (verified, same) = checked (verify key info sig) req _ h6 in
      (
        parsed ∙ ap ok same,
        subst IsPossessed same (record {
          info = info;
          spki = spki;
          key = key;
          raw = raw;
          sig = sig;
          info-der = e1;
          spki-der = e2;
          key-der = ok_or-ok (key_of_der spki) (text "CSR public key is not a P-256 key") e3;
          raw-sig = ok_or-ok (signature req) (text "CSR signature is not octet-aligned") e4;
          sig-parsed = e5;
          verified = verified;
        }),
      )
