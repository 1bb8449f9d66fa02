-- ===== src/Identity/Authority/Issued.antt =====
-- What a leaf certifies.
use sumo_provision.Base.{
  ◌≡◌, refl, sym, ap, ◌∙◌, List, [], ◌∷◌, ◌++◌, Text, text, ok, >>=-eq-ok, ok-inj,
}
use mathlib.Core.Path.{subst}
use mathlib.Core.List.{append-nil}
use sumo_provision.Wire.Hash.{Hashing, to_prefixed}
use sumo_provision.Identity.Roster.{LeafUsage, client, mtls, IssuedCert}
use sumo_provision.Identity.Authority.{
  Root, parse_csr, parse_and_verify_csr, random_serial, add_extension, add_names, issue_leaf, eku,
  leaf_validity, fmt_rfc3339,
}
use sumo_provision.Identity.Authority.Requests.{IsPossessed, parsed-IsPossessed}
use sumo_provision.Identity.Authority.Crates.{
  X509, Draft, Ext, extended_key_usage, subject_alt_name, delegated_rights, Purpose, leaf,
}

-- the purposes, the names and the rights that extensions grant
abbrev pub purposes : List Ext → List Purpose
purposes [] = []
purposes (extended_key_usage ps ∷ es) = ps ++ purposes es
purposes (subject_alt_name ns ∷ es) = purposes es
purposes (delegated_rights s ∷ es) = purposes es

abbrev pub rights : List Ext → List Text
rights [] = []
rights (extended_key_usage ps ∷ es) = rights es
rights (subject_alt_name ns ∷ es) = rights es
rights (delegated_rights s ∷ es) = s ∷ rights es

abbrev pub dns_names : List Ext → List Text
dns_names [] = []
dns_names (extended_key_usage ps ∷ es) = dns_names es
dns_names (subject_alt_name ns ∷ es) = ns ++ dns_names es
dns_names (delegated_rights s ∷ es) = dns_names es

module _ (x509 : X509) where
  open x509 use {
    Name, Spki, Validity, CertReq, VerifyingKey, Signature, Certificate, info_der, public_key,
    signature, spki_der, key_of_der, signature_of, verify, name_of, build, to_der, encodes, ia5_of,
    not_after, cert_validity, validity_from_now, new_builder, new_builder_fields, to_pem,
  }

  -- one more extension
  pub extended :
      (e : Ext) (d : Draft Name Spki Validity) {later : Draft Name Spki Validity}
      → add_extension x509 e d ≡ ok later
      → record d { extensions = d.extensions ++ e ∷ [] } ≡ later
  unfolding add_extension
  extended e d h = let (done, encoded, h1) = >>=-eq-ok (encodes e) _ h in ok-inj h1

  -- the names of a leaf: for mTLS the device and its name on the local network
  abbrev pub IsNamed : Text → LeafUsage → List Text → Type 0
  IsNamed device_id client names = names ≡ []
  IsNamed device_id mtls names =
      (a : Text) × (b : Text) × (ia5_of device_id ≡ ok a)
      × (ia5_of (device_id ++ text ".local") ≡ ok b)
      × (names ≡ a ∷ b ∷ [])

  -- the extensions of the names, and that they grant nothing else
  named :
      (device_id : Text) (usage : LeafUsage) (d : Draft Name Spki Validity)
      {later : Draft Name Spki Validity}
      → add_names x509 device_id usage d ≡ ok later
      → (es : List Ext) × (record d { extensions = d.extensions ++ es } ≡ later)
        × (purposes es ≡ [])
        × (rights es ≡ [])
        × IsNamed device_id usage (dns_names es)
  unfolding add_names
  named device_id client d {later} h = (
    [],
    ap (λ es. record d { extensions = es }) (append-nil d.extensions) ∙ ok-inj h,
    refl,
    refl,
    refl,
  )
  named device_id mtls d {later} h =
      let (a, e1, h1) = >>=-eq-ok (ia5_of device_id) _ h in
      let (b, e2, h2) = >>=-eq-ok (ia5_of (device_id ++ text ".local")) _ h1 in
      (
        subject_alt_name (a ∷ b ∷ []) ∷ [],
        extended (subject_alt_name (a ∷ b ∷ [])) d h2,
        refl,
        refl,
        (a, b, e1, e2, refl),
      )

  -- what was signed as the certificate of a device
  pub record IsLeafFor (hashing : Hashing) (self : Root x509) (device_id : Text) (usage : LeafUsage)
      (csr : CertReq) (issued : IssuedCert) : Type 0 where
    pub draft : Draft Name Spki Validity
    pub cert : Certificate
    pub signed : build self.signing_key draft ≡ ok cert
    pub der : to_der cert ≡ ok issued.der
    pub profile : draft.profile ≡ leaf self.issuer
    pub subject : name_of (text "CN=" ++ device_id) ≡ ok draft.subject
    pub key : draft.spki ≡ public_key csr
    pub serial : issued.serial_hex ≡ hashing.hex.encode draft.serial
    pub fingerprint : issued.fingerprint ≡ to_prefixed hashing.hex (hashing.sha256 issued.der)
    pub uses : purposes draft.extensions ≡ eku usage
    pub no_rights : rights draft.extensions ≡ []
    pub names : IsNamed device_id usage (dns_names draft.extensions)

  module _ (hashing : Hashing) (self : Root x509) (drawn device_id bytes : Text)
      (usage : LeafUsage) where
    -- the steps of a call that succeeded
    leaf_of :
        {csr : CertReq} {subject : Name} {serial der pem : Text} {validity : Validity}
        {d used last : Draft Name Spki Validity} {cert : Certificate} {issued : IssuedCert}
        → name_of (text "CN=" ++ device_id) ≡ ok subject
        → new_builder (leaf self.issuer) serial validity subject (public_key csr) ≡ ok d
        → add_extension x509 (extended_key_usage (eku usage)) d ≡ ok used
        → add_names x509 device_id usage used ≡ ok last
        → build self.signing_key last ≡ ok cert
        → to_der cert ≡ ok der
        → record {
          der = der;
          pem = pem;
          serial_hex = hashing.hex.encode serial;
          not_after = fmt_rfc3339 (not_after (cert_validity cert));
          fingerprint = to_prefixed hashing.hex (hashing.sha256 der);
        }
          ≡ issued
        → IsLeafFor hashing self device_id usage csr issued
    leaf_of {csr} {subject} {serial} {der} {pem} {validity} {d} {used} {last} {cert} named_as
          started e-used e-last signed e-der same =
        let (es, all, no_purposes, no_rights, named) = named device_id usage used e-last in
        let begun =
          new_builder_fields (leaf self.issuer) serial validity subject (public_key csr) d
            started in
        let purposed = extended (extended_key_usage (eku usage)) d e-used in
        let whole : last ≡ record {
          profile = leaf self.issuer;
          serial = serial;
          validity = validity;
          subject = subject;
          spki = public_key csr;
          extensions = extended_key_usage (eku usage) ∷ es;
        } =
          sym all
          ∙ ap {A = Draft Name Spki Validity} (λ u. record u { extensions = u.extensions ++ es })
              (sym purposed
                ∙ ap {A = Draft Name Spki Validity}
                    (λ b. record b {
                      extensions = b.extensions ++ extended_key_usage (eku usage) ∷ [];
                    })
                    begun) in
        subst (IsLeafFor hashing self device_id usage csr) same (record {
          draft = last;
          cert = cert;
          signed = signed;
          der = e-der;
          profile = ap (λ l. l.profile) whole;
          subject = named_as ∙ ap ok (sym (ap (λ l. l.subject) whole));
          key = ap (λ l. l.spki) whole;
          serial = ap (λ l. hashing.hex.encode l.serial) (sym whole);
          fingerprint = refl;
          uses =
              ap (λ l. purposes l.extensions) whole
              ∙ ap (λ ps. eku usage ++ ps) no_purposes
              ∙ append-nil (eku usage);
          no_rights = ap (λ l. rights l.extensions) whole ∙ no_rights;
          names = subst (λ l. IsNamed device_id usage (dns_names l.extensions)) (sym whole) named;
        })

    -- When the authority issues a leaf, the bytes parse as a request whose signature verifies
    -- under the key of the request, and what the authority signed has itself as the issuer, the
    -- device as its subject, the key of the request, the purposes of the usage, for mTLS the two
    -- names of the device and else none, and no delegated rights; the answer has its serial, its
    -- encoding and the fingerprint of that.
    pub issue_leaf-IsLeafFor :
        {issued : IssuedCert}
        → issue_leaf x509 hashing self drawn device_id bytes usage ≡ ok issued
        → (csr : CertReq) × (parse_csr x509 bytes ≡ ok csr)
          × IsPossessed x509 csr
          × IsLeafFor hashing self device_id usage csr issued
    unfolding issue_leaf
    issue_leaf-IsLeafFor h =
        let (csr, e1, h1) = >>=-eq-ok (parse_and_verify_csr x509 bytes) _ h in
        let (subject, e2, h2) = >>=-eq-ok (name_of (text "CN=" ++ device_id)) _ h1 in
        let (serial, e3, h3) = >>=-eq-ok (random_serial x509 drawn) _ h2 in
        let (validity, e4, h4) = >>=-eq-ok (validity_from_now leaf_validity) _ h3 in
        let (d, e5, h5) =
          >>=-eq-ok (new_builder (leaf self.issuer) serial validity subject (public_key csr)) _
            h4 in
        let (used, e6, h6) =
          >>=-eq-ok (add_extension x509 (extended_key_usage (eku usage)) d) _ h5 in
        let (last, e7, h7) = >>=-eq-ok (add_names x509 device_id usage used) _ h6 in
        let (cert, e8, h8) = >>=-eq-ok (build self.signing_key last) _ h7 in
        let (der, e9, h9) = >>=-eq-ok (to_der cert) _ h8 in
        let (pem, e10, h10) = >>=-eq-ok (to_pem cert) _ h9 in
        let (parsed, possessed) = parsed-IsPossessed x509 bytes e1 in
        (csr, parsed, possessed, leaf_of e2 e5 e6 e7 e8 e9 (ok-inj h10))
