-- ===== src/Identity/Authority/Delegated.antt =====
-- What a delegate is certified for.
use sumo_provision.Base.{
  ◌≡◌, sym, ap, ◌∙◌, [], ◌∷◌, ◌++◌, Text, text, Result, ok, err, or_err, >>=-eq-ok, ok-inj,
}
use mathlib.Core.Path.{subst}
use sumo_provision.Identity.Roster.{internal}
use sumo_provision.Identity.Authority.{
  Root, random_serial, add_extension, leaf_validity, mint_delegate_leaf, DelegateCertReq,
  DelegateCertResponse, delegate_cn, mint_delegate_cert, root_cert_pem,
}
use sumo_provision.Identity.Authority.Crates.{
  X509, Draft, extended_key_usage, delegated_rights, client_auth, leaf,
}
use sumo_provision.Identity.Authority.Issued.{purposes, rights, dns_names, extended}

or_err-ok : {E F A : Type 0} (r : Result E A) (f : F) {a : A} → or_err r f ≡ ok a → r ≡ ok a
or_err-ok (ok b) f h = ap ok (ok-inj h)
or_err-ok (err e) f h = cc

module _ (x509 : X509) where
  open x509 use {
    Name, Spki, Validity, Certificate, SigningKey, name_of, validity_from_now, spki_of,
    verifying_key, new_builder, new_builder_fields, build, to_pem, pkcs8_pem,
  }

  -- what was signed as the certificate of a delegate
  pub record IsDelegateFor (self : Root x509) (key : SigningKey) (cn scopes : Text)
      (minted : Text × Text) : Type 0 where
    pub draft : Draft Name Spki Validity
    pub cert : Certificate
    pub signed : build self.signing_key draft ≡ ok cert
    pub pem : to_pem cert ≡ ok minted.0
    pub private : pkcs8_pem key ≡ ok minted.1
    pub profile : draft.profile ≡ leaf self.issuer
    pub subject : name_of (text "CN=" ++ cn) ≡ ok draft.subject
    pub public : spki_of (verifying_key key) ≡ ok draft.spki
    pub uses : purposes draft.extensions ≡ client_auth ∷ []
    pub grants : rights draft.extensions ≡ scopes ∷ []
    pub no_names : dns_names draft.extensions ≡ []

  module _ (self : Root x509) (key : SigningKey) (drawn cn scopes : Text) where
    -- the steps of a call that succeeded
    delegate_of :
        {subject : Name} {spki : Spki} {serial cert_pem key_pem : Text} {validity : Validity}
        {d used last : Draft Name Spki Validity} {cert : Certificate} {minted : Text × Text}
        → spki_of (verifying_key key) ≡ ok spki
        → name_of (text "CN=" ++ cn) ≡ ok subject
        → new_builder (leaf self.issuer) serial validity subject spki ≡ ok d
        → add_extension x509 (extended_key_usage (client_auth ∷ [])) d ≡ ok used
        → add_extension x509 (delegated_rights scopes) used ≡ ok last
        → build self.signing_key last ≡ ok cert
        → to_pem cert ≡ ok cert_pem
        → pkcs8_pem key ≡ ok key_pem
        → (cert_pem, key_pem) ≡ minted
        → IsDelegateFor self key cn scopes minted
    delegate_of {subject} {spki} {serial} {cert_pem} {key_pem} {validity} {d} {used} {last} {cert}
          e-spki named_as started e-used e-last signed e-pem e-key same =
        let begun = new_builder_fields (leaf self.issuer) serial validity subject spki d started in
        let whole : last ≡ record {
          profile = leaf self.issuer;
          serial = serial;
          validity = validity;
          subject = subject;
          spki = spki;
          extensions = extended_key_usage (client_auth ∷ []) ∷ delegated_rights scopes ∷ [];
        } =
          sym (extended x509 (delegated_rights scopes) used e-last)
          ∙ ap {A = Draft Name Spki Validity}
              (λ u. record u { extensions = u.extensions ++ delegated_rights scopes ∷ [] })
              (sym (extended x509 (extended_key_usage (client_auth ∷ [])) d e-used)
                ∙ ap {A = Draft Name Spki Validity}
                    (λ b. record b {
                      extensions = b.extensions ++ extended_key_usage (client_auth ∷ []) ∷ [];
                    })
                    begun) in
        subst (IsDelegateFor self key cn scopes) same (record {
          draft = last;
          cert = cert;
          signed = signed;
          pem = e-pem;
          private = e-key;
          profile = ap (λ l. l.profile) whole;
          subject = named_as ∙ ap ok (sym (ap (λ l. l.subject) whole));
          public = e-spki ∙ ap ok (sym (ap (λ l. l.spki) whole));
          uses = ap (λ l. purposes l.extensions) whole;
          grants = ap (λ l. rights l.extensions) whole;
          no_names = ap (λ l. dns_names l.extensions) whole;
        })

    mint_delegate_leaf-IsDelegateFor :
        {minted : Text × Text}
        → mint_delegate_leaf x509 self key drawn cn scopes ≡ ok minted
        → IsDelegateFor self key cn scopes minted
    unfolding mint_delegate_leaf
    mint_delegate_leaf-IsDelegateFor h =
        let (spki, e1, h1) = >>=-eq-ok (spki_of (verifying_key key)) _ h in
        let (subject, e2, h2) = >>=-eq-ok (name_of (text "CN=" ++ cn)) _ h1 in
        let (serial, e3, h3) = >>=-eq-ok (random_serial x509 drawn) _ h2 in
        let (validity, e4, h4) = >>=-eq-ok (validity_from_now leaf_validity) _ h3 in
        let (d, e5, h5) =
          >>=-eq-ok (new_builder (leaf self.issuer) serial validity subject spki) _ h4 in
        let (used, e6, h6) =
          >>=-eq-ok (add_extension x509 (extended_key_usage (client_auth ∷ [])) d) _ h5 in
        let (last, e7, h7) = >>=-eq-ok (add_extension x509 (delegated_rights scopes) used) _ h6 in
        let (cert, e8, h8) = >>=-eq-ok (build self.signing_key last) _ h7 in
        let (cert_pem, e9, h9) = >>=-eq-ok (to_pem cert) _ h8 in
        let (key_pem, e10, h10) = >>=-eq-ok (pkcs8_pem key) _ h9 in
        delegate_of e1 e2 e5 e6 e7 e8 e9 e10 (ok-inj h10)

  module _ (self : Root x509) (key : SigningKey) (drawn : Text) (req : DelegateCertReq) where
    -- When a delegate is minted, what the delegation authority signed has itself as the issuer,
    -- the asked or the default name as its subject, the public half of the drawn key, the client
    -- purpose, exactly the asked scopes as delegated rights, and no names; the answer has its
    -- encoding, the private half and the root of the authority.
    pub mint_delegate_cert-IsDelegateFor :
        {resp : DelegateCertResponse}
        → mint_delegate_cert x509 self key drawn req ≡ ok resp
        → IsDelegateFor self key (delegate_cn req.cn) req.scopes (resp.cert_pem, resp.key_pem)
          × (root_cert_pem x509 self ≡ ok resp.ca_root_pem)
    unfolding mint_delegate_cert
    mint_delegate_cert-IsDelegateFor h =
        let cn = delegate_cn req.cn in
        let (minted, e1, h1) =
          >>=-eq-ok (or_err (mint_delegate_leaf x509 self key drawn cn req.scopes) internal) _ h in
        let (pem, e2, h2) = >>=-eq-ok (or_err (root_cert_pem x509 self) internal) _ h1 in
        let same = ok-inj h2 in
        (
          subst (IsDelegateFor self key cn req.scopes) (ap (λ r. (r.cert_pem, r.key_pem)) same) (
              mint_delegate_leaf-IsDelegateFor self key drawn cn req.scopes
                (or_err-ok (mint_delegate_leaf x509 self key drawn cn req.scopes) internal e1)),
          or_err-ok (root_cert_pem x509 self) internal e2 ∙ ap (λ r. ok r.ca_root_pem) same,
        )
