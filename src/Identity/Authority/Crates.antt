-- ===== src/Identity/Authority/Crates.antt =====
-- What crates/identity-tower/src/ca.rs calls of the crates x509-cert, p256 and rand, as parameters,
-- and the content of a certificate as the builder is given it.
use sumo_provision.Base.{ℕ, Bool, Option, List, [], Text, Result, ok, ◌≡◌}

-- `DateTime`
pub record DateTime : Type 0 where
  pub year : ℕ
  pub month : ℕ
  pub day : ℕ
  pub hour : ℕ
  pub minutes : ℕ
  pub seconds : ℕ

-- the object identifiers of `ExtendedKeyUsage`
pub data Purpose : Type 0 where
  client_auth server_auth : Purpose

-- the extensions that are added, `DelegatedRightsExt` among them
pub data Ext : Type 0 where
  extended_key_usage : List Purpose → Ext
  subject_alt_name : List Text → Ext
  delegated_rights : Text → Ext

-- `Profile`
pub data Profile (Name : Type 0) : Type 0 where
  root : Profile Name
  leaf : Name → Profile Name

-- a `CertificateBuilder`
pub record Draft (Name Spki Validity : Type 0) : Type 0 where
  pub profile : Profile Name
  pub serial : Text
  pub validity : Validity
  pub subject : Name
  pub spki : Spki
  pub extensions : List Ext

pub record X509 : Type 1 where
  pub Name : Type 0
  pub Spki : Type 0
  pub Validity : Type 0
  pub CertReq : Type 0
  pub Certificate : Type 0
  pub SigningKey : Type 0
  pub VerifyingKey : Type 0
  pub Signature : Type 0
  -- `Name::from_str`, `Validity::from_now` at this time
  pub name_of : Text → Result Text Name
  pub validity_from_now : ℕ → Result Text Validity
  pub not_after : Validity → DateTime
  -- `CertReq::from_der`, `CertReq::from_pem`, and the parts of a request
  pub request_der : Text → Result Text CertReq
  pub request_pem : Text → Result Text CertReq
  pub info_der : CertReq → Result Text Text
  pub public_key : CertReq → Spki
  pub signature : CertReq → Option Text
  -- `SubjectPublicKeyInfoOwned`
  pub spki_of : VerifyingKey → Result Text Spki
  pub spki_der : Spki → Result Text Text
  pub key_bytes : Spki → Option Text
  -- keys and signatures of P-256
  pub verifying_key : SigningKey → VerifyingKey
  pub key_of_der : Text → Option VerifyingKey
  pub signature_of : Text → Result Text Signature
  pub verify : VerifyingKey → Text → Signature → Bool
  pub pkcs8_pem : SigningKey → Result Text Text
  -- `SerialNumber::new` and `as_bytes`, `Ia5String::try_from`
  pub serial_of : Text → Result Text Text
  pub ia5_of : Text → Result Text Text
  -- `CertificateBuilder::new`, `add_extension` and `build`
  pub new_builder :
      Profile Name → Text → Validity → Name → Spki → Result Text (Draft Name Spki Validity)
  pub encodes : Ext → Result Text (Unit {0})
  pub build : SigningKey → Draft Name Spki Validity → Result Text Certificate
  -- `to_der` and `to_pem`, and two fields of a certificate
  pub to_der : Certificate → Result Text Text
  pub to_pem : Certificate → Result Text Text
  pub cert_subject : Certificate → Name
  pub cert_validity : Certificate → Validity
  -- a builder starts with what it was given, and with no extension
  pub new_builder_fields :
      (p : Profile Name) (serial : Text) (v : Validity) (subject : Name) (spki : Spki)
      (d : Draft Name Spki Validity)
      → new_builder p serial v subject spki ≡ ok d
      → d ≡ record {
        profile = p;
        serial = serial;
        validity = v;
        subject = subject;
        spki = spki;
        extensions = [];
      }
