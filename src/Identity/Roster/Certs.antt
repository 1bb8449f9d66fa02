-- ===== src/Identity/Roster/Certs.antt =====
-- The keys of the certificates stay distinct.
use sumo_provision.Base.{
  ◌≡◌, refl, Bool, true, false, ◌||◌, List, [], ◌∷◌, Text_eq, text_eq, text_eq_iff, arith, any, All,
  Bool-cases, inl, inr,
}
use sumo_provision.Identity.Roster.{CertRow, same_key, same_serial, serial_taken, put_cert}

-- Two rows that the keys of the table do not allow together.
abbrev pub conflicts : CertRow → CertRow → Bool
conflicts a b = same_key a b || same_serial a b

abbrev pub AllDistinct : List CertRow → Type 0
AllDistinct [] = Unit
AllDistinct (c ∷ certs) = (any (conflicts c) certs ≡ false) × AllDistinct certs

conflicts_sym : (a b : CertRow) → conflicts a b ≡ conflicts b a
unfolding text_eq
conflicts_sym a b = ground (
  arith,
  text_eq_iff a.device_id b.device_id,
  text_eq_iff b.device_id a.device_id,
  text_eq_iff a.key_id b.key_id,
  text_eq_iff b.key_id a.key_id,
  text_eq_iff a.cert_serial b.cert_serial,
  text_eq_iff b.cert_serial a.cert_serial,
)

-- A row that conflicts with nothing else and not with the new one does not conflict after it is put.
put_cert-apart :
    (c new : CertRow) (certs : List CertRow)
    → conflicts c new ≡ false
    → any (conflicts c) certs ≡ false
    → any (conflicts c) (put_cert new certs) ≡ false
unfolding put_cert any
put_cert-apart c new [] apart h = ground arith
put_cert-apart c new (row ∷ rows) apart h = ground (arith, put_cert-apart c new rows)

key_trans : (a b c : CertRow) → same_key a b ≡ true → same_key a c ≡ false → same_key b c ≡ false
key_trans a b c ab ac = ground (
  arith,
  text_eq_iff a.device_id b.device_id,
  text_eq_iff b.device_id c.device_id,
  text_eq_iff a.device_id c.device_id,
  text_eq_iff a.key_id b.key_id,
  text_eq_iff b.key_id c.key_id,
  text_eq_iff a.key_id c.key_id,
)

replaced-apart :
    (row new : CertRow) (rows : List CertRow)
    → same_key row new ≡ true
    → any (conflicts row) rows ≡ false
    → serial_taken new rows ≡ false
    → any (conflicts new) rows ≡ false
unfolding any serial_taken
replaced-apart row new [] same apart free = refl
replaced-apart row new (d ∷ rows) same apart free = ground (
  arith,
  replaced-apart row new rows same,
  key_trans row new d same,
  conflicts_sym new d,
  text_eq_iff new.device_id d.device_id,
  text_eq_iff d.device_id new.device_id,
  text_eq_iff new.key_id d.key_id,
  text_eq_iff d.key_id new.key_id,
)

pub put_cert-AllDistinct :
    (new : CertRow) (certs : List CertRow)
    → AllDistinct certs
    → serial_taken new certs ≡ false
    → AllDistinct (put_cert new certs)
unfolding put_cert serial_taken any
put_cert-AllDistinct new [] h free = (refl, tt)
put_cert-AllDistinct new (row ∷ rows) h free = elim (Bool-cases (same_key row new)) [
  | inl same ↦ rw (same, put_cert) (replaced-apart row new rows same h.0 (ground arith), h.1)
  | inr other ↦
      rw (other, put_cert)
        (
          put_cert-apart row new rows (ground arith) h.0,
          put_cert-AllDistinct new rows h.1 (ground arith),
        )
]

-- What holds of the new row and of every old one holds of what is put.
pub put_cert-All :
    (P : CertRow → Type 0) (new : CertRow) (certs : List CertRow)
    → P new
    → All P certs
    → All P (put_cert new certs)
unfolding put_cert
put_cert-All P new [] p h = (p, tt)
put_cert-All P new (row ∷ rows) p h = elim (Bool-cases (same_key row new)) [
  | inl same ↦ rw (same, put_cert) (p, h.1)
  | inr other ↦ rw (other, put_cert) (h.0, put_cert-All P new rows p h.1)
]
