-- ===== src/Wire/Hash/Roundtrip.antt =====
-- Printing and parsing a content hash.
use sumo_provision.Base.{◌≡◌, refl, some, [], ◌∷◌, ◌++◌, Text, length, All, arith, ok}
use sumo_provision.Wire.Model.{ContentHash, IsDigest}
use sumo_provision.Wire.Hash.{Hex, IsHexDigit, prefix, hex_part, to_prefixed, from_str}

hex_part-prefix : (s : Text) → hex_part (prefix ++ s) ≡ s
unfolding hex_part
hex_part-prefix s = refl

-- no hexadecimal digit is an `s`
hex_part-digits : (s : Text) → All IsHexDigit s → hex_part s ≡ s
unfolding hex_part
hex_part-digits [] h = refl
hex_part-digits (c ∷ s) h = ground (arith, h.0)

module _ (hex : Hex) where
  from_str-decode :
      (s : Text) (h : ContentHash)
      → IsDigest h
      → hex.decode (hex_part s) ≡ some h
      → from_str hex s ≡ ok h
  unfolding from_str
  from_str-decode s h d e = rw e (ground (arith, d.size))

  -- A digest is read back from its prefixed form and from its bare hexadecimal form.
  pub from_str-to_prefixed :
      (h : ContentHash)
      → IsDigest h
      → (from_str hex (to_prefixed hex h) ≡ ok h) × (from_str hex (hex.encode h) ≡ ok h)
  unfolding to_prefixed
  from_str-to_prefixed h d = (
    from_str-decode (prefix ++ hex.encode h) h d (rw hex_part-prefix (hex.decode-encode h d.bytes)),
    from_str-decode (hex.encode h) h d
        (rw (hex_part-digits (hex.encode h) (hex.encode_digits h)) (hex.decode-encode h d.bytes)),
  )

  decoded : (s : Text) (h : ContentHash) → from_str hex s ≡ ok h → hex.decode (hex_part s) ≡ some h
  unfolding from_str
  decoded s h e = ground arith

  from_str_size : (s : Text) (h : ContentHash) → from_str hex s ≡ ok h → length h ≡ 32
  unfolding from_str
  from_str_size s h e = ground arith

  -- Whatever parses is a digest, and the canonical form of the result parses to the same digest.
  pub from_str-IsDigest :
      (s : Text) (h : ContentHash)
      → from_str hex s ≡ ok h
      → IsDigest h × (from_str hex (to_prefixed hex h) ≡ ok h)
  from_str-IsDigest s h e =
      let d : IsDigest h = record {
        size = from_str_size s h e;
        bytes = hex.decode_bytes (hex_part s) h (decoded s h e);
      } in
      (d, (from_str-to_prefixed h d).0)
