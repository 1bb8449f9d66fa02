-- ===== src/Orchestrator/Fanout/Outline.antt =====
-- What a decoded campaign looks like.
use sumo_provision.Base.{
  ℕ, zero, suc, ◌≡◌, Option, none, some, List, [], ◌∷◌, map, arith, Text, ok, ◌>>=◌, >>=-eq-ok,
  ok_or, or_err,
}
use sumo_provision.Wire.Hash.{Hex, from_str}
use sumo_provision.Wire.Model.{ContentHash}
use sumo_provision.Orchestrator.Model.{decode_l1, bad_l2, L1Part, L1Component}
use sumo_provision.Orchestrator.Fanout.{
  Suit, bare_key, digest_of, part_id, decode_part, part_count, decode_parts, decode_component,
  decode_components, fanout_l1,
}

module _ (suit : Suit) (hex : Hex) where
  open suit use {Envelope, decode_envelope, integrated_payloads, image_digest, uri}

  decode_part-inner :
      (component : Text) (m : Envelope) (i : ℕ) {part : L1Part}
      → decode_part suit hex component m i ≡ ok part
      → part.inner ≡ digest_of (image_digest m i)
  unfolding decode_part
  decode_part-inner component m i h =
      let (name, e1, k1) =
        >>=-eq-ok (ok_or (part_id suit hex m i) (bad_l2 component))
          (λ part. ok_or (uri m i) (bad_l2 component) >>= λ address.
            or_err (from_str hex address) (bad_l2 component) >>= λ outer.
            ok (record { part = part; outer = outer; inner = digest_of (image_digest m i) }))
          h in
      let (address, e2, k2) =
        >>=-eq-ok (ok_or (uri m i) (bad_l2 component))
          (λ address. or_err (from_str hex address) (bad_l2 component) >>= λ outer.
            ok (record { part = name; outer = outer; inner = digest_of (image_digest m i) }))
          k1 in
      let (outer, e3, k3) =
        >>=-eq-ok (or_err (from_str hex address) (bad_l2 component))
          (λ outer.
            ok (record { part = name; outer = outer; inner = digest_of (image_digest m i) }))
          k2 in
      ground (arith, k3)

  -- the digests of the manifest from an index on
  abbrev pub digests : Envelope → ℕ → ℕ → List (Option ContentHash)
  digests m first zero = []
  digests m first (suc count) = digest_of (image_digest m first) ∷ digests m (suc first) count

  decode_parts-inner :
      (component : Text) (m : Envelope) (first count : ℕ) {parts : List L1Part}
      → decode_parts suit hex component m first count ≡ ok parts
      → map (λ (p : L1Part). p.inner) parts ≡ digests m first count
  unfolding decode_parts
  decode_parts-inner component m first zero h = ground arith
  decode_parts-inner component m first (suc count) h =
      let (part, e1, k1) =
        >>=-eq-ok (decode_part suit hex component m first)
          (λ part.
            decode_parts suit hex component m (suc first) count >>= λ parts. ok (part ∷ parts))
          h in
      let (parts, e2, k2) =
        >>=-eq-ok (decode_parts suit hex component m (suc first) count) (λ parts. ok (part ∷ parts))
          k1 in
      ground (
        arith,
        k2,
        decode_part-inner component m first e1,
        decode_parts-inner component m (suc first) count e2,
      )

  -- A component decoded from the image under a key.
  abbrev pub IsDecoded : Text × Text → L1Component → Type 0
  IsDecoded (key, l2) c =
      (c.component ≡ bare_key key)
      × (c.envelope ≡ l2)
      × ((m : Envelope) × (decode_envelope l2 ≡ some m)
          × (map (λ (p : L1Part). p.inner) c.parts ≡ digests m 0 (part_count suit hex m)))

  abbrev pub AllDecoded : List (Text × Text) → List L1Component → Type 0
  AllDecoded [] [] = Unit
  AllDecoded [] (c ∷ cs) = ⊥
  AllDecoded (p ∷ ps) [] = ⊥
  AllDecoded (p ∷ ps) (c ∷ cs) = IsDecoded p c × AllDecoded ps cs

  decode_component-IsDecoded :
      (key l2 : Text) {c : L1Component}
      → decode_component suit hex key l2 ≡ ok c
      → IsDecoded (key, l2) c
  unfolding decode_component
  decode_component-IsDecoded key l2 h =
      let build : Envelope → List L1Part → L1Component =
        λ m parts. record { component = bare_key key; envelope = l2; parts = parts } in
      let (m, e1, k1) =
        >>=-eq-ok (ok_or (decode_envelope l2) (bad_l2 (bare_key key)))
          (λ m. decode_parts suit hex (bare_key key) m 0 (part_count suit hex m) >>= λ parts.
            ok (build m parts))
          h in
      let (parts, e2, k2) =
        >>=-eq-ok (decode_parts suit hex (bare_key key) m 0 (part_count suit hex m))
          (λ parts. ok (build m parts)) k1 in
      (
        ground (arith, k2),
        ground (arith, k2),
        (
          m,
          decoded m (decode_envelope l2) e1,
          ground (arith, k2, decode_parts-inner (bare_key key) m 0 (part_count suit hex m) e2),
        ),
      )
    where
      decoded :
          (m : Envelope) (o : Option Envelope) → ok_or o (bad_l2 (bare_key key)) ≡ ok m → o ≡ some m
      decoded m none e = cc
      decoded m (some n) e = cc

  components-AllDecoded :
      (payloads : List (Text × Text)) {cs : List L1Component}
      → decode_components suit hex payloads ≡ ok cs
      → AllDecoded payloads cs
  unfolding decode_components
  components-AllDecoded [] {cs = []} h = tt
  components-AllDecoded [] {cs = c ∷ cs} h = cc
  components-AllDecoded ((key, l2) ∷ ps) {cs = cs} h =
      let (c, e1, k1) =
        >>=-eq-ok (decode_component suit hex key l2)
          (λ c. decode_components suit hex ps >>= λ rest. ok (c ∷ rest)) h in
      let (rest, e2, k2) = >>=-eq-ok (decode_components suit hex ps) (λ rest. ok (c ∷ rest)) k1 in
      let same : cs ≡ c ∷ rest = ground (arith, k2) in
      rw same (decode_component-IsDecoded key l2 e1, components-AllDecoded ps e2)

  -- When a campaign is fanned out, there is one component for each image of the campaign, in
  -- order, with the key without its leading hash sign, the bytes of the image, and for each part
  -- in the order of the manifest its digest if that has 32 bytes; an image that only switches its
  -- component off has no parts.
  pub fanout-AllDecoded :
      (l1 : Text) {cs : List L1Component}
      → fanout_l1 suit hex l1 ≡ ok cs
      → (campaign : Envelope) × (decode_envelope l1 ≡ some campaign)
        × AllDecoded (integrated_payloads campaign) cs
  unfolding fanout_l1
  fanout-AllDecoded l1 h =
      let (campaign, e, k) =
        >>=-eq-ok (ok_or (decode_envelope l1) decode_l1)
          (λ c. decode_components suit hex (integrated_payloads c)) h in
      (
        campaign,
        decoded campaign (decode_envelope l1) e,
        components-AllDecoded (integrated_payloads campaign) k,
      )
    where
      decoded : (m : Envelope) (o : Option Envelope) → ok_or o decode_l1 ≡ ok m → o ≡ some m
      decoded m none e = cc
      decoded m (some n) e = cc
