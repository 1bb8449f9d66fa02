-- ===== src/Delivery/Decoded.antt =====
-- The manifests that the tower builds, as the orchestrator decodes them.
use sumo_provision.Base.{
  ℕ, suc, ◌≡◌, refl, ◌∙◌, ap, Bool, true, Option, none, some, List, [], ◌∷◌, Text, Text_ord, arith,
  length, All, Result, ok, ◌>>=◌, >>=-eq-ok, ok_or, all,
}
use mathlib.Core.Path.{subst}
use sumo_provision.Map.{get}
use sumo_provision.Wire.Hash.{Hashing, to_prefixed}
use sumo_provision.Wire.Hash.Roundtrip.{from_str-to_prefixed}
use sumo_provision.Wire.Model.{ContentHash, IsDigest, Part}
use sumo_provision.Releases.Tables.{not_found}
use sumo_provision.Content.{Store, ArtifactEntry}
use sumo_provision.Content.Published.{IsStore}
use sumo_provision.Signer.{
  ComponentSpec, Offboard, EnvelopePart, part_uri, component_spec, component_specs,
}
use sumo_provision.Signer.Opens.{Reads}
use sumo_provision.Releases.L1.{envelope_part, envelope_parts}
use sumo_provision.Orchestrator.Model.{Error, L1Part}
use sumo_provision.Orchestrator.Fanout.{Suit, part_id, digest_of, decode_part, decode_parts}
use sumo_provision.Orchestrator.Jobs.Available.{is_ok}

-- What holds of every element of a result holds of every element of the list that it is.
pub ok-All :
    {E A : Type 0} (P : A → Type 0) (xs : List A) {ys : List A}
    → ◌≡◌ {A = Result E (List A)} (ok xs) (ok ys)
    → All P xs
    → All P ys
ok-All P xs {ys = ys} h all = let same : xs ≡ ys = cc in subst (All P) same all

module _ (offboard : Offboard) (suit : Suit) (hashing : Hashing) (store : Store)
    (fetch : ContentHash → Result Error Text) where
  -- A fetch finds the blobs of the store.
  abbrev pub Fetches : Type 0
  Fetches =
      (outer : ContentHash) (bytes : Text)
      → IsDigest outer
      → get outer store.blobs ≡ some bytes
      → is_ok (fetch outer) ≡ true

  -- An address whose blob can be fetched.
  pub record Stocked (outer : ContentHash) : Type 0 where
    pub digest : IsDigest outer
    pub fetched : is_ok (fetch outer) ≡ true

  abbrev pub StockedPart : EnvelopePart → Type 0
  StockedPart p = (outer : ContentHash) × (p.outer ≡ some outer) × Stocked outer

  abbrev pub StockedSpec : ComponentSpec → Type 0
  StockedSpec spec =
      (component : Text) × (id : Text) × (outer : ContentHash) × (spec.id ≡ component ∷ id ∷ [])
      × (spec.uri ≡ to_prefixed hashing.hex outer)
      × Stocked outer

  indexed-Stocked :
      (content : ContentHash) (entry : ArtifactEntry)
      → IsStore hashing store
      → Fetches
      → get content store.index ≡ some entry
      → Stocked entry.outer
  indexed-Stocked content entry is fetches found =
      let (bytes, there) = (is.indexed content entry found).1 in
      let digest =
        subst IsDigest (is.addressed entry.outer bytes there) (hashing.sha256-IsDigest bytes) in
      record { digest = digest; fetched = fetches entry.outer bytes digest there }

  ok_or-some : {E A : Type 0} (e : E) (o : Option A) {a : A} → ok_or o e ≡ ok a → o ≡ some a
  ok_or-some e none h = cc
  ok_or-some e (some b) h = cc

  pub envelope_parts-Stocked :
      (parts : List Part) {built : List EnvelopePart}
      → IsStore hashing store
      → Fetches
      → envelope_parts offboard hashing store parts ≡ ok built
      → All StockedPart built
  unfolding envelope_parts
  envelope_parts-Stocked [] is fetches h = ok-All StockedPart [] h tt
  envelope_parts-Stocked (p ∷ ps) is fetches h =
      let (entry, e1, k1) =
        >>=-eq-ok (ok_or (get p.content store.index) not_found)
          (λ entry. envelope_parts offboard hashing store ps >>= λ parts.
            ok (envelope_part p entry ∷ parts))
          h in
      let (rest, e2, k2) =
        >>=-eq-ok (envelope_parts offboard hashing store ps)
          (λ parts. ok (envelope_part p entry ∷ parts)) k1 in
      let stocked =
        indexed-Stocked p.content entry is fetches
          (ok_or-some not_found (get p.content store.index) e1) in
      ok-All StockedPart (envelope_part p entry ∷ rest) k2
        ((entry.outer, refl, stocked), envelope_parts-Stocked ps is fetches e2)

  component_spec-Stocked :
      (public_key : offboard.CoseKey) (kid component : Text) (p : EnvelopePart)
      {spec : ComponentSpec}
      → StockedPart p
      → component_spec offboard hashing.hex public_key kid component p ≡ ok spec
      → StockedSpec spec
  unfolding component_spec part_uri
  component_spec-Stocked public_key kid component p {spec = spec} (outer, addressed, stocked) h =
      let built : Text → ComponentSpec = λ enc_info. record {
        id = component ∷ p.id ∷ [];
        digest = p.inner;
        size = p.size;
        uri = part_uri offboard hashing.hex p;
        encryption_info = some enc_info;
      } in
      let (enc_info, e, k) =
        >>=-eq-ok (offboard.rewrap_cek_ecdh p.cek p.iv public_key kid) (λ enc. ok (built enc)) h in
      let same : built enc_info ≡ spec = cc in
      subst StockedSpec same (component, p.id, outer, refl, rw addressed refl, stocked)

  pub component_specs-Stocked :
      (public_key : offboard.CoseKey) (kid component : Text) (parts : List EnvelopePart)
      {specs : List ComponentSpec}
      → All StockedPart parts
      → component_specs offboard hashing.hex public_key kid component parts ≡ ok specs
      → All StockedSpec specs
  unfolding component_specs
  component_specs-Stocked public_key kid component [] stocked h = ok-All StockedSpec [] h tt
  component_specs-Stocked public_key kid component (p ∷ parts) stocked h =
      let (spec, e1, k1) =
        >>=-eq-ok (component_spec offboard hashing.hex public_key kid component p)
          (λ spec. component_specs offboard hashing.hex public_key kid component parts >>= λ specs.
            ok (spec ∷ specs))
          h in
      let (specs, e2, k2) =
        >>=-eq-ok (component_specs offboard hashing.hex public_key kid component parts)
          (λ specs. ok (spec ∷ specs)) k1 in
      ok-All StockedSpec (spec ∷ specs) k2 (
        component_spec-Stocked public_key kid component p stocked.0 e1,
        component_specs-Stocked public_key kid component parts stocked.1 e2,
      )

  abbrev pub fetched : L1Part → Bool
  fetched p = is_ok (fetch p.outer)

  part_id-second :
      (m : suit.Envelope) (i : ℕ) (component id : Text)
      → suit.component_id m i ≡ some (component ∷ id ∷ [])
      → part_id suit hashing.hex m i ≡ some (suit.from_utf8_lossy id)
  unfolding part_id
  part_id-second m i component id named = rw (named, part_id) refl

  decode_part-ok :
      (component : Text) (m : suit.Envelope) (i : ℕ) (spec : ComponentSpec)
      → suit.component_id m i ≡ some spec.id
      → suit.uri m i ≡ some spec.uri
      → StockedSpec spec
      → (p : L1Part) × (decode_part suit hashing.hex component m i ≡ ok p) × (fetched p ≡ true)
  unfolding decode_part
  decode_part-ok component m i spec named addressed (c, id, outer, ids, at, stocked) = (
    record {
      part = suit.from_utf8_lossy id;
      outer = outer;
      inner = digest_of (suit.image_digest m i);
    },
    rw
        (
          part_id-second m i c id (named ∙ ap (λ x. some x) ids),
          addressed ∙ ap (λ x. some x) at,
          (from_str-to_prefixed hashing.hex outer stocked.digest).0,
        )
        refl,
    stocked.fetched,
  )

  pub decode_parts-ok :
      (component : Text) (m : suit.Envelope) (first : ℕ) (specs : List ComponentSpec)
      → Reads suit m first specs
      → All StockedSpec specs
      → (ps : List L1Part) × (decode_parts suit hashing.hex component m first (length specs)
          ≡ ok ps)
        × (all fetched ps ≡ true)
  unfolding decode_parts all
  decode_parts-ok component m first [] reads stocked = ([], refl, refl)
  decode_parts-ok component m first (spec ∷ specs) ((named, addressed, _), reads) stocked =
      let (p, e, f) = decode_part-ok component m first spec named addressed stocked.0 in
      let (ps, es, fs) = decode_parts-ok component m (suc first) specs reads stocked.1 in
      (p ∷ ps, rw (e, es) refl, ground (arith, f, fs))
