-- ===== src/Delivery/Images.antt =====
-- The images of the campaign: each decodes, and every blob that it names can be fetched.
use sumo_provision.Base.{
  ℕ, ◌≡◌, refl, ◌∙◌, Bool, true, false, Option, some, List, [], ◌∷◌, Text, Text_ord, length, All,
  Result, ok, err, ◌>>=◌, >>=-eq-ok, or_err, all, is_some, Bool-cases, inl, inr,
}
use sumo_provision.Wire.Hash.{Hashing}
use sumo_provision.Wire.Model.{ContentHash, Entity}
use sumo_provision.Releases.Tables.{internal}
use sumo_provision.Content.{Store}
use sumo_provision.Content.Published.{IsStore}
use sumo_provision.Signer.{
  Offboard, ComponentSpec, signing_time, component_specs, build_envelope, build_disable_envelope,
}
use sumo_provision.Signer.Opens.{Opens}
use sumo_provision.Releases.L1.{Build, envelope_parts, build_parts, build_l2, build_l2s}
use sumo_provision.Orchestrator.Model.{Error, L1Part, L1Component}
use sumo_provision.Orchestrator.Fanout.{Suit, decode_parts, part_count, decode_component, bare_key}
use sumo_provision.Delivery.Decoded.{
  ok-All, Fetches, StockedSpec, fetched, envelope_parts-Stocked, component_specs-Stocked,
  decode_parts-ok,
}

pub or_err-ok : {E F A : Type 0} (r : Result E A) (f : F) {a : A} → or_err r f ≡ ok a → r ≡ ok a
or_err-ok (ok b) f h = cc
or_err-ok (err e) f h = cc

module _ (offboard : Offboard) (suit : Suit) (hashing : Hashing) (key : offboard.CoseKey)
    (clock : Option Text → Option ℕ) (store : Store) (fetch : ContentHash → Result Error Text) where
  -- A component whose blobs can be fetched.
  abbrev pub deliverable : L1Component → Bool
  deliverable c = all (fetched offboard suit hashing store fetch) c.parts

  -- An image that decodes, under whatever key it stands.
  abbrev pub Decodes : Text → Type 0
  Decodes l2 =
      (k : Text)
      → (c : L1Component) × (decode_component suit hashing.hex k l2 ≡ ok c) × (deliverable c ≡ true)

  component-ok :
      (l2 : Text) (m : suit.Envelope) (count : ℕ) (parts : List L1Part) (k : Text)
      → suit.decode_envelope l2 ≡ some m
      → part_count suit hashing.hex m ≡ count
      → decode_parts suit hashing.hex (bare_key k) m 0 count ≡ ok parts
      → decode_component suit hashing.hex k l2
        ≡ ok (record { component = bare_key k; envelope = l2; parts = parts })
  unfolding decode_component
  component-ok l2 m count parts k opened counted decoded = rw (opened, counted, decoded) refl

  firmware-count :
      (m : suit.Envelope)
      → is_some (suit.disable_target m) ≡ false
      → part_count suit hashing.hex m ≡ suit.component_count m
  unfolding part_count
  firmware-count m plain = rw plain refl

  disable-count :
      (m : suit.Envelope)
      → is_some (suit.disable_target m) ≡ true
      → suit.has_firmware m ≡ false
      → part_count suit hashing.hex m ≡ 0
  unfolding part_count
  disable-count m disables bare = rw (disables, bare) refl

  specs-Decodes :
      (now seq : ℕ) (specs : List ComponentSpec) (l2 : Text)
      → Opens offboard suit
      → All (StockedSpec offboard suit hashing store fetch) specs
      → offboard.build_components now seq specs key ≡ ok l2
      → Decodes l2
  specs-Decodes now seq specs l2 opens stocked built k =
      let (m, opened, plain, counted, reads) = opens.components now seq specs key l2 built in
      let (parts, decoded, fetches) =
        decode_parts-ok offboard suit hashing store fetch (bare_key k) m 0 specs reads stocked in
      (
        record { component = bare_key k; envelope = l2; parts = parts },
        component-ok l2 m (length specs) parts k opened (firmware-count m plain ∙ counted) decoded,
        fetches,
      )

  disable-Decodes :
      (now : Option ℕ) (path l2 : Text) (seq : ℕ)
      → Opens offboard suit
      → build_disable_envelope offboard hashing.hex key now path seq ≡ ok l2
      → Decodes l2
  unfolding build_disable_envelope decode_parts all
  disable-Decodes now path l2 seq opens built k =
      let (m, opened, disables, bare) =
        opens.disable (signing_time now) seq (path ∷ []) key l2 built in
      (
        record { component = bare_key k; envelope = l2; parts = [] },
        component-ok l2 m 0 [] k opened (disable-count m disables bare) refl,
        refl,
      )

  parts-Decodes :
      (b : Build) (path : Text) (entity : Entity) (l2 : Text)
      → Opens offboard suit
      → IsStore hashing store
      → Fetches offboard suit hashing store fetch
      → build_parts offboard hashing key clock store b (path, entity) ≡ ok l2
      → Decodes l2
  unfolding build_parts build_envelope
  parts-Decodes b path entity l2 opens is fetches h =
      let now = clock (some path) in
      let (parts, e1, k1) =
        >>=-eq-ok (envelope_parts offboard hashing store entity.parts)
          (λ parts.
            or_err
              (build_envelope offboard hashing.hex key now b.device_pubkey b.device_id path parts
                b.seq)
              internal)
          h in
      let (public_key, e2, k2) =
        >>=-eq-ok (offboard.from_cose_key_bytes b.device_pubkey)
          (λ public_key.
            component_specs offboard hashing.hex public_key b.device_id path parts >>= λ specs.
            offboard.build_components (signing_time now) b.seq specs key)
          (or_err-ok _ internal k1) in
      let (specs, e3, k3) =
        >>=-eq-ok (component_specs offboard hashing.hex public_key b.device_id path parts)
          (λ specs. offboard.build_components (signing_time now) b.seq specs key) k2 in
      let stocked =
        envelope_parts-Stocked offboard suit hashing store fetch entity.parts is fetches e1 in
      specs-Decodes (signing_time now) b.seq specs l2 opens
        (component_specs-Stocked offboard suit hashing store fetch public_key b.device_id path parts
          stocked e3)
        k3

  l2-Decodes :
      (b : Build) (e : Text × Entity) (l2 : Text)
      → Opens offboard suit
      → IsStore hashing store
      → Fetches offboard suit hashing store fetch
      → build_l2 offboard hashing key clock store b e ≡ ok l2
      → Decodes l2
  unfolding build_l2
  l2-Decodes b (path, entity) l2 opens is fetches h = elim (Bool-cases entity.disabled) [
    | inl off ↦
        disable-Decodes (clock (some path)) path l2 b.seq opens (or_err-ok _ internal (rw off at h))
    | inr on ↦ parts-Decodes b path entity l2 opens is fetches (rw on at h)
  ]

  pub l2s-Decodes :
      (b : Build) (entries : List (Text × Entity)) {l2s : List (Text × Text)}
      → Opens offboard suit
      → IsStore hashing store
      → Fetches offboard suit hashing store fetch
      → build_l2s offboard hashing key clock store b entries ≡ ok l2s
      → All (λ e. Decodes e.1) l2s
  unfolding build_l2s
  l2s-Decodes b [] opens is fetches h = ok-All (λ e. Decodes e.1) [] h tt
  l2s-Decodes b (e ∷ entries) opens is fetches h =
      let (l2, e1, k1) =
        >>=-eq-ok (build_l2 offboard hashing key clock store b e)
          (λ l2.
            build_l2s offboard hashing key clock store b entries >>= λ l2s. ok ((e.0, l2) ∷ l2s))
          h in
      let (l2s, e2, k2) =
        >>=-eq-ok (build_l2s offboard hashing key clock store b entries)
          (λ l2s. ok ((e.0, l2) ∷ l2s)) k1 in
      ok-All (λ e. Decodes e.1) ((e.0, l2) ∷ l2s) k2
        (l2-Decodes b e l2 opens is fetches e1, l2s-Decodes b entries opens is fetches e2)
