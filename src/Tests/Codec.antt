-- ===== src/Tests/Codec.antt =====
-- A format of manifests to run the definitions with: a kind, and a list of texts behind it.
use sumo_provision.Base.{
  ℕ, zero, suc, ◌≡◌, refl, ap, ◌∙◌, sym, Bool, true, false, Option, none, some, List, [], ◌∷◌, ◌++◌,
  map, Text, length, All, Result, ok, err, ◌>>=◌, >>=-eq-ok, All-imp,
}
use mathlib.Core.Path.{subst}
use mathlib.Core.List.{Memᴰ, append_assoc}
use sumo_provision.Orchestrator.Fanout.{Suit}
use sumo_provision.Signer.{ComponentSpec, Offboard, OffboardError, offboard_error}
use sumo_provision.Signer.Opens.{Reads, image_key, Opens}

-- each text ends in a zero, and its bytes are counted from one
unfoldable pub seal : Text → Text → Text
seal [] rest = 0 ∷ rest
seal (c ∷ t) rest = suc c ∷ seal t rest

unfoldable pub sealed : List Text → Text
unfolding seal
sealed [] = []
sealed (t ∷ ts) = seal t (sealed ts)

abbrev push : ℕ → List Text → List Text
push c [] = []
push c (t ∷ ts) = (c ∷ t) ∷ ts

unfoldable pub unsealed : Text → List Text
unsealed [] = []
unsealed (zero ∷ s) = [] ∷ unsealed s
unsealed (suc c ∷ s) = push c (unsealed s)

unsealed-seal : (t rest : Text) → unsealed (seal t rest) ≡ t ∷ unsealed rest
unfolding unsealed seal
unsealed-seal [] rest = refl
unsealed-seal (c ∷ t) rest = ap (push c) (unsealed-seal t rest)

unsealed-sealed : (ts : List Text) → unsealed (sealed ts) ≡ ts
unfolding sealed unsealed
unsealed-sealed [] = refl
unsealed-sealed (t ∷ ts) = unsealed-seal t (sealed ts) ∙ ap (λ x. t ∷ x) (unsealed-sealed ts)

-- a component as four texts, and back
abbrev Quad : Type 0
Quad = Text × Text × Text × Text

abbrev quad_of : List Text → Text → Text → Result OffboardError Quad
quad_of (component ∷ id ∷ []) digest uri = ok (component, id, uri, digest)
quad_of _ digest uri = err offboard_error

abbrev spec_quad : ComponentSpec → Result OffboardError Quad
spec_quad spec = quad_of spec.id spec.digest spec.uri

unfoldable pub spec_quads : List ComponentSpec → Result OffboardError (List Quad)
spec_quads [] = ok []
spec_quads (spec ∷ specs) = do q ← spec_quad spec; qs ← spec_quads specs; ok (q ∷ qs)

unfoldable pub texts : List Quad → List Text
texts [] = []
texts ((component, id, uri, digest) ∷ qs) = component ∷ id ∷ uri ∷ digest ∷ texts qs

unfoldable pub quads : List Text → List Quad
quads (component ∷ id ∷ uri ∷ digest ∷ ts) = (component, id, uri, digest) ∷ quads ts
quads _ = []

quads-texts : (qs : List Quad) → quads (texts qs) ≡ qs
unfolding quads texts
quads-texts [] = refl
quads-texts (q ∷ qs) = ap (λ x. q ∷ x) (quads-texts qs)

abbrev pub pair_texts : List (Text × Text) → List Text
pair_texts [] = []
pair_texts ((name, l2) ∷ images) = name ∷ l2 ∷ pair_texts images

abbrev pairs : List Text → List (Text × Text)
pairs (name ∷ l2 ∷ ts) = (name, l2) ∷ pairs ts
pairs _ = []

pairs-pair_texts : (images : List (Text × Text)) → pairs (pair_texts images) ≡ images
pairs-pair_texts [] = refl
pairs-pair_texts (image ∷ images) = ap (λ x. image ∷ x) (pairs-pair_texts images)

pub data Manifest : Type 0 where
  firmware : List Quad → Manifest
  disabling : List Text → Manifest
  campaign : List (Text × Text) → Manifest

unfoldable pub open_manifest : Text → Option Manifest
unfolding quads unsealed
open_manifest [] = none
open_manifest (zero ∷ s) = some (firmware (quads (unsealed s)))
open_manifest (suc zero ∷ s) = some (disabling (unsealed s))
open_manifest (suc (suc n) ∷ s) = some (campaign (map image_key (pairs (unsealed s))))

unfoldable pub nth : ℕ → List Quad → Option Quad
nth n [] = none
nth zero (q ∷ qs) = some q
nth (suc n) (q ∷ qs) = nth n qs

unfoldable pub component : Manifest → ℕ → Option Quad
unfolding nth
component (firmware qs) i = nth i qs
component (disabling id) i = none
component (campaign images) i = none

abbrev pub count : Manifest → ℕ
count (firmware qs) = length qs
count (disabling id) = 1
count (campaign images) = 0

abbrev pub target : Manifest → Option (List Text)
target (disabling id) = some id
target _ = none

abbrev pub is_firmware : Manifest → Bool
is_firmware (firmware qs) = true
is_firmware _ = false

abbrev pub images : Manifest → List (Text × Text)
images (campaign embedded) = embedded
images _ = []

abbrev pub field : {A : Type 0} → (Quad → A) → Option Quad → Option A
field f none = none
field f (some q) = some (f q)

abbrev pub suit : Suit
suit = record {
  Envelope = Manifest;
  decode_envelope = open_manifest;
  integrated_payloads = images;
  disable_target = target;
  has_firmware = is_firmware;
  component_count = count;
  component_id = λ m i. field (λ (c, id, uri, digest). c ∷ id ∷ []) (component m i);
  uri = λ m i. field (λ (c, id, uri, digest). uri) (component m i);
  image_digest = λ m i. field (λ (c, id, uri, digest). digest) (component m i);
  from_utf8_lossy = λ bytes. bytes;
}

-- keys are their bytes, and a rewrapped key is the key itself
abbrev pub offboard : Offboard
offboard = record {
  CoseKey = Text;
  from_cose_key_bytes = λ bytes. ok bytes;
  rewrap_cek_ecdh = λ cek iv public_key kid. ok cek;
  build_components = λ now seq specs key. spec_quads specs >>= λ qs. ok (0 ∷ sealed (texts qs));
  build_images = λ now seq embedded key. ok (2 ∷ sealed (pair_texts embedded));
  build_disable = λ now seq id key. ok (1 ∷ sealed id);
}

nth-length : (pre qs : List Quad) (q : Quad) → nth (length pre) (pre ++ (q ∷ qs)) ≡ some q
unfolding nth
nth-length [] qs q = refl
nth-length (p ∷ pre) qs q = nth-length pre qs q

one_more : (pre : List Quad) (q : Quad) → length (pre ++ (q ∷ [])) ≡ suc (length pre)
one_more [] q = refl
one_more (p ∷ pre) q = ap (λ n. suc n) (one_more pre q)

quad_of-fields :
    (id : List Text) (digest uri : Text) {q : Quad}
    → quad_of id digest uri ≡ ok q
    → (q.0 ∷ q.1 ∷ [] ≡ id) × (q.2 ≡ uri) × (q.3 ≡ digest)
quad_of-fields [] digest uri h = cc
quad_of-fields (a ∷ []) digest uri h = cc
quad_of-fields (a ∷ b ∷ c ∷ id) digest uri h = cc
quad_of-fields (a ∷ b ∷ []) digest uri {q = q} h =
    let same : (a, b, uri, digest) ≡ q = cc in
    (
      ap (λ (x : Quad). x.0 ∷ x.1 ∷ []) (sym same),
      ap (λ (x : Quad). x.2) (sym same),
      ap (λ (x : Quad). x.3) (sym same),
    )

specs-Reads :
    (pre : List Quad) (specs : List ComponentSpec) {qs : List Quad}
    → spec_quads specs ≡ ok qs
    → (length qs ≡ length specs) × Reads suit (firmware (pre ++ qs)) (length pre) specs
unfolding spec_quads component nth
specs-Reads pre [] {qs = []} h = (refl, tt)
specs-Reads pre [] {qs = q ∷ qs} h = cc
specs-Reads pre (spec ∷ specs) {qs = all} h =
    let (q, e1, k1) = >>=-eq-ok (spec_quad spec) (λ q. spec_quads specs >>= λ qs. ok (q ∷ qs)) h in
    let (qs, e2, k2) = >>=-eq-ok (spec_quads specs) (λ qs. ok (q ∷ qs)) k1 in
    let same : q ∷ qs ≡ all = cc in
    let (ids, uris, digests) = quad_of-fields spec.id spec.digest spec.uri e1 in
    let (counted, reads) = specs-Reads (pre ++ (q ∷ [])) specs e2 in
    let moved : Reads suit (firmware (pre ++ (q ∷ qs))) (suc (length pre)) specs =
      subst (λ (n : ℕ). Reads suit (firmware (pre ++ (q ∷ qs))) n specs) (one_more pre q)
        (subst (λ xs. Reads suit (firmware xs) (length (pre ++ (q ∷ []))) specs)
          (append_assoc pre (q ∷ []) qs) reads) in
    subst
      (λ xs.
        (length xs ≡ suc (length specs))
        × Reads suit (firmware (pre ++ xs)) (length pre) (spec ∷ specs))
      same
      (
        ap (λ n. suc n) counted,
        (
          (
            ap (field (λ (x : Quad). x.0 ∷ x.1 ∷ [])) (nth-length pre qs q) ∙ ap (λ x. some x) ids,
            ap (field (λ (x : Quad). x.2)) (nth-length pre qs q) ∙ ap (λ x. some x) uris,
            ap (field (λ (x : Quad). x.3)) (nth-length pre qs q) ∙ ap (λ x. some x) digests,
          ),
          moved,
        ),
      )

images-embedded :
    (embedded : List (Text × Text))
    → All
        (λ image. (source : Text × Text) × Memᴰ source embedded × (image ≡ image_key source))
        (map image_key embedded)
images-embedded [] = tt
images-embedded (e ∷ embedded) = (
  (e, Memᴰ.head refl, refl),
  All-imp (map image_key embedded) (λ image (source, m, same). (source, Memᴰ.tail m, same))
      (images-embedded embedded),
)

components-open :
    (qs : List Quad) {bytes : Text}
    → ◌≡◌ {A = Result OffboardError Text} (ok (0 ∷ sealed (texts qs))) (ok bytes)
    → open_manifest bytes ≡ some (firmware qs)
unfolding open_manifest
components-open qs {bytes = bytes} h =
    let same : 0 ∷ sealed (texts qs) ≡ bytes = cc in
    subst (λ b. open_manifest b ≡ some (firmware qs)) same
      (ap (λ ts. some (firmware (quads ts))) (unsealed-sealed (texts qs))
        ∙ ap (λ x. some (firmware x)) (quads-texts qs))

disable-opens :
    (id : List Text) {bytes : Text}
    → ◌≡◌ {A = Result OffboardError Text} (ok (1 ∷ sealed id)) (ok bytes)
    → open_manifest bytes ≡ some (disabling id)
unfolding open_manifest
disable-opens id {bytes = bytes} h =
    let same : 1 ∷ sealed id ≡ bytes = cc in
    subst (λ b. open_manifest b ≡ some (disabling id)) same
      (ap (λ ts. some (disabling ts)) (unsealed-sealed id))

images-open :
    (embedded : List (Text × Text)) {bytes : Text}
    → ◌≡◌ {A = Result OffboardError Text} (ok (2 ∷ sealed (pair_texts embedded))) (ok bytes)
    → open_manifest bytes ≡ some (campaign (map image_key embedded))
unfolding open_manifest
images-open embedded {bytes = bytes} h =
    let same : 2 ∷ sealed (pair_texts embedded) ≡ bytes = cc in
    subst (λ b. open_manifest b ≡ some (campaign (map image_key embedded))) same
      (ap (λ ts. some (campaign (map image_key (pairs ts)))) (unsealed-sealed (pair_texts embedded))
        ∙ ap (λ x. some (campaign (map image_key x))) (pairs-pair_texts embedded))

pub opens : Opens offboard suit
opens = record {
  components = λ now seq specs key bytes h.
      let (qs, e, k) = >>=-eq-ok (spec_quads specs) (λ qs. ok (0 ∷ sealed (texts qs))) h in
      let (counted, reads) = specs-Reads [] specs e in
      (firmware qs, components-open qs k, refl, counted, reads);
  disable = λ now seq id key bytes h. (disabling id, disable-opens id h, refl, refl);
  images = λ now seq embedded key bytes h.
      (campaign (map image_key embedded), images-open embedded h, images-embedded embedded);
}
