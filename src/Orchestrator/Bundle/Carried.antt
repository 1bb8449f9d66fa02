-- ===== src/Orchestrator/Bundle/Carried.antt =====
-- What a flash bundle carries, against the preview that it is made from.
use sumo_provision.Base.{
  ℕ, ◌≡◌, Bool, true, false, is_empty_iff, refl, ap, ◌∙◌, sym, not, List, [], ◌∷◌, ◌++◌, map,
  flat_map, foldl, filter, is_empty, Text, arith, Bool-cases, inl, inr, Result, ok, >>=-eq-ok,
  ok-inj, ◌>>=◌,
}
use mathlib.Core.Path.{ap₂, subst}
use mathlib.Core.List.{map-append}
use sumo_provision.Wire.Model.{ContentHash}
use sumo_provision.Orchestrator.Model.{Error, ChannelTarget}
use sumo_provision.Orchestrator.Preview.{ShipPart, ComponentApply, ApplyPlan}
use sumo_provision.Orchestrator.Preview.Bytes.{
  blob_sizes, add_u64, plan_ship_bytes, blob_sizes-append,
}
use sumo_provision.Orchestrator.Bundle.{
  PayloadRef, ComponentFlash, FlashBundle, payload_refs, shipped_contents, component_flash,
  bundle_components, flash_bundle,
}

-- The total that the command line counts up over the payloads of a bundle.
abbrev pub payload_bytes : FlashBundle → ℕ
payload_bytes b =
    foldl add_u64 0 (
      map (λ (p : PayloadRef). p.size) (flat_map (λ (c : ComponentFlash). c.payloads) b.components))

payload_refs-sizes :
    (ship : List ShipPart) → map (λ (p : PayloadRef). p.size) (payload_refs ship) ≡ blob_sizes ship
unfolding payload_refs blob_sizes
payload_refs-sizes [] = refl
payload_refs-sizes (s ∷ ship) = ground (arith, payload_refs-sizes ship)

abbrev pub flash_line : ComponentFlash → Text × List PayloadRef
flash_line f = (f.entity, f.payloads)

abbrev pub ship_line : ComponentApply → Text × List PayloadRef
ship_line c = (c.entity, payload_refs c.ship)

abbrev pub has_ship : ComponentApply → Bool
has_ship c = not (is_empty c.ship)

abbrev all_sizes : List ComponentFlash → List ℕ
all_sizes fs = map (λ (p : PayloadRef). p.size) (flat_map (λ (c : ComponentFlash). c.payloads) fs)

abbrev all_blobs : List ComponentApply → List ℕ
all_blobs cs = blob_sizes (flat_map (λ (c : ComponentApply). c.ship) cs)

-- What the bundle has of a list of components.
abbrev IsCarried : List ComponentApply → List ComponentFlash → Type 0
IsCarried cs flashes =
    (map flash_line flashes ≡ map ship_line (filter has_ship cs))
    × (all_sizes flashes ≡ all_blobs cs)

skip-IsCarried :
    (c : ComponentApply) (cs : List ComponentApply) (flashes : List ComponentFlash)
    → is_empty c.ship ≡ true
    → IsCarried cs flashes
    → IsCarried (c ∷ cs) flashes
unfolding flat_map filter
skip-IsCarried c cs flashes idle (lines, sizes) = (
  rw idle lines,
  sizes
      ∙ ap (λ ship. blob_sizes (ship ++ flat_map (λ (c : ComponentApply). c.ship) cs))
          (sym ((is_empty_iff c.ship).0 idle)),
)

add-IsCarried :
    (c : ComponentApply) (cs : List ComponentApply) (f : ComponentFlash)
    (flashes : List ComponentFlash)
    → is_empty c.ship ≡ false
    → flash_line f ≡ ship_line c
    → IsCarried cs flashes
    → IsCarried (c ∷ cs) (f ∷ flashes)
unfolding flat_map filter
add-IsCarried c cs f flashes busy same (lines, sizes) = (
  rw busy (ap₂ ◌∷◌ same lines),
  map-append (λ (p : PayloadRef). p.size) f.payloads
        (flat_map (λ (c : ComponentFlash). c.payloads) flashes)
      ∙ ap₂ ◌++◌
          (ap (λ (l : Text × List PayloadRef). map (λ (p : PayloadRef). p.size) l.1) same
            ∙ payload_refs-sizes c.ship)
          sizes
      ∙ sym (blob_sizes-append c.ship (flat_map (λ (c : ComponentApply). c.ship) cs)),
)

module _
    (build_envelope : Text → Text → Text → List (Text × ContentHash) → ℕ → Result Error Text) where
  bundle_components-IsCarried :
      (pubkey device_id : Text) (cs : List ComponentApply) (flashes : List ComponentFlash)
      → bundle_components build_envelope pubkey device_id cs ≡ ok flashes
      → IsCarried cs flashes
  unfolding bundle_components flat_map filter blob_sizes
  bundle_components-IsCarried pubkey device_id [] flashes h =
      subst (IsCarried []) (ok-inj h) (refl, refl)
  bundle_components-IsCarried pubkey device_id (c ∷ cs) flashes h =
      elim (Bool-cases (is_empty c.ship)) [
        | inl idle ↦
            skip-IsCarried c cs flashes idle
              (bundle_components-IsCarried pubkey device_id cs flashes (rw idle at h))
        | inr busy ↦
            let (envelope, built, k) =
              >>=-eq-ok (build_envelope pubkey device_id c.entity (shipped_contents c.ship) 1)
                (λ envelope. bundle_components build_envelope pubkey device_id cs >>= λ flashes.
                  ok (component_flash build_envelope c envelope ∷ flashes))
                (rw busy at h) in
            let (rest, more, last) =
              >>=-eq-ok (bundle_components build_envelope pubkey device_id cs)
                (λ flashes. ok (component_flash build_envelope c envelope ∷ flashes)) k in
            subst (IsCarried (c ∷ cs)) (ok-inj last) (
              add-IsCarried c cs (component_flash build_envelope c envelope) rest busy refl
                (bundle_components-IsCarried pubkey device_id cs rest more))
      ]

  -- When the bundle of a preview can be assembled, it has one entry for each component of the
  -- preview that ships a part, in order, with a payload for each part that the tower stores, and
  -- the sizes of its payloads add up to the bytes that the preview counts.
  pub bundle-carries :
      (plan : ApplyPlan) (device_pubkey : Text → Result Error Text) (target : ChannelTarget)
      (device_id : Text) (bundle : FlashBundle)
      → flash_bundle build_envelope (ok plan) device_pubkey target device_id ≡ ok bundle
      → (map flash_line bundle.components ≡ map ship_line (filter has_ship plan.components))
        × (payload_bytes bundle ≡ plan_ship_bytes plan)
  unfolding flash_bundle plan_ship_bytes
  bundle-carries plan device_pubkey target device_id bundle h =
      let bundle_of : List ComponentFlash → FlashBundle = λ components. record {
        channel = target.channel;
        device = device_id;
        components = components;
      } in
      let (pubkey, known, k) =
        >>=-eq-ok (device_pubkey device_id)
          (λ pubkey.
            bundle_components build_envelope pubkey device_id plan.components >>= λ components.
            ok (bundle_of components))
          h in
      let (flashes, made, last) =
        >>=-eq-ok (bundle_components build_envelope pubkey device_id plan.components)
          (λ components. ok (bundle_of components)) k in
      let carried = bundle_components-IsCarried pubkey device_id plan.components flashes made in
      subst
        (λ (b : FlashBundle).
          (map flash_line b.components ≡ map ship_line (filter has_ship plan.components))
          × (payload_bytes b ≡ plan_ship_bytes plan))
        (ok-inj last) (carried.0, ap (foldl add_u64 0) carried.1)
