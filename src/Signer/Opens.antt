-- ===== src/Signer/Opens.antt =====
-- What the SUIT library documents of the manifests that it builds and decodes again.
use sumo_provision.Base.{
  ℕ, suc, ◌≡◌, true, false, some, List, [], ◌∷◌, ◌++◌, Text, text, length, All, is_some, ok,
}
use mathlib.Core.List.{Memᴰ}
use sumo_provision.Orchestrator.Fanout.{Suit}
use sumo_provision.Signer.{ComponentSpec, Offboard}

-- From an index on, a manifest has the given components.
abbrev pub Reads : (suit : Suit) → suit.Envelope → ℕ → List ComponentSpec → Type 0
Reads suit m i [] = Unit
Reads suit m i (spec ∷ specs) =
    ((suit.component_id m i ≡ some spec.id)
      × (suit.uri m i ≡ some spec.uri)
      × (suit.image_digest m i ≡ some spec.digest))
    × Reads suit m (suc i) specs

-- an embedded image stands under its name behind a hash sign
abbrev pub image_key : Text × Text → Text × Text
image_key (name, bytes) = (text "#" ++ name, bytes)

-- A manifest that is built is decoded: to the components that it was built from, in their order;
-- to a directive that disables, without firmware; to the images that were embedded, in some order.
pub record Opens (offboard : Offboard) (suit : Suit) : Type 0 where
  pub components :
      (now seq : ℕ) (specs : List ComponentSpec) (key : offboard.CoseKey) (bytes : Text)
      → offboard.build_components now seq specs key ≡ ok bytes
      → (m : suit.Envelope) × (suit.decode_envelope bytes ≡ some m)
        × (is_some (suit.disable_target m) ≡ false)
        × (suit.component_count m ≡ length specs)
        × Reads suit m 0 specs
  pub disable :
      (now seq : ℕ) (id : List Text) (key : offboard.CoseKey) (bytes : Text)
      → offboard.build_disable now seq id key ≡ ok bytes
      → (m : suit.Envelope) × (suit.decode_envelope bytes ≡ some m)
        × (is_some (suit.disable_target m) ≡ true)
        × (suit.has_firmware m ≡ false)
  pub images :
      (now seq : ℕ) (embedded : List (Text × Text)) (key : offboard.CoseKey) (bytes : Text)
      → offboard.build_images now seq embedded key ≡ ok bytes
      → (m : suit.Envelope) × (suit.decode_envelope bytes ≡ some m)
        × All
            (λ image. (source : Text × Text) × Memᴰ source embedded × (image ≡ image_key source))
            (suit.integrated_payloads m)
