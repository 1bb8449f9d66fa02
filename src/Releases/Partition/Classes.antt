-- ===== src/Releases/Partition/Classes.antt =====
-- The three lists, as tests on the entries of the tree.
use sumo_provision.Base.{
  ◌≡◌, refl, Bool, false, not, ◌&&◌, Option, some, [], ◌∷◌, arith, Text, Text_ord, Text_eq,
  Option_eq, Bool_eq, ◌==◌, if◌then◌else◌, is_empty, All,
}
use sumo_provision.Map.{Map}
use sumo_provision.Wire.Model.{Entity, Tree}
use sumo_provision.Releases.Partition.{observed_admin, carried, place, partition_entries}

-- The three lists are the entries of the tree that pass three tests.
abbrev pub builds : Option Tree → Text → Entity → Bool
builds reported path e = not e.disabled && (not (is_empty e.parts) && not (carried reported path e))

abbrev pub switches_off : Option Tree → Text → Entity → Bool
switches_off reported path e = e.disabled && observed_admin reported path == some false

abbrev pub leaves_alone : Option Tree → Text → Entity → Bool
leaves_alone reported path e =
    if e.disabled
    then not (observed_admin reported path == some false)
    else not (is_empty e.parts) && carried reported path e

-- Lists that the tests leave empty.
pub included-nil :
    (reported : Option Tree) (m : Map Text Entity)
    → All (λ e. builds reported e.0 e.1 ≡ false) m
    → (partition_entries reported m).included ≡ []
unfolding partition_entries place
included-nil reported [] h = refl
included-nil reported ((p, e) ∷ m) h = ground (arith, included-nil reported m h.1, h.0)

pub disabled-nil :
    (reported : Option Tree) (m : Map Text Entity)
    → All (λ e. switches_off reported e.0 e.1 ≡ false) m
    → (partition_entries reported m).disabled ≡ []
unfolding partition_entries place
disabled-nil reported [] h = refl
disabled-nil reported ((p, e) ∷ m) h = ground (arith, disabled-nil reported m h.1, h.0)
