-- ===== src/Releases/L1/Converged.antt =====
-- What the tower answers to a vehicle that is at its target.
use sumo_provision.Base.{
  ℕ, ◌≡◌, refl, ◌∙◌, ap, Bool, true, not, ◌&&◌, Option, some, [], ◌∷◌, Text, Text_ord, Text_eq,
  arith, ok, err, all, is_empty, if◌then◌else◌,
}
use sumo_provision.Map.{Map}
use sumo_provision.Wire.Hash.{Hashing}
use sumo_provision.Wire.Model.{Entity, Tree}
use sumo_provision.Wire.Assess.{is_converged, assess_tree}
use sumo_provision.Releases.Tables.{Db, not_found}
use sumo_provision.Releases.Partition.{L1Split, place, partition_entries, partition_l1_components}
use sumo_provision.Releases.Partition.Converged.{partition-converged}
use sumo_provision.Releases.L1.{
  L1Request, no_content, reported_state, l1_target, build_l2s, answer_l1, assemble,
  channel_target_l1,
}
use sumo_provision.Releases.L1.Resolved.{l1_target-IsSorted}
use sumo_provision.Signer.{Offboard}
use sumo_provision.Content.{Store}

-- An entity that asks for nothing: enabled, and without parts.
abbrev pub is_bare : Text × Entity → Bool
is_bare e = not e.1.disabled && is_empty e.1.parts

skipped-is_empty :
    (reported : Option Tree) (m : Map Text Entity)
    → (partition_entries reported m).included ≡ []
    → (partition_entries reported m).disabled ≡ []
    → is_empty (partition_entries reported m).skipped ≡ all is_bare m
unfolding partition_entries place all
skipped-is_empty reported [] inc dis = refl
skipped-is_empty reported ((p, e) ∷ m) inc dis = ground (arith, skipped-is_empty reported m)

module _ (offboard : Offboard) (hashing : Hashing) (key : offboard.CoseKey)
    (clock : Option Text → Option ℕ) where
  assemble-nothing :
      (store : Store) (pubkey device_id : Text) (seq : ℕ) (split : L1Split)
      → split.included ≡ []
      → split.disabled ≡ []
      → assemble offboard hashing key clock store
          (record { device_pubkey = pubkey; device_id = device_id; seq = seq })
          split
        ≡ (if is_empty split.skipped then err not_found else ok no_content)
  unfolding assemble build_l2s answer_l1
  assemble-nothing store pubkey device_id seq split inc dis = rw (inc, dis) (ground arith)

  -- When a request resolves to a tree and its report can be read and is assessed as converged
  -- against that tree, the tower answers that there is nothing to send, or, when every entity of
  -- the tree is enabled and without parts, that it is not found.
  pub l1-converged :
      {Value : Type 0} (from_value : Value → Option Tree) (s : Db) (store : Store)
      (req : L1Request Value) {pubkey : Text} {tree report : Tree}
      → l1_target offboard hashing s req ≡ ok (pubkey, tree)
      → reported_state from_value req ≡ some report
      → is_converged (assess_tree report tree) ≡ true
      → channel_target_l1 offboard hashing key clock from_value s store req
        ≡ (if all is_bare tree.entities then err not_found else ok no_content)
  unfolding channel_target_l1 partition_l1_components
  l1-converged from_value s store req {pubkey} {tree} {report} target reported converged =
      let sorted = l1_target-IsSorted hashing offboard s req target in
      let (inc, dis) = partition-converged report tree sorted converged in
      rw (target, reported)
        (assemble-nothing store pubkey req.device_id req.seq
            (partition_l1_components tree (some report)) inc dis
          ∙ ap (λ b. if b then err not_found else ok no_content)
              (skipped-is_empty (some report) tree.entities inc dis))
