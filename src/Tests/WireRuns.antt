-- ===== src/Tests/WireRuns.antt =====
-- The comparisons of two trees, and content hashes as text, on concrete inputs.
use sumo_provision.Base.{◌≡◌, refl, true, false, Text, Text_ord, text, text_lt, map, ◌↔◌, filter}
use sumo_provision.Map.{IsSorted, has}
use sumo_provision.Wire.Diff.{diff, diff_is_empty}
use sumo_provision.Wire.Diff.InSync.{InSync, diff-InSync}
use sumo_provision.Wire.Plan.{flash_plan, ships}
use sumo_provision.Wire.Plan.Ships.{planned_at, changed_at, needs_content, ships-diff}
use sumo_provision.Wire.Assess.{assess_tree, is_converged}
use sumo_provision.Wire.Assess.Members.{needs_update, has-assess_tree}
use sumo_provision.Wire.Assess.Outcome.{assess-converged_iff}
use sumo_provision.Tests.Samples.{rig, goal}

pub rig-IsSorted : IsSorted rig.entities
unfolding text_lt
rig-IsSorted = ((refl, tt), (tt, tt))

pub goal-IsSorted : IsSorted goal.entities
unfolding text_lt
goal-IsSorted = ((refl, (refl, tt)), ((refl, tt), (tt, tt)))

diff-InSync_example : (diff_is_empty (diff rig goal) ≡ true) ↔ InSync rig goal
diff-InSync_example = diff-InSync rig goal rig-IsSorted goal-IsSorted

ships-diff_example :
    map planned_at (ships (flash_plan rig goal))
    ≡ map changed_at (filter needs_content (diff rig goal).parts)
ships-diff_example = ships-diff rig goal

has-assess_tree_example :
    has (text "rt") (assess_tree rig goal).components ≡ needs_update rig goal (text "rt")
has-assess_tree_example = has-assess_tree rig goal goal-IsSorted (text "rt")

assess-converged_iff_example :
    (is_converged (assess_tree rig goal) ≡ true) ↔ ((id : Text) → needs_update rig goal id ≡ false)
assess-converged_iff_example = assess-converged_iff rig goal goal-IsSorted
