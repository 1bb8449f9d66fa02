-- ===== src/Orchestrator/Preview/Bytes.antt =====
-- The bytes that a preview counts: `ship_bytes` of `ComponentApply` and of `ApplyPlan` in
-- crates/orchestrator/src/lib.rs. A sum of u64 wraps.
use sumo_provision.Base.{
  ℕ, ◌+◌, ◌%◌, ◌<◌, ◌≡◌, refl, ap, arith, none, some, List, [], ◌∷◌, ◌++◌, map, flat_map, foldl,
}
use sumo_provision.Content.{u64}
use sumo_provision.Orchestrator.Preview.{ShipPart, ComponentApply, ApplyPlan}

-- `filter_map(|s| s.blob.as_ref().map(|b| b.size))`
unfoldable pub blob_sizes : List ShipPart → List ℕ
blob_sizes [] = []
blob_sizes (s ∷ ship) =
    let rest = blob_sizes ship in elim s.blob [ none ↦ rest | some b ↦ b.size ∷ rest ]

abbrev pub add_u64 : ℕ → ℕ → ℕ
add_u64 acc n = (acc + n) % u64

unfoldable pub component_ship_bytes : ComponentApply → ℕ
unfolding blob_sizes
component_ship_bytes c = foldl add_u64 0 (blob_sizes c.ship)

unfoldable pub plan_ship_bytes : ApplyPlan → ℕ
unfolding blob_sizes flat_map
plan_ship_bytes plan =
    foldl add_u64 0 (blob_sizes (flat_map (λ (c : ComponentApply). c.ship) plan.components))

abbrev total : List ℕ → ℕ
total [] = 0
total (n ∷ ns) = n + total ns

total-append : (xs ys : List ℕ) → total (xs ++ ys) ≡ total xs + total ys
total-append [] ys = omega arith
total-append (x ∷ xs) ys = omega (arith, total-append xs ys)

-- A sum that wraps is the sum, wrapped.
foldl-total : (acc : ℕ) (ns : List ℕ) → acc < u64 → foldl add_u64 acc ns ≡ (acc + total ns) % u64
foldl-total acc [] h = omega arith
foldl-total acc (n ∷ ns) h = omega (arith, foldl-total ((acc + n) % u64) ns (omega arith))

pub blob_sizes-append :
    (xs ys : List ShipPart) → blob_sizes (xs ++ ys) ≡ blob_sizes xs ++ blob_sizes ys
unfolding blob_sizes
blob_sizes-append [] ys = refl
blob_sizes-append (s ∷ xs) ys = ground (arith, blob_sizes-append xs ys)

totals :
    (cs : List ComponentApply)
    → total (blob_sizes (flat_map (λ (c : ComponentApply). c.ship) cs)) % u64
      ≡ total (map component_ship_bytes cs) % u64
unfolding flat_map component_ship_bytes blob_sizes
totals [] = refl
totals (c ∷ cs) = omega (
  arith,
  ap total (blob_sizes-append c.ship (flat_map (λ (c : ComponentApply). c.ship) cs)),
  total-append (blob_sizes c.ship) (blob_sizes (flat_map (λ (c : ComponentApply). c.ship) cs)),
  foldl-total 0 (blob_sizes c.ship) (omega arith),
  totals cs,
)

-- The bytes of a plan are below 2 ^ 64, and they are the sum of the bytes of its components, which
-- wraps where that sum does.
pub plan_ship_bytes-sum :
    (plan : ApplyPlan)
    → (plan_ship_bytes plan < u64)
      × (plan_ship_bytes plan ≡ foldl add_u64 0 (map component_ship_bytes plan.components))
unfolding plan_ship_bytes
plan_ship_bytes-sum plan =
    let sizes = blob_sizes (flat_map (λ (c : ComponentApply). c.ship) plan.components) in
    let direct = foldl-total 0 sizes (omega arith) in
    let parts = foldl-total 0 (map component_ship_bytes plan.components) (omega arith) in
    (omega (arith, direct), omega (arith, direct, parts, totals plan.components))
