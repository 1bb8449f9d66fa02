-- ===== src/Wire/Contents.antt =====
-- The contents of the parts of a component.
use sumo_provision.Base.{
  ◌≡◌, ◌↔◌, true, List, [], ◌∷◌, Any, any, arith, text_eq, text_eq_iff, Text_eq, ◌==◌, Bool-cases,
  inl, inr,
}
use sumo_provision.Wire.Model.{ContentHash, Part}

-- one of the parts has this content
abbrev pub HasContent : List Part → ContentHash → Type 0
HasContent parts c = Any (λ (q : Part). q.content ≡ c) parts

pub HasContent-iff :
    (parts : List Part) (c : ContentHash)
    → (any (λ (q : Part). q.content == c) parts ≡ true) ↔ HasContent parts c
unfolding any
HasContent-iff [] c = (λ h. cc, λ h. absurd h)
HasContent-iff (q ∷ parts) c = (
  λ h. elim (Bool-cases (text_eq q.content c)) [
    | inl here ↦ inl ((text_eq_iff q.content c).0 here)
    | inr other ↦ inr ((HasContent-iff parts c).0 (ground (arith, h, other)))
  ],
  λ h. elim h [
    | inl here ↦ ground (arith, (text_eq_iff q.content c).1 here)
    | inr later ↦ ground (arith, (HasContent-iff parts c).1 later)
  ],
)
