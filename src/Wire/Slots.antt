-- ===== src/Wire/Slots.antt =====
-- The two maps by which crates/wire/src/lib.rs looks a part slot up: of parts in `diff_parts`, and
-- of contents in `flash_plan`.
use mathlib.Core.Option
use sumo_provision.Base.{
  ◌≡◌, refl, ◌⊎◌, inl, inr, true, some, ◌==◌, Text_eq, text_eq_iff, any, List, [], ◌∷◌, map, foldl,
  arith, Text, Text_ord,
}
use sumo_provision.Map.{Map, get, insert, insert_entry, from_list, get-insert}
use sumo_provision.Wire.Model.{ContentHash, Part}

-- `iter().map(|p| (p.id, p)).collect()`: of two parts with one id the later one stays
abbrev pub by_id : List Part → Map Text Part
by_id ps = from_list (map (λ p. (p.id, p)) ps)

-- `iter().map(|p| (p.id, p.content)).collect()`
abbrev pub contents : List Part → Map Text ContentHash
contents ps = from_list (map (λ p. (p.id, p.content)) ps)

foldl-contents :
    (ps : List Part) (m : Map Text ContentHash) (n : Map Text Part) (k : Text)
    → ((j : Text) → get j m ≡ Option.map (λ p. p.content) (get j n))
    → get k (foldl insert_entry m (map (λ p. (p.id, p.content)) ps))
      ≡ Option.map (λ p. p.content) (get k (foldl insert_entry n (map (λ p. (p.id, p)) ps)))
foldl-contents [] m n k h = h k
foldl-contents (p ∷ ps) m n k h =
    foldl-contents ps (insert p.id p.content m) (insert p.id p n) k
      (λ j. ground (arith, get-insert p.id j p.content m, get-insert p.id j p n, h j))

-- Both maps are collected from the same list, so they agree at every slot.
pub get-contents :
    (k : Text) (ps : List Part)
    → get k (contents ps) ≡ Option.map (λ p. p.content) (get k (by_id ps))
unfolding from_list get
get-contents k ps = foldl-contents ps [] [] k (λ j. refl)

foldl-content_mem :
    (ps : List Part) (m : Map Text ContentHash) (k : Text) (c : ContentHash)
    → get k (foldl insert_entry m (map (λ p. (p.id, p.content)) ps)) ≡ some c
    → (get k m ≡ some c) ⊎ (any (λ (p : Part). p.content == c) ps ≡ true)
unfolding any
foldl-content_mem [] m k c h = inl h
foldl-content_mem (p ∷ ps) m k c h = elim (foldl-content_mem ps (insert p.id p.content m) k c h) [
  | inl old ↦ ground (arith, get-insert p.id k p.content m, text_eq_iff p.content c)
  | inr later ↦ inr (ground arith)
]

-- What a slot holds is the content of one of the parts.
pub content_mem :
    (ps : List Part) (k : Text) (c : ContentHash)
    → get k (contents ps) ≡ some c
    → any (λ (p : Part). p.content == c) ps ≡ true
unfolding from_list get
content_mem ps k c h = elim (foldl-content_mem ps [] k c h) [ inl old ↦ cc | inr mem ↦ mem ]
