-- ===== src/Releases/Channel/Reads.antt =====
-- Resolving a release reads only the tables of components, parts and members.
use sumo_provision.Base.{ℕ, ◌≡◌, refl, ap, List, [], ◌∷◌, Text_ord, Text_eq, ℕ_eq, ◌>>=◌}
use mathlib.Core.Path.{fun_ext}
use sumo_provision.Map.{insert}
use sumo_provision.Wire.Hash.{Hashing}
use sumo_provision.Wire.Model.{Tree, empty_tree}
use sumo_provision.Releases.Tables.{Db, MemberRow}
use sumo_provision.Releases.Resolve.{read_member, read_members, resolve_members_to_tree}

module _ (hashing : Hashing) where
  read_member-frame :
      (s s' : Db) (m : MemberRow)
      → s.components ≡ s'.components
      → s.component_parts ≡ s'.component_parts
      → read_member hashing s m ≡ read_member hashing s' m
  unfolding read_member
  read_member-frame s s' m p q = rw (p, q)

  read_members-frame :
      (s s' : Db) (tree : Tree) (ms : List MemberRow)
      → s.components ≡ s'.components
      → s.component_parts ≡ s'.component_parts
      → read_members hashing s tree ms ≡ read_members hashing s' tree ms
  unfolding read_members
  read_members-frame s s' tree [] p q = refl
  read_members-frame s s' tree (m ∷ ms) p q = rw (read_member-frame s s' m p q) (
      ap (λ k. read_member hashing s' m >>= k)
        (fun_ext
          λ e. read_members-frame s s' (record { entities = insert e.0 e.1 tree.entities }) ms p q))

  pub resolve-frame :
      (s s' : Db) (id : ℕ)
      → s.components ≡ s'.components
      → s.component_parts ≡ s'.component_parts
      → s.members ≡ s'.members
      → resolve_members_to_tree hashing s id ≡ resolve_members_to_tree hashing s' id
  unfolding resolve_members_to_tree
  resolve-frame s s' id p q r = rw r (read_members-frame s s' empty_tree _ p q)
