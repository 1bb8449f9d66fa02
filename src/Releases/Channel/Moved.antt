-- ===== src/Releases/Channel/Moved.antt =====
-- What a channel resolves to after its target was set.
use sumo_provision.Base.{
  ℕ, ◌≡◌, refl, ◌∙◌, true, none, some, List, [], ◌∷◌, arith, Text, Text_ord, Text_eq, text_eq_iff,
  ℕ_eq, eq_self, any, any-append, nat_eq_iff, Result, ok, err,
}
use sumo_provision.Wire.Hash.{Hashing}
use sumo_provision.Wire.Model.{Tree}
use sumo_provision.Releases.Tables.{
  AppError, Db, ServedRow, SetChannelTarget, ChannelTargetRef, TargetSelector,
}
use sumo_provision.Releases.Identity.{tree_hash}
use sumo_provision.Releases.Resolve.{
  serves, channel_target_vehicle, release_matches_target, resolve_members_to_tree,
  resolve_channel_target, resolve_target,
}
use sumo_provision.Releases.Channel.Rows.{upsert_self}
use sumo_provision.Releases.Channel.{
  serve, is_release, target_row, target_ref, moved_db, set_channel_target,
}
use sumo_provision.Releases.Channel.Reads.{resolve-frame}

served_serve :
    (id : ℕ) (d a : Text) (rows : List ServedRow) → any (serves id d a) (serve id d a rows) ≡ true
unfolding serve
served_serve id d a rows = ground (
  arith,
  any-append (serves id d a) rows
      (record { vehicle_release_id = id; device = d; architecture = a } ∷ []),
  nat_eq_iff id id,
  text_eq_iff d d,
  text_eq_iff a a,
)

-- The selectors of a plan: by channel, or pinned to a release, both bound to a tree hash.
abbrev pub by_channel : SetChannelTarget → Text → TargetSelector
by_channel req th = record {
  channel = some req.channel;
  device = some req.device;
  architecture = some req.architecture;
  vehicle_release_id = none;
  tree_hash = some th;
}

abbrev pub pinned : SetChannelTarget → Text → TargetSelector
pinned req th = record {
  channel = none;
  device = some req.device;
  architecture = some req.architecture;
  vehicle_release_id = some req.vehicle_release_id;
  tree_hash = some th;
}

module _ (hashing : Hashing) where
  module _ (req : SetChannelTarget) (s : Db) where
    -- What a successful call found.
    succeeded :
        {ref : ChannelTargetRef}
        → (set_channel_target hashing req s).0 ≡ ok ref
        → (tree : Tree) × (resolve_members_to_tree hashing s req.vehicle_release_id ≡ ok tree)
          × (is_release req.vehicle_release_id s ≡ true)
          × (ref ≡ target_ref hashing req tree)
    unfolding set_channel_target
    succeeded {ref} h = at (resolve_members_to_tree hashing s req.vehicle_release_id) refl
      where
        at :
            (r : Result AppError Tree)
            → resolve_members_to_tree hashing s req.vehicle_release_id ≡ r
            → (tree : Tree) × (resolve_members_to_tree hashing s req.vehicle_release_id ≡ ok tree)
              × (is_release req.vehicle_release_id s ≡ true)
              × (ref ≡ target_ref hashing req tree)
        at (err e) q = absurd (ground (arith, h, q))
        at (ok tree) q = (tree, q, ground (arith, h, q), ground (arith, h, q))

    module _ (tree : Tree) (q : resolve_members_to_tree hashing s req.vehicle_release_id ≡ ok tree)
        (known : is_release req.vehicle_release_id s ≡ true) where
      pub committed :
          set_channel_target hashing req s
          ≡ (ok (target_ref hashing req tree), moved_db hashing req tree s)
      unfolding set_channel_target
      committed = ground (arith, q, known)

      resolves_again :
          resolve_members_to_tree hashing (moved_db hashing req tree s) req.vehicle_release_id
          ≡ ok tree
      unfolding moved_db
      resolves_again =
          resolve-frame hashing (moved_db hashing req tree s) s req.vehicle_release_id refl refl
            refl
          ∙ q

      points :
          channel_target_vehicle
            (moved_db hashing req tree s)
            req.channel
            (some req.device)
            (some req.architecture)
          ≡ some req.vehicle_release_id
      unfolding moved_db channel_target_vehicle
      points = upsert_self (target_row hashing req tree s.now) s.channels

      by_channel_again :
          resolve_target hashing
            (moved_db hashing req tree s)
            (by_channel req (tree_hash hashing tree))
          ≡ ok (some tree)
      unfolding resolve_target resolve_channel_target
      by_channel_again = ground (arith, points, resolves_again, eq_self (tree_hash hashing tree))

      pinned_again :
          resolve_target hashing (moved_db hashing req tree s) (pinned req (tree_hash hashing tree))
          ≡ ok (some tree)
      unfolding resolve_target moved_db
      pinned_again = ground (arith, known, resolves_again, eq_self (tree_hash hashing tree))

      -- the target is served from now on
      served_again :
          release_matches_target
            (moved_db hashing req tree s)
            req.vehicle_release_id
            req.device
            req.architecture
          ≡ true
      unfolding moved_db release_matches_target
      served_again = served_serve req.vehicle_release_id req.device req.architecture s.served

  -- After a successful call the channel target and the pinned release resolve, under the returned
  -- tree hash, to the tree that was resolved when the target was set, and the release counts as
  -- served to the device and architecture.
  pub set-resolves :
      (req : SetChannelTarget) (s : Db) (ref : ChannelTargetRef)
      → (set_channel_target hashing req s).0 ≡ ok ref
      → (tree : Tree) × (resolve_members_to_tree hashing s req.vehicle_release_id ≡ ok tree)
        × (resolve_target hashing
              (set_channel_target hashing req s).1
              (by_channel req ref.tree_hash)
            ≡ ok (some tree))
        × (resolve_target hashing (set_channel_target hashing req s).1 (pinned req ref.tree_hash)
            ≡ ok (some tree))
        × (release_matches_target
              (set_channel_target hashing req s).1
              req.vehicle_release_id
              req.device
              req.architecture
            ≡ true)
  set-resolves req s ref h =
      let (tree, q, known, same) = succeeded req s h in
      rw (committed req s tree q known, same)
        (
          tree,
          q,
          by_channel_again req s tree q known,
          pinned_again req s tree q known,
          served_again req s tree q known,
        )
