-- ===== src/Releases/Channel/Frame.antt =====
-- What setting a channel target leaves as it was.
use sumo_provision.Base.{
  ℕ, ◌≡◌, refl, ap, false, ◌&&◌, some, arith, Text, Text_ord, Text_eq, ℕ_eq, ◌==◌, Result, ok, err,
  Bool-cases, inl, inr, ◌⊎◌,
}
use sumo_provision.Wire.Hash.{Hashing}
use sumo_provision.Wire.Model.{Tree}
use sumo_provision.Releases.Tables.{AppError, internal, Db, SetChannelTarget}
use sumo_provision.Releases.Resolve.{vehicle_of, channel_target_vehicle, resolve_members_to_tree}
use sumo_provision.Releases.Channel.Rows.{upsert_other}
use sumo_provision.Releases.Channel.{
  is_release, target_row, target_ref, moved_db, set_channel_target,
}
use sumo_provision.Releases.Channel.Reads.{resolve-frame}
use sumo_provision.Releases.Channel.Moved.{committed}

module _ (hashing : Hashing) where
  failed_or_moved :
      (req : SetChannelTarget) (s : Db)
      → ((e : AppError) × (set_channel_target hashing req s ≡ (err e, s)))
        ⊎ ((tree : Tree) × (set_channel_target hashing req s
              ≡ (ok (target_ref hashing req tree), moved_db hashing req tree s)))
  failed_or_moved req s = at (resolve_members_to_tree hashing s req.vehicle_release_id) refl
    where
      at :
          (r : Result AppError Tree)
          → resolve_members_to_tree hashing s req.vehicle_release_id ≡ r
          → ((e : AppError) × (set_channel_target hashing req s ≡ (err e, s)))
            ⊎ ((tree : Tree) × (set_channel_target hashing req s
                  ≡ (ok (target_ref hashing req tree), moved_db hashing req tree s)))
      at (err e) q = inl (e, unfold set_channel_target in ground (arith, q))
      at (ok tree) q = elim (Bool-cases (is_release req.vehicle_release_id s)) [
        | inl known ↦ inr (tree, committed hashing req s tree q known)
        | inr missing ↦ inl (internal, unfold set_channel_target in ground (arith, q, missing))
      ]

  -- Whatever a call that sets a channel target returns, any other target points where it pointed,
  -- every release resolves to what it resolved to, and a call that fails changes nothing.
  pub set-frame :
      (req : SetChannelTarget) (s : Db) (c d a : Text)
      → (req.channel == c && (req.device == d && req.architecture == a)) ≡ false
      → (channel_target_vehicle (set_channel_target hashing req s).1 c (some d) (some a)
          ≡ channel_target_vehicle s c (some d) (some a))
        × ((id : ℕ)
            → resolve_members_to_tree hashing (set_channel_target hashing req s).1 id
              ≡ resolve_members_to_tree hashing s id)
        × ((e : AppError)
            → (set_channel_target hashing req s).0 ≡ err e
            → (set_channel_target hashing req s).1 ≡ s)
  set-frame req s c d a h = elim (failed_or_moved req s) [
    | inl (e, failed) ↦ rw failed (refl, λ id. refl, λ e' _. refl)
    | inr (tree, done) ↦ rw done (
      unfold moved_db channel_target_vehicle in
          ap vehicle_of (upsert_other (target_row hashing req tree s.now) s.channels c d a h),
      λ id.
          unfold moved_db in
          resolve-frame hashing (moved_db hashing req tree s) s id refl refl refl,
      λ e' bad. cc,
    )
  ]
