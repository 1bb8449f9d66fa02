-- ===== src/Releases/Channel/Rows.antt =====
-- The rows of `channel_targets` after a target was set.
use sumo_provision.Base.{
  ◌≡◌, refl, Bool, true, false, none, some, List, [], ◌∷◌, ◌++◌, map, arith, Text, Text_eq,
  text_eq_iff, ℕ_eq, if◌then◌else◌, any, Bool-cases, inl, inr,
}
use sumo_provision.Releases.Tables.{ChannelRow}
use sumo_provision.Releases.Publish.{find}
use sumo_provision.Releases.Resolve.{vehicle_of, is_target}
use sumo_provision.Releases.Channel.{upsert, move_row}

-- a row that is moved stays at its target
move_row-target :
    (new r : ChannelRow) (c d a : Text) → is_target c d a (move_row new r) ≡ is_target c d a r
move_row-target new r c d a = ground arith

find_append :
    (p : ChannelRow → Bool) (r : ChannelRow) (rows : List ChannelRow)
    → any p rows ≡ false
    → find p (rows ++ r ∷ []) ≡ (if p r then some r else none)
unfolding find any
find_append p r [] h = refl
find_append p r (x ∷ rows) h = ground (arith, find_append p r rows)

find_moved :
    (new : ChannelRow) (rows : List ChannelRow)
    → any (is_target new.channel new.device new.architecture) rows ≡ true
    → vehicle_of
        (find (is_target new.channel new.device new.architecture) (map (move_row new) rows))
      ≡ some new.vehicle_release_id
unfolding find any
find_moved new [] h = cc
find_moved new (r ∷ rows) h = ground (arith, find_moved new rows)

-- The release that was written is what its own target selects.
pub upsert_self :
    (new : ChannelRow) (rows : List ChannelRow)
    → vehicle_of (find (is_target new.channel new.device new.architecture) (upsert new rows))
      ≡ some new.vehicle_release_id
unfolding upsert
upsert_self new rows =
    elim (Bool-cases (any (is_target new.channel new.device new.architecture) rows)) [
      | inl old ↦ rw old (find_moved new rows old)
      | inr fresh ↦
          rw (fresh, find_append _ new rows fresh)
            (ground (
              arith,
              text_eq_iff new.channel new.channel,
              text_eq_iff new.device new.device,
              text_eq_iff new.architecture new.architecture,
            ))
    ]

move_row_other :
    (new r : ChannelRow) (c d a : Text)
    → is_target c d a new ≡ false
    → is_target c d a r ≡ true
    → move_row new r ≡ r
move_row_other new r c d a h k = ground (
  arith,
  text_eq_iff new.channel c,
  text_eq_iff new.device d,
  text_eq_iff new.architecture a,
  text_eq_iff r.channel c,
  text_eq_iff r.device d,
  text_eq_iff r.architecture a,
  text_eq_iff r.channel new.channel,
  text_eq_iff r.device new.device,
  text_eq_iff r.architecture new.architecture,
)

find_unmoved :
    (new : ChannelRow) (rows : List ChannelRow) (c d a : Text)
    → is_target c d a new ≡ false
    → find (is_target c d a) (map (move_row new) rows) ≡ find (is_target c d a) rows
unfolding find
find_unmoved new [] c d a h = refl
find_unmoved new (r ∷ rows) c d a h = elim (Bool-cases (is_target c d a r)) [
  | inl here ↦ rw (move_row_other new r c d a h here, here)
  | inr there ↦ rw (move_row-target new r c d a, there) (find_unmoved new rows c d a h)
]

find_append_other :
    (p : ChannelRow → Bool) (r : ChannelRow) (rows : List ChannelRow)
    → p r ≡ false
    → find p (rows ++ r ∷ []) ≡ find p rows
unfolding find
find_append_other p r [] h = rw h
find_append_other p r (x ∷ rows) h = ground (arith, find_append_other p r rows)

-- Any other target selects the row that it selected before.
pub upsert_other :
    (new : ChannelRow) (rows : List ChannelRow) (c d a : Text)
    → is_target c d a new ≡ false
    → find (is_target c d a) (upsert new rows) ≡ find (is_target c d a) rows
unfolding upsert
upsert_other new rows c d a h =
    elim (Bool-cases (any (is_target new.channel new.device new.architecture) rows)) [
      | inl old ↦ rw old (find_unmoved new rows c d a h)
      | inr fresh ↦ rw fresh (find_append_other (is_target c d a) new rows h)
    ]
