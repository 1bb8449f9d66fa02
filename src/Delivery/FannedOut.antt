-- ===== src/Delivery/FannedOut.antt =====
-- The whole campaign, fanned out and turned into jobs.
use sumo_provision.Base.{
  ℕ, ◌≡◌, refl, sym, ◌∙◌, ap, true, ◌&&◌, Option, none, List, [], ◌∷◌, ◌++◌, Text, Text_ord, arith,
  All, Result, ok, >>=-eq-ok, or_err, all, filter, is_empty, Bool-cases, inl, inr,
}
use mathlib.Core.List.{Memᴰ}
use mathlib.Core.Path.{subst}
use sumo_provision.Wire.Hash.{Hashing}
use sumo_provision.Wire.Model.{ContentHash, Tree}
use sumo_provision.Releases.Tables.{internal, Db}
use sumo_provision.Releases.Partition.{L1Split, partition_l1_components}
use sumo_provision.Content.{Store}
use sumo_provision.Content.Published.{IsStore}
use sumo_provision.Signer.{Offboard, signing_time, build_campaign}
use sumo_provision.Signer.Opens.{Opens, image_key}
use sumo_provision.Releases.L1.{
  L1Request, signed, Build, build_l2s, answer_l1, assemble, l1_target, reported_state,
  channel_target_l1,
}
use sumo_provision.Orchestrator.Model.{Error, L1Component}
use sumo_provision.Orchestrator.Fanout.{Suit, decode_components, fanout_l1}
use sumo_provision.Orchestrator.Jobs.{l1_jobs, selected}
use sumo_provision.Orchestrator.Jobs.Available.{is_ok, available, l1_jobs-ok}
use sumo_provision.Delivery.Decoded.{Fetches}
use sumo_provision.Delivery.Images.{or_err-ok, deliverable, Decodes, l2s-Decodes}

All-mem : {A : Type 0} (P : A → Type 0) (x : A) (xs : List A) → All P xs → Memᴰ x xs → P x
All-mem P x [] h m = elim m [ ]
All-mem P x (y ∷ xs) h (Memᴰ.head e) = subst P (sym e) h.0
All-mem P x (y ∷ xs) h (Memᴰ.tail m) = All-mem P x xs h.1 m

module _ (offboard : Offboard) (suit : Suit) (hashing : Hashing) (key : offboard.CoseKey)
    (clock : Option Text → Option ℕ) (store : Store) (fetch : ContentHash → Result Error Text) where
  abbrev DecodesOne : Text × Text → Type 0
  DecodesOne e = Decodes offboard suit hashing key clock store fetch e.1

  -- An image that was embedded.
  abbrev FromOne : List (Text × Text) → Text × Text → Type 0
  FromOne l2s image = (source : Text × Text) × Memᴰ source l2s × (image ≡ image_key source)

  components-ok :
      (l2s payloads : List (Text × Text))
      → All DecodesOne l2s
      → All (FromOne l2s) payloads
      → (cs : List L1Component) × (decode_components suit hashing.hex payloads ≡ ok cs)
        × (all (deliverable offboard suit hashing key clock store fetch) cs ≡ true)
  unfolding decode_components all
  components-ok l2s [] decodes from = ([], refl, refl)
  components-ok l2s ((k, bytes) ∷ payloads) decodes ((source, in_l2s, same), from) =
      let decoded =
        subst (Decodes offboard suit hashing key clock store fetch) (sym (ap (λ e. e.1) same))
          (All-mem DecodesOne source l2s decodes in_l2s) in
      let (c, e, d) = decoded k in
      let (cs, es, ds) = components-ok l2s payloads decodes from in
      (
        c ∷ cs,
        rw (e, es) refl,
        ap (λ b. b && all (deliverable offboard suit hashing key clock store fetch) cs) d ∙ ds,
      )

  deliverable-available :
      (cs : List L1Component) (observed : Tree) (only : Option (List Text))
      → all (deliverable offboard suit hashing key clock store fetch) cs ≡ true
      → all (available fetch observed) (filter (selected observed only) cs) ≡ true
  unfolding all filter
  deliverable-available [] observed only h = refl
  deliverable-available (c ∷ cs) observed only h =
      ground (arith, deliverable-available cs observed only)

  fanned_out :
      (l2s : List (Text × Text)) (seq : ℕ) (l1 : Text)
      → Opens offboard suit
      → All DecodesOne l2s
      → build_campaign offboard hashing.hex key (clock none) l2s seq ≡ ok l1
      → (cs : List L1Component) × (fanout_l1 suit hashing.hex l1 ≡ ok cs)
        × (all (deliverable offboard suit hashing key clock store fetch) cs ≡ true)
  unfolding build_campaign fanout_l1
  fanned_out l2s seq l1 opens decodes built =
      let (m, opened, from) = opens.images (signing_time (clock none)) seq l2s key l1 built in
      let (cs, e, d) = components-ok l2s (suit.integrated_payloads m) decodes from in
      (cs, rw (opened, e) refl, d)

  answer-signed :
      (skipped : List Text) (seq : ℕ) (l2s : List (Text × Text)) {l1 : Text}
      → answer_l1 offboard hashing key clock skipped seq l2s ≡ ok (signed l1)
      → build_campaign offboard hashing.hex key (clock none) l2s seq ≡ ok l1
  unfolding answer_l1
  answer-signed skipped seq l2s {l1} h = elim (Bool-cases (is_empty l2s)) [
    | inl nothing ↦ ground (arith, nothing)
    | inr some_l2 ↦
        let (body, e, k) =
          >>=-eq-ok (or_err (build_campaign offboard hashing.hex key (clock none) l2s seq) internal)
            (λ l1. ok (signed l1)) (rw some_l2 at h) in
        let same : body ≡ l1 = cc in or_err-ok _ internal (e ∙ ap (λ x. ok x) same)
  ]

  assemble-deliverable :
      (b : Build) (split : L1Split) (l1 : Text)
      → Opens offboard suit
      → IsStore hashing store
      → Fetches offboard suit hashing store fetch
      → assemble offboard hashing key clock store b split ≡ ok (signed l1)
      → (cs : List L1Component) × (fanout_l1 suit hashing.hex l1 ≡ ok cs)
        × (all (deliverable offboard suit hashing key clock store fetch) cs ≡ true)
  unfolding assemble
  assemble-deliverable b split l1 opens is fetches h =
      let (l2s, e, k) =
        >>=-eq-ok (build_l2s offboard hashing key clock store b (split.included ++ split.disabled))
          (λ l2s. answer_l1 offboard hashing key clock split.skipped b.seq l2s) h in
      fanned_out l2s b.seq l1 opens
        (l2s-Decodes offboard suit hashing key clock store fetch b
          (split.included ++ split.disabled) opens is fetches e)
        (answer-signed split.skipped b.seq l2s k)

  pub l1-delivered :
      {Value : Type 0} (from_value : Value → Option Tree) (s : Db) (req : L1Request Value)
      (l1 : Text)
      → Opens offboard suit
      → IsStore hashing store
      → Fetches offboard suit hashing store fetch
      → channel_target_l1 offboard hashing key clock from_value s store req ≡ ok (signed l1)
      → (observed : Tree) (only : Option (List Text))
      → (cs : List L1Component) × (fanout_l1 suit hashing.hex l1 ≡ ok cs)
        × (is_ok (l1_jobs fetch cs observed only) ≡ true)
  unfolding channel_target_l1
  l1-delivered from_value s req l1 opens is fetches h observed only =
      let ((pubkey, tree), e, k) =
        >>=-eq-ok (l1_target offboard hashing s req)
          (λ target.
            assemble offboard hashing key clock store
              (record { device_pubkey = target.0; device_id = req.device_id; seq = req.seq })
              (partition_l1_components target.1 (reported_state from_value req)))
          h in
      let (cs, decoded, d) =
        assemble-deliverable
          (record { device_pubkey = pubkey; device_id = req.device_id; seq = req.seq })
          (partition_l1_components tree (reported_state from_value req)) l1 opens is fetches k in
      (cs, decoded, l1_jobs-ok fetch cs observed only ∙ deliverable-available cs observed only d)
