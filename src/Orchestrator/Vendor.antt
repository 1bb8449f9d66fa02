-- ===== src/Orchestrator/Vendor.antt =====
-- The vendor resources of a rig that crates/orchestrator/src/lib.rs reads by plain HTTP:
-- `node_update_state`, `fetch_rig_id`, `fetch_rig_ecu_id` and `fetch_rig_boot_id`, and the calls that
-- `RigToken::token` makes. `fetch` is a GET with the answer that it gets, its body decoded to a text.
use sumo_provision.Base.{
  ℕ, Bool, ◌&&◌, Option, none, some, [], ◌∷◌, ◌++◌, Text, text, text_eq, nat_eq, leb, if◌then◌else◌,
  is_empty, trim, Result, ok, err, ◌>>=◌, ok_or, or_err,
}
use sumo_provision.Client.{
  ClientError, Request, Response, Json, MintedToken, trim_end_slashes, error_for_status,
}
use sumo_provision.Client.Identity.{mint}
use sumo_provision.Orchestrator.Model.{Error, node_state, NodeUpdateState}
use sumo_provision.Orchestrator.Token.{EngineError, unreachable, mint_failed, Answers}

-- `trim_matches('"')`
unfoldable pub trim_start_quotes : Text → Text
trim_start_quotes [] = []
trim_start_quotes (c ∷ s) = let rest = trim_start_quotes s in if nat_eq c b'"' then rest else c ∷ s

unfoldable pub trim_end_quotes : Text → Text
unfolding text_eq
trim_end_quotes [] = []
trim_end_quotes (c ∷ s) =
    let rest = trim_end_quotes s in if text_eq rest [] && nat_eq c b'"' then [] else c ∷ rest

unfoldable pub trim_quotes : Text → Text
unfolding trim_start_quotes trim_end_quotes
trim_quotes s = trim_end_quotes (trim_start_quotes s)

-- the state of a rig without the resource
abbrev pub idle : NodeUpdateState
idle = record { phase = text "Idle"; components = []; node_boot_id = none }

module _ (fetch : Text → Result ClientError Response) where
  -- the answer, once no route is left to ask
  unfoldable pub read_state :
      (Text → Option NodeUpdateState) → Response → Result Error NodeUpdateState
  unfolding error_for_status
  read_state parse resp =
      if nat_eq resp.status 404
      then ok idle
      else (or_err (error_for_status resp) node_state >>= λ answer.
          ok_or (parse answer.content) node_state)

  -- the legacy route is asked only after a 404
  unfoldable pub or_legacy : Text → Response → Result Error Response
  or_legacy base resp =
      if nat_eq resp.status 404
      then or_err (fetch (base ++ text "/vehicle/v1/data/x-ota-update-state")) node_state
      else ok resp

  unfoldable pub node_update_state :
      (Text → Option NodeUpdateState) → Text → Result Error NodeUpdateState
  unfolding read_state or_legacy trim_end_slashes
  node_update_state parse rig_url = do
    first ←
        or_err (fetch (trim_end_slashes rig_url ++ text "/vehicle/v1/data/x-update-state"))
          node_state
    resp ← or_legacy (trim_end_slashes rig_url) first
    read_state parse resp

  abbrev pub is_success : ℕ → Bool
  is_success status = leb 200 status && leb status 299

  abbrev pub id_in_body : Text → Text
  id_in_body body = trim_quotes (trim body)

  unfoldable pub fetch_rig_id : Text → Text → Result EngineError Text
  unfolding trim_end_slashes trim_quotes trim is_empty
  fetch_rig_id rig_url path = do
    resp ← or_err (fetch (trim_end_slashes rig_url ++ path)) unreachable
    if is_success resp.status
        then (if is_empty (id_in_body resp.content)
            then err unreachable
            else ok (id_in_body resp.content))
        else err unreachable

  unfoldable pub fetch_rig_ecu_id : Text → Result EngineError Text
  unfolding fetch_rig_id
  fetch_rig_ecu_id rig_url = fetch_rig_id rig_url (text "/vehicle/v1/components/hsm/x-ecu-id")

  unfoldable pub fetch_rig_boot_id : Text → Result EngineError Text
  unfolding fetch_rig_id
  fetch_rig_boot_id rig_url = fetch_rig_id rig_url (text "/vehicle/v1/status/x-boot-id")

  -- what a call of `token` asks of the rig and of the minter
  unfoldable pub rig_answers :
      {Value : Type 0}
      → (Request Value → Result ClientError Response)
      → Json
      → Text
      → Text
      → Text
      → Answers
  unfolding fetch_rig_boot_id fetch_rig_ecu_id mint
  rig_answers send json minter_url operator_token rig_url = record {
    boot_id = fetch_rig_boot_id rig_url;
    ecu_id = fetch_rig_ecu_id rig_url;
    mint_token = λ ecu_id boot_id ttl_secs.
        (or_err
            (mint send json minter_url operator_token ecu_id (text "*" ∷ []) (some boot_id)
              ttl_secs)
            mint_failed
          >>= λ (minted : MintedToken). ok minted.token);
  }
