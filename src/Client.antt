-- ===== src/Client.antt =====
-- crates/client/src/lib.rs. The HTTP library and serde_json are parameters: `send` is a request with
-- the answer that it gets, and a body that is sent as JSON stays the value that it is read from.
pub mod Software
pub mod Identity
use sumo_provision.Base.{
  ℕ, Bool, true, false, ◌&&◌, Option, none, some, List, [], ◌∷◌, ◌++◌, Text, text, text_eq, nat_eq,
  leb, if◌then◌else◌, Result, ok, err, ◌>>=◌, ok_or, trim,
}
use sumo_provision.Wire.Model.{ArtifactRef, Tree}
use sumo_provision.Wire.Roster.{Device, RegisterDevice, EnrollResponse, TrustBundle}
use sumo_provision.Signer.{NewEnvelope}
use sumo_provision.Releases.L1.{L1Request}

pub data ClientError : Type 0 where
  http : ClientError

-- `MintReq`
pub record MintReq : Type 0 where
  pub device_id : Text
  pub components : List Text
  pub boot_id : Option Text
  pub ttl_secs : Option ℕ

-- what is sent along: bytes, or one of the JSON bodies
pub data Body (Value : Type 0) : Type 0 where
  nothing : Body Value
  bytes : Text → Body Value
  envelope_req : NewEnvelope → Body Value
  l1_req : L1Request Value → Body Value
  register_req : RegisterDevice → Body Value
  mint_keystore_req : Text → Body Value
  mint_req : MintReq → Body Value

pub data Method : Type 0 where
  get_method post_method : Method

pub record Request (Value : Type 0) : Type 0 where
  pub method : Method
  pub url : Text
  pub query : List (Text × Text)
  pub bearer : Option Text
  pub body : Body Value

pub record Response : Type 0 where
  pub status : ℕ
  pub content : Text

-- `Version`, `MintedToken`
pub record Version : Type 0 where
  pub service : Text
  pub version : Text

pub record MintedToken : Type 0 where
  pub token : Text
  pub expires_at : Text

-- the readers of JSON
pub record Json : Type 0 where
  pub version : Text → Option Version
  pub artifact_ref : Text → Option ArtifactRef
  pub tree : Text → Option Tree
  pub device : Text → Option Device
  pub devices : Text → Option (List Device)
  pub enroll_response : Text → Option EnrollResponse
  pub trust_bundle : Text → Option TrustBundle
  pub minted_token : Text → Option MintedToken

-- `trim_end_matches('/')`
unfoldable pub trim_end_slashes : Text → Text
unfolding text_eq
trim_end_slashes [] = []
trim_end_slashes (c ∷ s) =
    let rest = trim_end_slashes s in if text_eq rest [] && nat_eq c 47 then [] else c ∷ rest

-- `error_for_status`
unfoldable pub error_for_status : Response → Result ClientError Response
error_for_status r = if leb 400 r.status && leb r.status 599 then err http else ok r

-- a 404 is no answer
unfoldable pub not_found_as_none : Response → Result ClientError (Option Text)
unfolding error_for_status
not_found_as_none r =
    if nat_eq r.status 404
    then ok none
    else (error_for_status r >>= λ answer. ok (some answer.content))

-- `resp.json()`
abbrev pub json_of : {A : Type 0} → (Text → Option A) → Text → Result ClientError A
json_of read content = ok_or (read content) http

-- `Ok(Some(resp.json()?))`, where there is an answer
unfoldable pub optional_json :
    {A : Type 0} → (Text → Option A) → Option Text → Result ClientError (Option A)
optional_json read none = ok none
optional_json read (some content) = do a ← json_of read content; ok (some a)

module _ {Value : Type 0} where
  abbrev pub get_request : Text → List (Text × Text) → Request Value
  get_request url query = record {
    method = get_method;
    url = url;
    query = query;
    bearer = none;
    body = nothing;
  }

  abbrev pub post_request : Text → Body Value → Request Value
  post_request url body = record {
    method = post_method;
    url = url;
    query = [];
    bearer = none;
    body = body;
  }

  module _ (send : Request Value → Result ClientError Response) where
    -- `send()?.error_for_status()?.bytes()?`
    unfoldable pub fetch_bytes : Request Value → Result ClientError Text
    unfolding error_for_status
    fetch_bytes request = do resp ← send request; answer ← error_for_status resp; ok answer.content

    unfoldable pub fetch_json :
        {A : Type 0} → (Text → Option A) → Request Value → Result ClientError A
    unfolding fetch_bytes
    fetch_json read request = do content ← fetch_bytes request; json_of read content

    unfoldable pub fetch_optional : Request Value → Result ClientError (Option Text)
    unfolding not_found_as_none
    fetch_optional request = do resp ← send request; not_found_as_none resp

    unfoldable pub fetch_optional_json :
        {A : Type 0} → (Text → Option A) → Request Value → Result ClientError (Option A)
    unfolding fetch_optional optional_json
    fetch_optional_json read request = do
      content ← fetch_optional request
      optional_json read content

    -- `TowerClient::healthy`, `TowerClient::version`
    unfoldable pub healthy : Text → Result ClientError Bool
    unfolding fetch_bytes trim text_eq
    healthy base = do
      body ← fetch_bytes (get_request (base ++ text "/healthz") [])
      ok (text_eq (trim body) (text "ok"))

    unfoldable pub tower_version : Json → Text → Result ClientError Version
    unfolding fetch_json
    tower_version json base = fetch_json json.version (get_request (base ++ text "/version") [])
