-- ===== src/Client/Identity.antt =====
-- `IdentityClient` and `MinterClient` of crates/client/src/lib.rs, for a server at `base`.
use sumo_provision.Base.{ℕ, Option, some, List, [], ◌++◌, Text, text, Result}
use sumo_provision.Wire.Roster.{Device, RegisterDevice, EnrollResponse, TrustBundle}
use sumo_provision.Client.{
  ClientError, MintedToken, bytes, register_req, mint_keystore_req, mint_req, Request, Response,
  Json, get_request, post_request, fetch_bytes, fetch_json, fetch_optional_json,
}

module _ {Value : Type 0} (send : Request Value → Result ClientError Response) (json : Json)
    (base : Text) where
  unfoldable pub register_device : RegisterDevice → Result ClientError Device
  unfolding fetch_json
  register_device req =
      fetch_json send json.device (post_request (base ++ text "/admin/devices") (register_req req))

  unfoldable pub list_devices : Result ClientError (List Device)
  unfolding fetch_json
  list_devices = fetch_json send json.devices (get_request (base ++ text "/devices") [])

  unfoldable pub get_device : Text → Result ClientError (Option Device)
  unfolding fetch_optional_json
  get_device id =
      fetch_optional_json send json.device (get_request (base ++ text "/devices/" ++ id) [])

  unfoldable pub enroll : Text → Text → Text → Result ClientError EnrollResponse
  unfolding fetch_json
  enroll id key_id csr_der = fetch_json send json.enroll_response (
      post_request (base ++ text "/admin/devices/" ++ id ++ text "/enroll?key_id=" ++ key_id)
        (bytes csr_der))

  unfoldable pub mint_keystore : Text → Text → Result ClientError Text
  unfolding fetch_bytes
  mint_keystore id sw_authority_pubkey = fetch_bytes send (
      post_request (base ++ text "/admin/devices/" ++ id ++ text "/keystore")
        (mint_keystore_req sw_authority_pubkey))

  unfoldable pub ca_cert : Result ClientError Text
  unfolding fetch_bytes
  ca_cert = fetch_bytes send (get_request (base ++ text "/admin/ca/cert") [])

  unfoldable pub trust_bundle : Result ClientError TrustBundle
  unfolding fetch_json
  trust_bundle =
      fetch_json send json.trust_bundle (get_request (base ++ text "/admin/ca/trust-bundle") [])

  unfoldable pub mint :
      Text → Text → List Text → Option Text → Option ℕ → Result ClientError MintedToken
  unfolding fetch_json
  mint operator_token device_id components boot_id ttl_secs =
      fetch_json send json.minted_token
        (record (post_request (base ++ text "/mint") (
          mint_req (record {
            device_id = device_id;
            components = components;
            boot_id = boot_id;
            ttl_secs = ttl_secs;
          }))) { bearer = some operator_token })
