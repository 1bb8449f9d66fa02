-- ===== src/Cli/Ca.antt =====
-- `run_ca` of crates/cli/src/main.rs. Random bytes, the clock and the keys are parameters.
pub mod Bootstrap
use sumo_provision.Base.{
  Bool, true, false, ◌&&◌, not, Option, none, some, List, [], ◌∷◌, ◌++◌, map, flat_map, length,
  Text, text, text_eq, is_empty, trim, if◌then◌else◌, to_string, Result, ok, err, ℕ, nat_eq, or_err,
}
use sumo_provision.Base.Exec.{Exec, pure, lift, for_each, ◌>>=◌, ◌>>◌}
use sumo_provision.Wire.Hash.{Hex, Hashing}
use sumo_provision.Wire.Roster.{Device, EnrollResponse, TrustBundle}
use sumo_provision.Client.{ClientError, Request, Response, Json}
use sumo_provision.Client.Software.{signer_pubkey}
use sumo_provision.Client.Identity.{
  register_device, list_devices, get_device, enroll, mint_keystore, ca_cert, trust_bundle,
}
use sumo_provision.Cli.{CliError, not_found, bad_key}
use sumo_provision.Cli.Vhsm.{
  ValidityWindow, from_now, token_sha256_hex, bootstrap_yaml_fragment, bootstrap_yaml_document,
}
use sumo_provision.Cli.Vhsm.Cwt.{Cwt, CwtError, mint_cwt}
use sumo_provision.Cli.Show.{line, concat, pad, or_text, print_device}
use sumo_provision.Cli.Terminal.{
  Terminal, FileSystem, Command, read_file, read_to_string, write_file, write_out, print,
  from_client, or_fail,
}
use sumo_provision.Cli.Hub.{ping}

pub data CaCmd : Type 0 where
  ca_ping : CaCmd
  register : Text → Option Text → Option Text → CaCmd
  devices : CaCmd
  device : Text → CaCmd
  enroll_key : Text → Text → Text → Option Text → CaCmd
  keystore : Text → Text → Option Text → CaCmd
  root_cert : Option Text → CaCmd
  bundle : Text → CaCmd
  bootstrap_token : Text → Text → Option Text → Bool → CaCmd
  vhsm_cwt : Text → Text → Text → Text → ℕ → Text → CaCmd

-- `CoseKey` of the SUIT library, as a signing key and as a point; the clock; the random bytes that a
-- run draws
pub record Keys (SigningKey : Type 0) : Type 0 where
  pub signing_key : Text → Option SigningKey
  pub public_xy : Text → Option (Text × Text)
  pub now_unix : ℕ
  pub random_32 : Text
  pub random_16 : Text

-- `Path::join`: an absolute name replaces the directory
unfoldable pub under : Text → Text → Text
under [] name = name
under (c ∷ []) name = if nat_eq c b'/' then c ∷ name else c ∷ b'/' ∷ name
under (c ∷ d ∷ dir) name = c ∷ under (d ∷ dir) name

unfoldable pub join_path : Text → Text → Text
unfolding under
join_path dir [] = under dir []
join_path dir (c ∷ name) = if nat_eq c b'/' then c ∷ name else under dir (c ∷ name)

abbrev pub device_line : Device → Text
device_line d =
    line (pad 20 d.id ∷ text " " ∷ pad 14 (or_text (text "-") d.model) ∷ text " " ∷ d.status ∷ [])

-- the bytes that a chain of the libraries gives, or an error
abbrev pub or_bad_key : {S A : Type 0} → Option A → Command S A
or_bad_key none t = (err bad_key, t)
or_bad_key (some a) t = (ok a, t)

abbrev pub yaml_of : Bool → Text → Text → Text
yaml_of standalone vm_id sha =
    if standalone then bootstrap_yaml_document vm_id sha else bootstrap_yaml_fragment vm_id sha

module _ {S Value Integer SigningKey : Type 0} (send : Request Value → Result ClientError Response)
    (json : Json) (hashing : Hashing) (fs : FileSystem) (cwt : Cwt Integer SigningKey)
    (keys : Keys SigningKey) where
  -- the key of a device, if a file is given
  unfoldable pub read_pubkey : Option Text → Command S (Option Text)
  unfolding read_to_string trim
  read_pubkey none = pure none
  read_pubkey (some path) = do pubkey ← read_to_string fs path; pure (some (trim pubkey))

  -- a registration without a certificate leaves nothing to write
  unfoldable pub write_cert : Option Text → Option Text → Command S (Unit {0})
  unfolding write_out
  write_cert none out = pure tt
  write_cert (some pem) out = write_out fs out pem

  unfoldable pub write_anchor : Text → Text × Text → Command S (Unit {0})
  unfolding write_file join_path
  write_anchor out (name, pem) = write_file fs (join_path out (name ++ text "-root.pem")) pem

  unfoldable pub write_bootstrap : Text → Text → Option Text → Bool → Command S (Unit {0})
  unfolding write_file write_out token_sha256_hex bootstrap_yaml_document bootstrap_yaml_fragment
  write_bootstrap vm_id token_out state_out standalone = do
    write_file fs token_out keys.random_32
    write_out fs state_out (yaml_of standalone vm_id (token_sha256_hex hashing keys.random_32))

  unfoldable pub write_cwt : Text → Text → Text → Text → ℕ → Text → Command S (Unit {0})
  unfolding read_file write_file mint_cwt from_now
  write_cwt key_path vm_id issuer cnf_pub lifetime_secs output = do
    signer_bytes ← read_file key_path
    signer ← or_bad_key (keys.signing_key signer_bytes)
    cnf_bytes ← read_file cnf_pub
    point ← or_bad_key (keys.public_xy cnf_bytes)
    minted ← lift (
        or_err
          (mint_cwt cwt signer vm_id issuer point.0 point.1 (from_now keys.now_unix lifetime_secs)
            keys.random_16)
          bad_key)
    write_file fs output minted

  unfoldable pub run_ca : Text → CaCmd → Command S (Unit {0})
  unfolding ping read_pubkey register_device list_devices get_device enroll mint_keystore ca_cert
      trust_bundle signer_pubkey print_device write_cert write_out write_anchor write_bootstrap
      write_cwt read_file for_each flat_map is_empty concat pad
  run_ca url ca_ping = ping send json url
  run_ca url (register id model pubkey_file) = do
    pubkey ← read_pubkey pubkey_file
    dev ←
        from_client
          (register_device send json url (record { id = id; model = model; pubkey = pubkey }))
    print (print_device dev)
  run_ca url devices = do
    found ← from_client (list_devices send json url)
    print (
        if is_empty found
        then line (text "(no devices registered)" ∷ [])
        else flat_map device_line found)
  run_ca url (device id) = do
    found ← from_client (get_device send json url id)
    dev ← or_fail (not_found id) found
    print (print_device dev)
  run_ca url (enroll_key id key_id csr out) = do
    csr_der ← read_file csr
    resp ← from_client (enroll send json url id key_id csr_der)
    write_cert resp.certificate_pem out
  run_ca url (keystore id hub_url out) = do
    sw_pubkey ← from_client (signer_pubkey send json hashing.hex hub_url)
    suit ← from_client (mint_keystore send json url id (hashing.hex.encode sw_pubkey))
    write_out fs out suit
  run_ca url (root_cert out) = do pem ← from_client (ca_cert send json url); write_out fs out pem
  run_ca url (bundle out) = do
    found ← from_client (trust_bundle send json url)
    for_each (write_anchor out) found.anchors
  run_ca url (bootstrap_token vm_id token_out state_out standalone) =
      write_bootstrap vm_id token_out state_out standalone
  run_ca url (vhsm_cwt key_path vm_id issuer cnf_pub lifetime_secs output) =
      write_cwt key_path vm_id issuer cnf_pub lifetime_secs output
