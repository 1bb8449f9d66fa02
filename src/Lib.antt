-- ===== src/Lib.antt =====
-- sumo-provision: the towers that hold and sign the desired state of vehicles, the tower that knows
-- the devices, and the orchestrator that brings a vehicle to its target.
--
-- The parts and how they meet. A vehicle's state is a tree: components ("entities") by path, each
-- with content-hashed parts (crates/wire/src/lib.rs). The software tower (crates/software-tower)
-- stores contents, cuts component and vehicle releases, points channel targets at vehicle releases,
-- resolves a target to its desired tree, splits that tree against what a vehicle reports, and signs
-- a campaign for one device. The identity tower (crates/identity-tower) registers and enrolls
-- devices and mints their keystores. The orchestrator (crates/orchestrator/src/lib.rs) reads the
-- vehicle's tree, asks the identity tower for the device key and the software tower for the
-- campaign, both through crates/client/src/lib.rs, fans the campaign out into components, makes a
-- job for each, groups the jobs into steps, and hands the steps to the flash engine.
--
-- The files.
--   Base, Map      numbers, texts, orders, lists, results, a state and error monad, str::trim;
--                  BTreeMap and BTreeSet as sorted lists. A text is the list of its bytes.
--   Wire/Hash      ContentHash: to_prefixed, from_str (crates/wire/src/lib.rs, as are the next five)
--   Wire/Model     ArtifactRef, Part, UpdateMode, Entity, Tree
--   Wire/Roster    Device, RegisterDevice, EnrollResponse, TrustBundle
--   Wire/Diff      diff, diff_parts, TreeDiff::is_empty
--   Wire/Assess    assess_tree, ConvergenceAssessment::is_converged
--   Wire/Plan      flash_plan, FlashPlan::ships, reused, is_noop; Wire/Slots has their maps by part id
--   Releases       crates/software-tower/src/releases.rs
--     Tables       the rows of crates/software-tower/migrations, the requests and the answers
--     Identity     component_identity, vehicle_identity, tree_hash, each with the text it hashes
--     Publish      create_component_release, create_vehicle_release
--     Resolve      resolve_target and what it calls
--     Channel      set_channel_target, channel_target_tree, get_channel_target
--     Partition    entity_agreed, target_label, partition_l1_components
--     L1           channel_target_l1
--     History      list_component_releases, list_vehicle_releases, list_channels
--   Signer         crates/software-tower/src/signer.rs; Signer/Opens is what the SUIT library
--                  documents of the manifests that it builds and decodes
--   Content        publish_stream and get_blob of crates/software-tower/src/content.rs, commit and
--                  put of store.rs, artifact_exists of releases.rs; Content/Files has FsBlobStore
--                  and FsBlobSink of store.rs, Content/Index has PgIndex
--   Server         the answers of AppError in crates/software-tower/src/content.rs
--   Client         crates/client/src/lib.rs: Client/Software, Client/Identity
--   Identity       crates/identity-tower/src: Identity/Keys (cose_to_sec1 and sec1_to_cose of
--                  keystore.rs), Identity/Roster (devices.rs and the tables of migrations),
--                  Identity/Keystore (assemble_keystore, mint_keystore, mint_keystore_endpoint),
--                  Identity/Authority (Ca of ca.rs, mint_delegate_cert and ca_cert of devices.rs);
--                  Identity/Authority/Crates is what these call of the X.509 and P-256 crates
--   Orchestrator   crates/orchestrator/src/lib.rs
--     Model        its errors and data
--     Fanout       fanout_l1
--     Jobs         component_unchanged, l1_jobs
--     Campaign     l1_selector, l1_flash_plan, campaign_execute
--     Token        RigToken::token
--     Preview      is_unresolved, parse_admin_disabled, installed_files_to_parts, apply_plan,
--                  ApplyPlan::missing and is_noop, ChannelTarget::label; Preview/Bytes has the
--                  two functions ship_bytes
--     Rig          connect_sovd, read_rig_state and what it reads
--     Vendor       node_update_state, fetch_rig_id, and the calls of RigToken::token
--     Bundle       flash_bundle
--     Flash        flash_execute, flash_keystore; Flash/Verdict has flash_reset, flash_commit,
--                  flash_rollback and their forms for a step and for the node
--     Remote       device_pubkey and fetch_ciphertext, and the services of a campaign over the clients
--   Cli            crates/cli/src/main.rs: rig_token, campaign_has_work, the campaign command
--     Size, Show   human_size and the functions print_*, as the text that they write
--     Preview      the steps that the campaign command announces, print_campaign
--     Terminal     files, standard output and rig, which the commands act on
--     Hub, Ca, Rig run_hub with ping, run_ca, run_rig
--     Vhsm         crates/cli/src/vhsm.rs; Vhsm/Cwt has mint_cwt
--   Delivery       from the campaign that the tower signs to the jobs that the orchestrator makes
--   Tests          concrete parameters, sample trees, and runs of the definitions
--
-- State. The database is a record of tables, each the list of its rows in the order of insertion,
-- or a map by the primary key; a handler is a function from the database to its answer and the
-- database it leaves, an error included, so that what ran before a failing statement stays.
-- Statements run one after the other; concurrent requests are not modelled. Primary keys, unique
-- indexes and references are tested where the migrations declare them. The token cache is the state
-- of `token`, which runs under its lock. The locals of `publish_stream` are a record that its loop
-- hands on. The files of the blob store are a map by name beside the files that are open, and the
-- calls of several sinks are steps in any order.
--
-- Bounds and fuel. Every loop is a recursion on the list that it goes through. `to_string` of a
-- number takes one more unit of fuel than the number, which has at most as many digits. `scale_up`
-- takes five rounds, one for each unit. The size of an artifact and the counter of temporary names
-- wrap at 2 ^ 64, as do the sums of ship_bytes. Row ids are not bounded.
--
-- Parameters. SHA-256 and hex (`Hashing`, `Hex`: what is encoded is decoded, a digest has 32
-- bytes), zstd and AES-GCM (`Zstd`, `Cipher`), the SUIT library (`Offboard` builds, `Suit`
-- decodes), COSE (`Cose`), X.509 and P-256 (`X509`) and the authority as the roster calls it
-- (`Ca`), the roles and constants of the HSM (`Hsm`), what builds the manifest of a keystore
-- (`KeystoreSuit`), HTTP (`send`) and JSON (`Json`), the clock, the order of texts in the database
-- (`collates`), the SOVD client (`Sovd`), the flash engine (`FlashEngine`), the rig, the towers and
-- the engine as a campaign calls them (`Services`), the device and the minter (`Answers`), CBOR and
-- COSE of a CWT (`Cwt`), floats (`tenths`).
--
-- Not modelled: generating, loading and saving an authority; the parsing of arguments by clap, what
-- goes to the standard error, and what the campaign command prints beside its steps; start-up and
-- routing of the servers; log messages; errors of the database and of the content store's files.
pub mod Base
pub mod Map
pub mod Wire
pub mod Releases
pub mod Signer
pub mod Content
pub mod Client
pub mod Identity
pub mod Server
pub mod Orchestrator
pub mod Delivery
pub mod Cli
mod Tests
