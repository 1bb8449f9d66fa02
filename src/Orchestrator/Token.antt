-- ===== src/Orchestrator/Token.antt =====
-- `RigToken` and its `token` of crates/orchestrator/src/lib.rs. The state is what the mutex holds:
-- the boot that the last token was minted for, and that token. One call runs under the lock, so
-- calls are in sequence. What the device and the minter answer is a parameter of each call.
pub mod Fresh
use sumo_provision.Base.{
  ℕ, Bool, true, false, Option, none, some, List, Text, Text_eq, ◌==◌, if◌then◌else◌, Result, ok,
  err,
}
use sumo_provision.Base.Exec.{Exec, pure, lift, continue, ◌>>=◌, ◌>>◌}

pub data EngineError : Type 0 where
  unreachable mint_failed : EngineError

pub data RigToken : Type 0 where
  static : Text → RigToken
  mint : Option ℕ → RigToken

abbrev pub Cached : Type 0
Cached = Option (Text × Text)

-- the answers that a call gets, if it asks
pub record Answers : Type 0 where
  pub boot_id : Result EngineError Text
  pub ecu_id : Result EngineError Text
  pub mint_token : Text → Text → Option ℕ → Result EngineError Text

abbrev pub set_cached : Text → Text → Exec Cached EngineError Text
set_cached boot token s = (ok token, some (boot, token))

-- the part below the look at the cache
unfoldable pub remint : Answers → Option ℕ → Text → Exec Cached EngineError Text
remint answers ttl_secs boot = do
  ecu_id ← lift answers.ecu_id
  minted ← lift (answers.mint_token ecu_id boot ttl_secs)
  set_cached boot minted

unfoldable pub cached_or_mint : Answers → Option ℕ → Text → Exec Cached EngineError Text
unfolding remint
cached_or_mint answers ttl_secs boot none = remint answers ttl_secs boot none
cached_or_mint answers ttl_secs boot (some (cached_boot, tok)) =
    if cached_boot == boot
    then pure tok (some (cached_boot, tok))
    else remint answers ttl_secs boot (some (cached_boot, tok))

unfoldable pub token : RigToken → Answers → Exec Cached EngineError Text
unfolding cached_or_mint
token (static jwt) answers = pure jwt
token (mint ttl_secs) answers = do boot ← lift answers.boot_id; cached_or_mint answers ttl_secs boot
