-- ===== src/Ops/Host.antt =====
-- What internal/fabricops calls and does not implement: the peer's command line, docker, the files,
-- protobuf, encoding/base64 and strings.
use kufi_chain.Prelude.{ℕ, String, Bool, Option, List}
use kufi_chain.Prelude.Int.{ℤ}
use kufi_chain.Prelude.Dict.{Dict}
use kufi_chain.Prelude.Action.{Result}

-- `committedDefinition`: the JSON of `peer lifecycle chaincode querycommitted`.
pub record Committed : Type 0 where
  pub sequence : ℤ
  pub validation_parameter : String
  pub approvals : Dict Bool

-- An entry of `installed_chaincodes`.
pub record Installed : Type 0 where
  pub package_id : String
  pub label : String

-- What has been run so far, the last first, each command with its answer. In an answer that is read
-- as JSON, `none` stands for a command that fails and for JSON that does not decode.
pub data Event : Type 0 where
  queried_committed : Option Committed → Event
  queried_installed : Option (List Installed) → Event
  -- checkcommitreadiness: the sequence, the signature policy, and the approvals if the output has them.
  checked : ℤ → String → Result String (Option (Dict Bool)) → Event
  -- The package path.
  installed : String → Result String (Unit {0}) → Event
  -- The package, the sequence and the signature policy.
  approved : String → ℤ → String → Result String (Unit {0}) → Event
  -- The sequence, the signature policy, and the addresses of the endorsing peers.
  committed : ℤ → String → List String → Result String (Unit {0}) → Event
  slept : ℕ → Event
  built_image : Result String (Unit {0}) → Event
  built_package : Result String String → Event
  removed_container : Event
  ran_container : String → Result String (Unit {0}) → Event
  -- `/api/chaincode/trigger-upgrade` at the management addresses.
  notified : List String → Event

abbrev pub History : Type 0
History = List Event

-- How the peer, docker and the files answer, which may depend on all that came before. An error
-- carries the output of the command.
pub record World : Type 0 where
  pub query_committed : History → Option Committed
  pub query_installed : History → Option (List Installed)
  pub check_readiness : History → ℤ → String → Result String (Option (Dict Bool))
  pub install : History → String → Result String (Unit {0})
  pub approve : History → String → ℤ → String → Result String (Unit {0})
  pub commit : History → ℤ → String → List String → Result String (Unit {0})
  pub image_exists : History → Bool
  pub has_dockerfile : History → Bool
  pub docker_build : History → Result String (Unit {0})
  pub build_package : History → Result String String
  pub container_running : History → Bool
  pub docker_run : History → String → Result String (Unit {0})
  pub file_exists : String → Bool
  -- strings.ToLower, strings.TrimSpace
  pub to_lower : String → String
  pub trim : String → String
