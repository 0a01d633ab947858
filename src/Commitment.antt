-- ===== src/Commitment.antt =====
-- modules/cf-core/src/ethereum/set-state-commitment.ts: what both parties sign for a new state of an
-- app. The hashes and encodings of ethers are parameters.
pub mod Multisig
use indra.Prelude.{String, ℕ, Option, List, [], Result, ok, ◌>>◌, throw_if, ltb, length}
use indra.States.{AppState}
use indra.Ethers.{Ethers}
use indra.AppInstance.{AppInstance, app_identity_to_hash}

-- What a call of a contract is encoded from, for the two calls that the multisig makes.
pub data CallData : Type 0 where
  execute_effect_of_interpreted_app_outcome :
      (challenge_registry free_balance_hash app_hash interpreter parameters : String) → CallData
  execute_effect_of_free_balance :
      (challenge_registry free_balance_hash interpreter : String) → CallData

-- A transaction of the multisig; its value is 0 and its operation a delegate call.
pub record MultisigTransaction : Type 0 where
  pub to : String
  pub call_data : CallData

-- `keccak256` of an encoded state, of a packed commitment and of a packed transaction of the owners;
-- recovering the address that signed a hash; the case of texts; and the number of an address.
pub record Signing : Type 0 where
  pub state_hash : String → AppState → String
  pub packed_hash : String → ℕ → ℕ → String → String
  pub multisig_hash : List String → MultisigTransaction → String
  pub recover : String → String → Result String
  pub to_lower_case : String → String
  pub address_number : String → ℕ

-- The parts of an app's identity that are hashed.
pub record AppIdentity : Type 0 where
  pub channel_nonce : ℕ
  pub participants : List String

-- A signature that is not there is `undefined`.
pub record SetStateCommitment : Type 0 where
  pub challenge_registry_address : String
  pub app_identity : AppIdentity
  pub app_state_hash : String
  pub version_number : ℕ
  pub timeout : ℕ
  pub app_identity_hash : String
  pub signatures : List (Option String)

-- What a commitment reads of an app: the getters `identity`, `hashOfLatestState`, `versionNumber` and
-- `timeout` of an instance.
pub record CommittedApp : Type 0 where
  pub identity : AppIdentity
  pub hash_of_latest_state : String
  pub version_number : ℕ
  pub timeout : ℕ

unfoldable pub committed_app : Signing → AppInstance → CommittedApp
committed_app s app = record {
  identity = record { channel_nonce = app.app_seq_no; participants = app.participants };
  hash_of_latest_state = s.state_hash app.app_interface.state_encoding app.latest_state;
  version_number = app.latest_version_number;
  timeout = app.latest_timeout;
}

unfoldable pub get_set_state_commitment : Ethers → String → CommittedApp → SetStateCommitment
get_set_state_commitment e challenge_registry app = record {
  challenge_registry_address = challenge_registry;
  app_identity = app.identity;
  app_state_hash = app.hash_of_latest_state;
  version_number = app.version_number;
  timeout = app.timeout;
  app_identity_hash = app_identity_to_hash e app.identity.channel_nonce app.identity.participants;
  signatures = [];
}

unfoldable pub hash_to_sign : Ethers → Signing → SetStateCommitment → String
hash_to_sign e s c =
    s.packed_hash (app_identity_to_hash e c.app_identity.channel_nonce c.app_identity.participants)
      c.version_number c.timeout c.app_state_hash

unfoldable pub set_signatures :
    SetStateCommitment → List (Option String) → Result SetStateCommitment
set_signatures c sigs =
    throw_if (ltb (length sigs) 2) "Incorrect number of signatures supplied"
    >> ok (record c { signatures = sigs })
