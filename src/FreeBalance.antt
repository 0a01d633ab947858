-- ===== src/FreeBalance.antt =====
-- modules/cf-core/src/models/free-balance.ts: the balances of a channel that no app holds, by token
-- and owner, and the set of active apps, kept as the state of an app instance of its own.
pub mod Serial
pub mod Increment
pub mod Flip
pub mod WellFormed
use indra.Prelude.{
  String, str_eq, ℕ, ℤ, pos, ltb_ℤ, Bool, true, false, ◌||◌, Option, none, some, List, [], ◌∷◌, map,
  get_elem?, Result, ok, err, ◌>>=◌, ◌>>◌, throw_if, or_throw, or_else, if◌then◌else◌,
}
use indra.Dict.{Dict, lookup, set, delete, keys, values, set_all}
use indra.Coins.{
  CoinTransfer, CoinTransferMap, TokenIndexedCoinTransferMap, merge,
  convert_coin_transfers_to_coin_transfers_map as to_map,
  convert_coin_transfers_map_to_coin_transfers as to_transfers,
}
use indra.States.{hex_objects, AppState, CoinTransferJson}
use indra.Ethers.{Ethers}
use indra.Keys.{xkeys_to_sorted_kth_addresses, xkey_kth_address}
use indra.AppInstance.{AppInstance, AppInterface, OutcomeType, construct, set_state}

-- `CONVENTION_FOR_ETH_TOKEN_ADDRESS`, the AddressZero of ethers.
abbrev pub convention_for_eth_token_address : String
convention_for_eth_token_address = "0x0000000000000000000000000000000000000000"

abbrev pub free_balance_default_timeout : ℕ
free_balance_default_timeout = 172800

abbrev pub free_balance_initial_state_timeout : ℕ
free_balance_initial_state_timeout = 172800

abbrev pub app_sequence_number_for_free_balance : ℕ
app_sequence_number_for_free_balance = 0

abbrev pub ActiveAppsMap : Type 0
ActiveAppsMap = Dict Bool

abbrev pub Balances : Type 0
Balances = Dict (List CoinTransfer)

pub record FreeBalanceClass : Type 0 where
  pub active_apps_map : ActiveAppsMap
  pub balances_indexed_by_token : Balances

-- `getFreeBalanceAppInterface`
unfoldable pub get_free_balance_app_interface : String → AppInterface
get_free_balance_app_interface addr = record {
  addr = addr;
  state_encoding =
      "tuple(address[] tokenAddresses, tuple(address to, uint256 amount)[][] balances, bytes32[] activeApps)";
  action_encoding = none;
}

abbrev pub token_entry : String × List CoinTransfer → String × CoinTransferMap
token_entry e = (e.0, to_map (some e.1))

unfoldable pub to_token_indexed_coin_transfer_map : FreeBalanceClass → TokenIndexedCoinTransferMap
to_token_indexed_coin_transfer_map fb = set_all [] (map token_entry fb.balances_indexed_by_token)

unfoldable pub create_with_funded_token_amounts : List String → ℤ → List String → FreeBalanceClass
create_with_funded_token_amounts addresses amount token_addresses = record {
  active_apps_map = [];
  balances_indexed_by_token = set_all [] (
      map
        (λ token_address. (
          token_address,
          map (λ (to : String). let t : CoinTransfer = record { to = to; amount = amount } in t)
              addresses,
        ))
        token_addresses);
}

-- `undefined` for an address that has no entry.
unfoldable pub get_balance : FreeBalanceClass → String → String → Option ℤ
get_balance fb token_address beneficiary =
    lookup beneficiary (to_map (lookup token_address fb.balances_indexed_by_token))

unfoldable pub set_zeros : CoinTransferMap → List String → CoinTransferMap
set_zeros balances [] = balances
set_zeros balances (address ∷ addresses) = set_zeros (set address (pos 0) balances) addresses

unfoldable pub or_zeros : CoinTransferMap → List String → CoinTransferMap
unfolding set_zeros
or_zeros [] addresses = set_zeros [] addresses
or_zeros (e ∷ balances) addresses = e ∷ balances

-- A token without balances gets a zero for every owner that has an entry for ETH.
unfoldable pub with_token_address : FreeBalanceClass → String → CoinTransferMap
unfolding or_zeros
with_token_address fb token_address =
    or_zeros (to_map (lookup token_address fb.balances_indexed_by_token))
      (keys (to_map (lookup convention_for_eth_token_address fb.balances_indexed_by_token)))

unfoldable pub remove_active_app : String → FreeBalanceClass → FreeBalanceClass
remove_active_app app fb = record fb { active_apps_map = delete app fb.active_apps_map }

unfoldable pub add_active_app : String → FreeBalanceClass → FreeBalanceClass
add_active_app app fb = record fb { active_apps_map = set app true fb.active_apps_map }

unfoldable pub has_negative : List ℤ → Bool
has_negative [] = false
has_negative (v ∷ vs) = ltb_ℤ v (pos 0) || has_negative vs

-- One round of the loop of `increment`.
unfoldable pub increment_token : String → CoinTransferMap → Balances → Result Balances
increment_token token_address increments balances =
    let t2 = merge (to_map (lookup token_address balances)) increments in
    throw_if (has_negative (values t2))
      "FreeBalanceClass::increment ended up with a negative balance"
    >> ok (set token_address (to_transfers t2) balances)

unfoldable pub increment_tokens :
    TokenIndexedCoinTransferMap → List String → Balances → Result Balances
increment_tokens increments [] balances = ok balances
increment_tokens increments (t ∷ ts) balances = do
  balances' ← increment_token t (or_else (lookup t increments) []) balances
  increment_tokens increments ts balances'

unfoldable pub increment : TokenIndexedCoinTransferMap → FreeBalanceClass → Result FreeBalanceClass
increment increments fb = do
  balances ← increment_tokens increments (keys increments) fb.balances_indexed_by_token
  ok (record fb { balances_indexed_by_token = balances })

unfoldable pub serialize_transfer : Ethers → CoinTransfer → CoinTransferJson
serialize_transfer e t = record { to = t.to; hex = e.to_hex_string t.amount }

unfoldable pub serialize_transfers : Ethers → List CoinTransfer → List CoinTransferJson
unfolding serialize_transfer
serialize_transfers e [] = []
serialize_transfers e (t ∷ ts) = serialize_transfer e t ∷ serialize_transfers e ts

unfoldable pub serialize_balances : Ethers → List (List CoinTransfer) → List (List CoinTransferJson)
unfolding serialize_transfers
serialize_balances e [] = []
serialize_balances e (ts ∷ tss) = serialize_transfers e ts ∷ serialize_balances e tss

unfoldable pub serialize_free_balance_state : Ethers → FreeBalanceClass → AppState
unfolding serialize_balances
serialize_free_balance_state e fb = record {
  active_apps = some (keys fb.active_apps_map);
  token_addresses = some (keys fb.balances_indexed_by_token);
  balances = some (serialize_balances e (values fb.balances_indexed_by_token));
  token_address = none;
  threshold = none;
  contents = "";
  numbers = hex_objects;
}

unfoldable pub deserialize_transfers : Ethers → List CoinTransferJson → Result (List CoinTransfer)
deserialize_transfers e [] = ok []
deserialize_transfers e (t ∷ ts) = do
  n ← or_throw (e.big_numberify t.hex) "invalid BigNumber string"
  rest ← deserialize_transfers e ts
  ok (record { to = t.to; amount = n } ∷ rest)

-- The entries for `tokenAddresses`, each with the balances at its index.
unfoldable pub deserialize_balances :
    Ethers → List String → List (List CoinTransferJson) → Balances → Result Balances
deserialize_balances e [] balances acc = ok acc
deserialize_balances e (t ∷ ts) [] acc = err "Cannot read property 'map' of undefined"
deserialize_balances e (t ∷ ts) (b ∷ bs) acc = do
  address ← or_throw (e.get_address t) "invalid address"
  transfers ← deserialize_transfers e b
  deserialize_balances e ts bs (set address transfers acc)

abbrev pub active_entry : String → String × Bool
active_entry app = (app, true)

unfoldable pub deserialize_free_balance_state : Ethers → AppState → Result FreeBalanceClass
deserialize_free_balance_state e s = do
  balances ← deserialize_balances e (or_else s.token_addresses []) (or_else s.balances []) []
  ok (record {
    active_apps_map = set_all [] (map active_entry (or_else s.active_apps []));
    balances_indexed_by_token = balances;
  })

unfoldable pub to_app_instance : Ethers → FreeBalanceClass → AppInstance → Result AppInstance
to_app_instance e fb old_app_instance =
    set_state e old_app_instance (serialize_free_balance_state e fb) none

unfoldable pub from_app_instance : Ethers → AppInstance → Result FreeBalanceClass
from_app_instance e a = deserialize_free_balance_state e a.latest_state

-- A recipient that is missing is written as the key `undefined`.
unfoldable pub zero_balance_of : List String → ℕ → CoinTransfer
zero_balance_of owners i = record { to = or_else (get_elem? owners i) "undefined"; amount = pos 0 }

unfoldable pub initial_free_balance : List String → FreeBalanceClass
unfolding zero_balance_of
initial_free_balance owners = record {
  active_apps_map = [];
  balances_indexed_by_token =
      (convention_for_eth_token_address, zero_balance_of owners 0 ∷ zero_balance_of owners 1 ∷ [])
      ∷ [];
}

unfoldable pub create_free_balance : Ethers → List String → String → ℕ → String → AppInstance
unfolding initial_free_balance get_free_balance_app_interface construct
create_free_balance e user_neutered_extended_keys coin_bucket_address free_balance_timeout
      multisig =
    let owners = xkeys_to_sorted_kth_addresses e user_neutered_extended_keys 0 in
    construct (record {
      participants = owners;
      default_timeout = free_balance_timeout;
      app_interface = get_free_balance_app_interface coin_bucket_address;
      app_seq_no = app_sequence_number_for_free_balance;
      latest_state = serialize_free_balance_state e (initial_free_balance owners);
      latest_version_number = 0;
      latest_timeout = free_balance_initial_state_timeout;
      outcome_type = OutcomeType.multi_asset_multi_party_coin_transfer;
      multisig_address = multisig;
      meta = none;
      two_party_params = none;
      multi_asset_params = none;
      single_asset_params = none;
    })

unfoldable pub get_free_balance_address : Ethers → String → String
get_free_balance_address e public_identifier = xkey_kth_address e public_identifier 0
