-- ===== src/Tests/Fixture.antt =====
-- A channel of two owners with funds in ETH and in a token, over a small stand-in for ethers.
use Prim.Native.String.{String}
use indra.Prelude.{
  ℕ, zero, suc, ℤ, pos, negsuc, str_eq, true, ◌≡◌, refl, ap, Option, none, some, List, [], ◌∷◌,
  Result, ok, err, if◌then◌else◌,
}
use indra.Coins.{TokenIndexedCoinTransferMap}
use indra.States.{opaque_state, big_numberify_json}
use indra.Ethers.{Ethers, ReadsHex}
use indra.AppInstance.{AppInstance, OutcomeType}
use indra.FreeBalance.{
  FreeBalanceClass, serialize_free_balance_state, create_free_balance,
  convention_for_eth_token_address,
}
use indra.StateChannel.Channel.{StateChannel}

-- Numbers as tallies, behind their sign.
abbrev pub tally : ℕ → String
tally zero = String.[]
tally (suc n) = String.◌∷◌ "1" (tally n)

abbrev pub untally : String → ℕ
untally String.[] = 0
untally (String.◌∷◌ c s) = suc (untally s)

abbrev pub sign_tally : ℤ → String
sign_tally (pos n) = String.◌∷◌ "+" (tally n)
sign_tally (negsuc n) = String.◌∷◌ "-" (String.◌∷◌ "-" (tally n))

abbrev pub read_tally : String → Option ℤ
read_tally String.[] = none
read_tally (String.◌∷◌ c String.[]) = some (pos 0)
read_tally (String.◌∷◌ c (String.◌∷◌ d s)) =
    if str_eq (String.◌∷◌ d String.[]) "-"
    then some (negsuc (untally s))
    else some (pos (suc (untally s)))

untally-tally : (n : ℕ) → untally (tally n) ≡ n
untally-tally zero = refl
untally-tally (suc n) = ap suc (untally-tally n)

abbrev pub address_of : String → String
address_of xpub = if str_eq xpub "xpubA" then "0xaa" else "0xbb"

abbrev to_natural : ℤ → Option ℕ
to_natural (pos n) = some n
to_natural (negsuc n) = none

abbrev pub ethers : Ethers
ethers = record {
  get_address = some;
  to_hex_string = sign_tally;
  big_numberify = read_tally;
  to_number = to_natural;
  derived_address = λ xpub k. address_of xpub;
  hash_of_identity = λ nonce participants. tally nonce;
  encodes = λ encoding state. true;
}

pub ethers-ReadsHex : ReadsHex ethers
ethers-ReadsHex (pos zero) = refl
ethers-ReadsHex (pos (suc n)) = ap (λ k. some (pos (suc k))) (untally-tally n)
ethers-ReadsHex (negsuc n) = ap (λ k. some (negsuc k)) (untally-tally n)

abbrev pub eth : String
eth = convention_for_eth_token_address

abbrev pub xpubs : List String
xpubs = "xpubA" ∷ "xpubB" ∷ []

abbrev pub funds : FreeBalanceClass
funds = record {
  active_apps_map = [];
  balances_indexed_by_token =
      (eth, record { to = "0xaa"; amount = pos 10 } ∷ record { to = "0xbb"; amount = pos 5 } ∷ [])
      ∷ [];
}

abbrev pub deposits : TokenIndexedCoinTransferMap
deposits = (eth, ("0xaa", pos 4) ∷ ("0xbb", pos 1) ∷ []) ∷ []

abbrev pub outcome : TokenIndexedCoinTransferMap
outcome = (eth, ("0xbb", pos 5) ∷ []) ∷ []

abbrev pub funds_app : AppInstance
funds_app = record (create_free_balance ethers xpubs "0xcc" 100 "0xdd") {
  latest_state = big_numberify_json (serialize_free_balance_state ethers funds);
}

abbrev pub app : AppInstance
app = record {
  participants = "0xaa" ∷ "0xbb" ∷ [];
  default_timeout = 10;
  app_interface = record { addr = "0xee"; state_encoding = "uint256"; action_encoding = none };
  app_seq_no = 2;
  latest_state = opaque_state "start";
  latest_version_number = 0;
  latest_timeout = 10;
  outcome_type = OutcomeType.single_asset_two_party_coin_transfer;
  multisig_address = "0xdd";
  meta = none;
  two_party_params = none;
  multi_asset_params = none;
  single_asset_params = some (record { limit = pos 5; token_address = eth });
}

abbrev pub channel : StateChannel
channel = record {
  multisig_address = "0xdd";
  addresses = record { proxy_factory = "0x01"; multisig_mastercopy = "0x02" };
  user_neutered_extended_keys = xpubs;
  proposed_app_instances = [];
  app_instances = [];
  free_balance_app_instance = some funds_app;
  monotonic_num_proposed_apps = 2;
  schema_version = 1;
}

-- The value of a run that succeeds.
abbrev pub value_or {ℓ} : {A : Type ℓ} → Result A → A → A
value_or (ok a) d = a
value_or (err e) d = d
