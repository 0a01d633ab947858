-- ===== src/States.antt =====
-- The states of apps, as the code of cf-core sees them: `latestState: any`, through the fields that
-- it reads. The state of the free balance app (FreeBalanceStateJSON of
-- modules/cf-core/src/models/free-balance.ts) has the first three fields, the state of a balance
-- refund app the next two; what else a state holds is only carried along, as `contents`. With it goes
-- in which form the big numbers of the state are, and the conversions of modules/types/src/utils.ts.
use indra.Prelude.{String, ℤ, Option, none, List}

pub record CoinTransferJson : Type 0 where
  pub to : String
  pub hex : String

-- The big numbers of a state: it has none, they are instances of BigNumber, or they are objects with
-- the field `_hex`, which is what JSON makes of such an instance.
pub data NumberForm : Type 0 where
  no_numbers : NumberForm
  big_numbers : NumberForm
  hex_objects : NumberForm

pub record AppState : Type 0 where
  pub active_apps : Option (List String)
  pub token_addresses : Option (List String)
  pub balances : Option (List (List CoinTransferJson))
  pub token_address : Option String
  pub threshold : Option ℤ
  pub contents : String
  pub numbers : NumberForm

-- A state with none of the fields that cf-core reads, and no big numbers.
abbrev pub opaque_state : String → AppState
opaque_state c = record {
  active_apps = none;
  token_addresses = none;
  balances = none;
  token_address = none;
  threshold = none;
  contents = c;
  numbers = no_numbers;
}

abbrev pub big_form : NumberForm → NumberForm
big_form no_numbers = no_numbers
big_form big_numbers = big_numbers
big_form hex_objects = big_numbers

abbrev pub hex_form : NumberForm → NumberForm
hex_form no_numbers = no_numbers
hex_form big_numbers = hex_objects
hex_form hex_objects = hex_objects

abbrev pub big_numberify_json : AppState → AppState
big_numberify_json s = record s { numbers = big_form s.numbers }

abbrev pub de_big_numberify_json : AppState → AppState
de_big_numberify_json s = record s { numbers = hex_form s.numbers }
