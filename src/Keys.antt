-- ===== src/Keys.antt =====
-- The order of addresses: `sortAddresses` of modules/cf-core/src/xkeys.ts and of
-- modules/cf-core/src/models/utils.ts, and the keys derived in xkeys.ts. The comparison is that of
-- JavaScript numbers: `parseInt(a, 16)` rounds to 53 significant bits.
pub mod Order
use Prim.Native.String.{String}
use Prim.Native.String
use Prim.Native.Char.{code}
use indra.Prelude.{
  ℕ, zero, suc, ◌+◌, ◌-◌, ◌*◌, ◌/◌, ◌%◌, ◌^◌, Bool, true, false, ◌&&◌, ◌||◌, Option, none, some,
  List, [], ◌∷◌, map, or_else, ltb, leb, ◌==◌, if◌then◌else◌,
}
use indra.Ethers.{Ethers}

abbrev pub codes : String → List ℕ
codes String.[] = []
codes (String.◌∷◌ c s) = code c ∷ codes s

unfoldable pub hex_digit : ℕ → Option ℕ
hex_digit c =
    if leb b'0' c && leb c b'9'
    then some (c - b'0')
    else if leb b'a' c && leb c b'f'
    then some (c + 10 - b'a')
    else if leb b'A' c && leb c b'F'
    then some (c + 10 - b'A')
    else none

-- The digits up to the first character that is none; `none` stands for NaN.
unfoldable pub hex_digits : Option ℕ → List ℕ → Option ℕ
unfolding hex_digit
hex_digits acc [] = acc
hex_digits acc (c ∷ cs) = elim (hex_digit c) [
  | none ↦ acc
  | some v ↦ hex_digits (some (or_else acc 0 * 16 + v)) cs
]

unfoldable pub strip_prefix : List ℕ → List ℕ
strip_prefix (a ∷ b ∷ cs) = if a == b'0' && (b == b'x' || b == b'X') then cs else a ∷ b ∷ cs
strip_prefix cs = cs

-- `n` rounded to a multiple of `unit`, ties to the even multiple.
unfoldable pub round_to : ℕ → ℕ → ℕ
round_to unit n =
    let q = n / unit in
    let r = n % unit in
    if ltb unit (2 * r) || (2 * r == unit && q % 2 == 1) then (q + 1) * unit else q * unit

-- The nearest double: the unit is doubled until 53 bits are enough.
unfoldable pub to_double : ℕ → ℕ → ℕ → ℕ
unfolding round_to
to_double zero unit n = round_to unit n
to_double (suc fuel) unit n =
    let rest = to_double fuel (2 * unit) n in
    if ltb n (unit * 2 ^ 53) then round_to unit n else rest

-- `parseInt(s, 16)` of a string of digits, which may begin with 0x. The fuel is enough for 77
-- digits, where an address has 40.
unfoldable pub parse_int_16 : String → Option ℕ
unfolding hex_digits strip_prefix to_double
parse_int_16 s = elim (hex_digits none (strip_prefix (codes s))) [
  | none ↦ none
  | some n ↦ some (to_double 256 1 n)
]

-- `x < y` on numbers, false if one of them is NaN.
unfoldable pub number_lt : Option ℕ → Option ℕ → Bool
number_lt none y = false
number_lt (some x) none = false
number_lt (some x) (some y) = ltb x y

-- The comparator's answer for a pair is negative, else it is 1.
unfoldable pub comes_before : String → String → Bool
comes_before a b = number_lt (parse_int_16 a) (parse_int_16 b)

-- `sort` takes each element in turn and puts it behind those that it does not come before.
unfoldable pub insert_address : String → List String → List String
insert_address a [] = a ∷ []
insert_address a (b ∷ bs) = if comes_before a b then a ∷ b ∷ bs else b ∷ insert_address a bs

unfoldable pub sort_onto : List String → List String → List String
sort_onto sorted [] = sorted
sort_onto sorted (a ∷ as') = sort_onto (insert_address a sorted) as'

unfoldable pub sort_addresses : List String → List String
unfolding sort_onto insert_address
sort_addresses addrs = sort_onto [] addrs

unfoldable pub xkey_kth_address : Ethers → String → ℕ → String
xkey_kth_address e xkey k = e.derived_address xkey k

unfoldable pub xkeys_to_sorted_kth_addresses : Ethers → List String → ℕ → List String
xkeys_to_sorted_kth_addresses e xkeys k = sort_addresses (map (λ x. xkey_kth_address e x k) xkeys)
