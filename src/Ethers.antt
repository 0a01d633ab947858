-- ===== src/Ethers.antt =====
-- What the code takes from the package `ethers`, as parameters of the model: address checksums,
-- hexadecimal numbers, key derivation, keccak256 over the ABI encoding of an app's identity, and
-- whether the ABI encoder accepts a state.
use indra.Prelude.{String, ℕ, ℤ, Bool, ◌≡◌, Option, some, List}
use indra.States.{AppState}

pub record Ethers : Type 0 where
  -- `getAddress`; `none` where it throws.
  pub get_address : String → Option String
  -- `BigNumber.toHexString` and `bigNumberify`; `none` where it throws.
  pub to_hex_string : ℤ → String
  pub big_numberify : String → Option ℤ
  -- `BigNumber.toNumber`; `none` where it throws.
  pub to_number : ℤ → Option ℕ
  -- `fromExtendedKey(xkey).derivePath(k).address`
  pub derived_address : String → ℕ → String
  -- `keccak256(defaultAbiCoder.encode(["uint256", "address[]"], [nonce, participants]))`
  pub hash_of_identity : ℕ → List String → String
  -- `defaultAbiCoder.encode([encoding], [state])` does not throw.
  pub encodes : String → AppState → Bool

-- A number is read back from its hexadecimal form.
abbrev pub ReadsHex : Ethers → Type 0
ReadsHex e = (n : ℤ) → e.big_numberify (e.to_hex_string n) ≡ some n
