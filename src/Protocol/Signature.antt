-- ===== src/Protocol/Signature.antt =====
-- `assertIsValidSignature` of modules/cf-core/src/protocol/utils.ts
use indra.Prelude.{String, str_eq, not, Option, Result, ◌>>=◌, throw_if, or_throw}
use indra.Ethers.{Ethers}
use indra.Commitment.{Signing}

unfoldable pub assert_is_valid_signature :
    Ethers → Signing → String → Option String → Option String → Result (Unit {0})
assert_is_valid_signature e s expected_signer commitment_hash signature = do
  hash ← or_throw commitment_hash "assertIsValidSignature received an undefined commitment"
  sig ← or_throw signature "assertIsValidSignature received an undefined signature"
  signer ← s.recover hash sig
  expected ← or_throw (e.get_address expected_signer) "invalid address"
  throw_if (not (str_eq (s.to_lower_case expected) (s.to_lower_case signer)))
      "Validating a signature with another signer"
