-- ===== src/Scan.antt =====
-- modules/cf-core/src/utils.ts: the address of a multisig (getCreate2MultisigAddress), and the search
-- for the contracts that it was computed with (scanForCriticalAddresses).
pub mod Finds
use indra.Prelude.{
  String, str_eq, Bool, true, false, Option, none, some, List, [], ◌∷◌, ◌++◌, map, includes, Result,
  ok, err, ◌>>=◌, if◌then◌else◌,
}
use indra.Keys.{sort_addresses}

-- What comes from the package ethers and from the chain: the address of a key or of its child 0, the
-- bytecode of a factory, and the address that the owners, the factory, the bytecode and the mastercopy
-- hash to.
pub record Create2 : Type 0 where
  pub address_of_key : (legacy_keygen : Bool) → String → String
  pub proxy_creation_code : String → Result String
  pub hashed_address : List String → String → String → String → Result String

-- The history of addresses of a chain, and the contracts that are deployed on it now.
pub record AddressHistory : Type 0 where
  pub proxy_factory : Option (List String)
  pub minimum_viable_multisig : Option (List String)
  pub toxic_bytecode : Option (List String)

pub record AddressBook : Type 0 where
  pub proxy_factory : Option String
  pub minimum_viable_multisig : Option String

-- What a scan returns.
pub record Candidate : Type 0 where
  pub legacy_keygen : Bool
  pub multisig_mastercopy : String
  pub proxy_factory : String
  pub toxic_bytecode : String

abbrev pub owner_addresses : Create2 → Bool → List String → List String
unfolding sort_addresses
owner_addresses c legacy_keygen xkeys = sort_addresses (map (c.address_of_key legacy_keygen) xkeys)

-- A bytecode that is not empty is taken for that of the factory.
unfoldable pub get_create2_multisig_address : Create2 → List String → Candidate → Result String
get_create2_multisig_address c owners x = do
  bytecode ←
      if str_eq x.toxic_bytecode ""
      then c.proxy_creation_code x.proxy_factory
      else ok x.toxic_bytecode
  c.hashed_address (owner_addresses c x.legacy_keygen owners) x.proxy_factory bytecode
      x.multisig_mastercopy

-- `[...new Set(xs)]`, after those that were seen before.
unfoldable pub without_repeats : List String → List String → List String
without_repeats seen [] = []
without_repeats seen (x ∷ xs) =
    let fresh = without_repeats (x ∷ seen) xs in
    let rest = without_repeats seen xs in if includes x seen then rest else x ∷ fresh

abbrev pub listed : Option AddressHistory → (AddressHistory → Option (List String)) → List String
listed none field = []
listed (some h) field = elim (field h) [ none ↦ [] | some xs ↦ xs ]

abbrev pub deployed : Option AddressBook → (AddressBook → Option String) → List String
deployed none field = []
deployed (some b) field = elim (field b) [ none ↦ [] | some x ↦ x ∷ [] ]

abbrev pub toxic_bytecodes : Option AddressHistory → Option AddressHistory → List String
unfolding without_repeats
toxic_bytecodes history more =
    without_repeats []
      ("" ∷ listed history (λ h. h.toxic_bytecode) ++ listed more (λ h. h.toxic_bytecode))

-- The factory that is deployed now is put here, behind the mastercopies.
abbrev pub mastercopies :
    Option AddressHistory → Option AddressBook → Option AddressHistory → List String
unfolding without_repeats
mastercopies history book more =
    without_repeats [] (
      listed history (λ h. h.minimum_viable_multisig)
      ++ deployed book (λ b. b.minimum_viable_multisig)
      ++ listed more (λ h. h.minimum_viable_multisig))
    ++ deployed book (λ b. b.proxy_factory)

abbrev pub proxy_factories : Option AddressHistory → Option AddressHistory → List String
unfolding without_repeats
proxy_factories history more =
    without_repeats [] (listed history (λ h. h.proxy_factory) ++ listed more (λ h. h.proxy_factory))

-- The result of a loop's body, and else that of the rest of the loop.
abbrev pub or_next : {B : Type 0} → Result (Option B) → Result (Option B) → Result (Option B)
or_next (err message) rest = err message
or_next (ok none) rest = rest
or_next (ok (some found)) rest = ok (some found)

-- A loop that returns with the first result of its body.
unfoldable pub first_some : {A B : Type 0} → (A → Result (Option B)) → List A → Result (Option B)
first_some body [] = ok none
first_some body (x ∷ xs) = or_next (body x) (first_some body xs)

-- The body of the loops.
abbrev pub try_candidate : Create2 → List String → String → Candidate → Result (Option Candidate)
try_candidate c owners expected x = do
  calculated ← get_create2_multisig_address c owners x
  ok (if str_eq calculated expected then some x else none)

unfoldable pub scan_for_critical_addresses :
    Create2
    → Option AddressHistory
    → Option AddressBook
    → Option AddressHistory
    → List String
    → String
    → Result (Option Candidate)
unfolding first_some toxic_bytecodes mastercopies proxy_factories get_create2_multisig_address
scan_for_critical_addresses c history book more owners expected =
    first_some
      (λ legacy_keygen.
        first_some
          (λ toxic_bytecode.
            first_some
              (λ multisig_mastercopy.
                first_some
                  (λ proxy_factory. try_candidate c owners expected (record {
                    legacy_keygen = legacy_keygen;
                    multisig_mastercopy = multisig_mastercopy;
                    proxy_factory = proxy_factory;
                    toxic_bytecode = toxic_bytecode;
                  }))
                  (proxy_factories history more))
              (mastercopies history book more))
          (toxic_bytecodes history more))
      (false ∷ true ∷ [])
