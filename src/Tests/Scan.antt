-- ===== src/Tests/Scan.antt =====
-- A multisig that was made with an old factory and its bytecode.
use indra.Prelude.{
  str_eq, Bool-cases, inl, inr, ◌&&◌, some, none, Option, [], ◌∷◌, ok, ◌≡◌, refl, if◌then◌else◌,
}
use indra.Scan.{
  Create2, AddressHistory, AddressBook, Candidate, get_create2_multisig_address,
  scan_for_critical_addresses,
}
use indra.Scan.Finds.{Answers, IsRightAnswer, scan_for_critical_addresses-IsRightAnswer}

abbrev hashes : Create2
hashes = record {
  address_of_key = λ legacy key. if legacy then key else "0xaa";
  proxy_creation_code = λ factory. ok "0x60";
  hashed_address = λ owners factory bytecode mastercopy.
      ok (if str_eq bytecode "0x77" && str_eq mastercopy "0x02" then "0xdd" else "0x00");
}

abbrev history : AddressHistory
history = record {
  proxy_factory = some ("0x01" ∷ []);
  minimum_viable_multisig = some ("0x02" ∷ "0x03" ∷ []);
  toxic_bytecode = some ("0x77" ∷ []);
}

abbrev book : AddressBook
book = record { proxy_factory = some "0x11"; minimum_viable_multisig = some "0x12" }

computes :
    (x : Candidate) → Answers (get_create2_multisig_address hashes ("xpubA" ∷ "xpubB" ∷ []) x)
unfolding get_create2_multisig_address
computes x = elim (Bool-cases (str_eq x.toxic_bytecode "")) [
  | inl fetched ↦ ("0x00", rw fetched refl)
  | inr given ↦ (
    if str_eq x.toxic_bytecode "0x77" && str_eq x.multisig_mastercopy "0x02"
        then "0xdd"
        else "0x00",
    rw given refl,
  )
]

scan_for_critical_addresses-IsRightAnswer_example :
    (answer : Option Candidate) × (scan_for_critical_addresses hashes
        (some history)
        (some book)
        none
        ("xpubA" ∷ "xpubB" ∷ [])
        "0xdd"
      ≡ ok answer)
    × IsRightAnswer hashes (some history) (some book) none ("xpubA" ∷ "xpubB" ∷ []) "0xdd" answer
scan_for_critical_addresses-IsRightAnswer_example =
    scan_for_critical_addresses-IsRightAnswer hashes (some history) (some book) none
      ("xpubA" ∷ "xpubB" ∷ []) "0xdd" (λ x _. computes x)
