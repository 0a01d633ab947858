-- ===== src/Commitment/Multisig/Order.antt =====
-- The signed transaction of a commitment with two signatures: in which order they stand.
use indra.Prelude.{
  String, true, false, sym, ◌∙◌, ◌<◌, ◌≡◌, ltb, some, [], ◌∷◌, ok, arith, if◌then◌else◌,
}
use indra.Commitment.{Signing}
use indra.Commitment.Multisig.{
  MultisigCommitment, hash_to_sign, with_signers, insert_signer, sort_signers,
  sort_signatures_by_signer_address, get_signed_transaction,
}

-- The two signatures stand in the order of their signers' addresses.
sorted_two :
    (s : Signing) (c : MultisigCommitment) (a b x y : String)
    → s.recover (hash_to_sign s c) a ≡ ok x
    → s.recover (hash_to_sign s c) b ≡ ok y
    → get_signed_transaction s (record c { signatures = some a ∷ some b ∷ [] })
      ≡ ok (record {
        to = c.multisig_address;
        details = c.details;
        signatures =
            if ltb (s.address_number x) (s.address_number y) then a ∷ b ∷ [] else b ∷ a ∷ [];
      })
unfolding get_signed_transaction sort_signatures_by_signer_address with_signers sort_signers
    insert_signer hash_to_sign
sorted_two s c a b x y by_a by_b = rw (by_a, by_b) (ground arith)

-- When two signatures are by different addresses, the signed transaction does not depend on the order
-- in which they were put into the commitment: the signature of the lower address stands first.
pub get_signed_transaction-swap :
    (s : Signing) (c : MultisigCommitment) (a b x y : String)
    → s.recover (hash_to_sign s c) a ≡ ok x
    → s.recover (hash_to_sign s c) b ≡ ok y
    → s.address_number x < s.address_number y
    → (get_signed_transaction s (record c { signatures = some a ∷ some b ∷ [] })
        ≡ get_signed_transaction s (record c { signatures = some b ∷ some a ∷ [] }))
      × (get_signed_transaction s (record c { signatures = some a ∷ some b ∷ [] })
          ≡ ok (record { to = c.multisig_address; details = c.details; signatures = a ∷ b ∷ [] }))
get_signed_transaction-swap s c a b x y by_a by_b below =
    let mine = sorted_two s c a b x y by_a by_b in
    let other = sorted_two s c b a y x by_b by_a in
    let first : ltb (s.address_number x) (s.address_number y) ≡ true = ground arith in
    let second : ltb (s.address_number y) (s.address_number x) ≡ false = ground arith in
    (mine ∙ rw first (sym (rw second at other)), rw first at mine)
