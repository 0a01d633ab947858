-- ===== src/Protocol/Outcome/Refund.antt =====
-- The loop that waits for a balance refund: it takes the first of ten rounds that pays.
use indra.Prelude.{
  List, [], ◌∷◌, Result, String, ℕ, ◌+◌, ◌≤◌, suc, zero, pos, ltb_ℤ, leb, Bool, ◌≡◌, true, false,
  ◌||◌, Option, some, none, ok, err, arith, Bool-cases, ◌∙◌, inl, inr, if◌then◌else◌,
}
use indra.Coins.{TokenIndexedCoinTransferMap, CoinTransfer}
use indra.AppInstance.{AppInstance}
use indra.Protocol.Outcome.{
  Decoder, Chain, specified_and_elapsed, refund_to, refund_round, refund_loop,
  handle_refund_app_outcome_special_case,
}

-- The answers of the chain, round by round: the decoded outcomes and the numbers of the blocks.
pub record Answers (d : Decoder) (chain : Chain) : Type 0 where
  pub outcome : ℕ → String
  pub pair : ℕ → CoinTransfer × CoinTransfer
  pub block : ℕ → ℕ
  pub computes : (n : ℕ) → chain.compute_outcome n ≡ ok (outcome n)
  pub decodes : (n : ℕ) → d.decode_pair (outcome n) ≡ some (pair n)
  pub numbers : (n : ℕ) → chain.block_number n ≡ ok (block n)

-- The numbers of `n` rounds, the first of them `k`.
abbrev pub rounds_from : ℕ → ℕ → List ℕ
rounds_from k zero = []
rounds_from k (suc n) = k ∷ rounds_from (k + 1) n

module _ (d : Decoder) (chain : Chain) (app : AppInstance) (limit : Option ℕ)
    (answers : Answers d chain) where
  -- The outcome of a round has an amount to refund, or the block to wait for has come.
  abbrev pub pays : ℕ → Bool
  pays n = ltb_ℤ (pos 0) (answers.pair n).0.amount || specified_and_elapsed limit (answers.block n)

  refund_round_lem :
      (n : ℕ)
      → refund_round d chain app limit n (answers.outcome n)
        ≡ ok (if pays n then some (refund_to app (answers.pair n).0) else none)
  unfolding refund_round
  refund_round_lem n =
      rw (answers.decodes n, answers.numbers n)
        (elim (Bool-cases (pays n)) [ inl paid ↦ rw paid | inr wait ↦ rw wait ])

  -- One round of the loop that does not pay.
  refund_loop-waits :
      (fuel k : ℕ)
      → k ≤ 10
      → pays k ≡ false
      → refund_loop (suc fuel) d chain app limit k (answers.outcome k)
        ≡ refund_loop fuel d chain app limit (k + 1) (answers.outcome (k + 1))
  unfolding refund_loop
  refund_loop-waits fuel k low waits =
      rw (within, refund_round_lem k, waits, answers.computes (k + 1))
    where
      within : leb k 10 ≡ true
      within = ground arith

  refund_loop-pays :
      (fuel k : ℕ)
      → k ≤ 10
      → pays k ≡ true
      → refund_loop (suc fuel) d chain app limit k (answers.outcome k)
        ≡ ok (refund_to app (answers.pair k).0)
  unfolding refund_loop
  refund_loop-pays fuel k low paid = rw (within, refund_round_lem k, paid)
    where
      within : leb k 10 ≡ true
      within = ground arith

  -- The increments of the first of some rounds that pays, or the error.
  abbrev pub first_payment : List ℕ → Result TokenIndexedCoinTransferMap
  first_payment [] =
      err "When attempting to check for a deposit, did not find any non-zero deposits."
  first_payment (n ∷ ns) =
      if pays n then ok (refund_to app (answers.pair n).0) else first_payment ns

  refund_loop_lem :
      (n k : ℕ)
      → k + n ≡ 11
      → refund_loop (suc n) d chain app limit k (answers.outcome k)
        ≡ first_payment (rounds_from k n)
  unfolding refund_loop
  refund_loop_lem zero k last = ground arith
  refund_loop_lem (suc n) k more = elim (Bool-cases (pays k)) [
    | inl paid ↦ refund_loop-pays (suc n) k (omega arith) paid ∙ rw paid
    | inr waits ↦
        refund_loop-waits (suc n) k (omega arith) waits
        ∙ refund_loop_lem n (k + 1) (omega arith)
        ∙ rw waits
  ]

  -- On a chain that answers, the increments are those of the first of the rounds 1 to 10 in which the
  -- outcome has an amount to refund, or the block to wait for has come: that round's amount to its
  -- address in the app's token. Without such a round there is an error.
  pub handle_refund_app_outcome_special_case_lem :
      handle_refund_app_outcome_special_case d chain (answers.outcome 1) app limit
      ≡ first_payment (rounds_from 1 10)
  unfolding handle_refund_app_outcome_special_case
  handle_refund_app_outcome_special_case_lem = refund_loop_lem 10 1 (omega arith)
