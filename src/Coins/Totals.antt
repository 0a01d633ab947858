-- ===== src/Coins/Totals.antt =====
-- Sums over coin transfer maps: what `merge` adds up, for all owners together.
use indra.Prelude.{
  String, str_eq, eq_iff, ℤ, pos, ◌+ℤ◌, int_laws, parts_eq, zero_+ℤ, eq_refl, ◌≡◌, refl, ◌∙◌, true,
  false, none, List, [], ◌∷◌, includes, if◌then◌else◌, arith, Bool-cases, inl, inr,
}
use indra.Dict.{lookup, set, has}
use indra.Dict.Laws.{Distinct, Members, add_keys-Members, lookup-set}
use indra.Coins.Merge.{includes-merged_keys}
use indra.Coins.{CoinTransferMap, amount_of, merge_keys, merged_keys, merge}

pub total : CoinTransferMap → ℤ
total [] = pos 0
total ((k, v) ∷ m) = v +ℤ total m

-- The amounts of some owners.
abbrev sum_of : CoinTransferMap → List String → ℤ
sum_of m [] = pos 0
sum_of m (k ∷ ks) = amount_of k m +ℤ sum_of m ks

total-set :
    (k : String) (v : ℤ) (m : CoinTransferMap) → total (set k v m) +ℤ amount_of k m ≡ total m +ℤ v
unfolding total set amount_of lookup
total-set k v [] = omega int_laws
total-set k v ((j, w) ∷ m) = elim (Bool-cases (str_eq j k)) [
  | inl same ↦ rw same (omega int_laws)
  | inr other ↦ rw other (omega (int_laws, parts_eq (total-set k v m)))
]

amount_of-set_other :
    (j k : String) (v : ℤ) (m : CoinTransferMap)
    → str_eq k j ≡ false
    → amount_of j (set k v m) ≡ amount_of j m
unfolding amount_of
amount_of-set_other j k v m h = rw (lookup-set j k v m, h)

abbrev AllZero : CoinTransferMap → List String → Type 0
AllZero m [] = Unit
AllZero m (k ∷ ks) = (amount_of k m ≡ pos 0) × AllZero m ks

AllZero-set :
    (k : String) (v : ℤ) (m : CoinTransferMap) (ks : List String)
    → includes k ks ≡ false
    → AllZero m ks
    → AllZero (set k v m) ks
AllZero-set k v m [] n z = tt
AllZero-set k v m (j ∷ ks) n z = (
  amount_of-set_other j k v m (ground (arith, eq_iff j k, eq_iff k j)) ∙ z.0,
  AllZero-set k v m ks (ground arith) z.1,
)

total-merge_keys :
    (base increments : CoinTransferMap) (ks : List String) (ret : CoinTransferMap)
    → Members ks
    → AllZero ret ks
    → total (merge_keys base increments ks ret)
      ≡ total ret +ℤ (sum_of base ks +ℤ sum_of increments ks)
unfolding merge_keys
total-merge_keys base increments [] ret m z = omega int_laws
total-merge_keys base increments (k ∷ ks) ret m z =
    total-merge_keys base increments ks _ m.1 (AllZero-set k _ ret ks m.0 z.1)
    ∙ omega (
      int_laws,
      parts_eq (total-set k (amount_of k base +ℤ amount_of k increments) ret),
      parts_eq z.0,
    )

-- An entry in front adds its amount to the sum over owners among whom its owner stands once.
sum_of-cons :
    (k : String) (v : ℤ) (m : CoinTransferMap) (ks : List String)
    → lookup k m ≡ none
    → Members ks
    → sum_of ((k, v) ∷ m) ks ≡ sum_of m ks +ℤ (if includes k ks then v else pos 0)
unfolding amount_of lookup
sum_of-cons k v m [] h d = omega int_laws
sum_of-cons k v m (j ∷ ks) h d = grind (int_laws, eq_iff k j, eq_iff j k, sum_of-cons k v m ks)

sum_of-nil : (ks : List String) → sum_of [] ks ≡ pos 0
unfolding amount_of lookup
sum_of-nil [] = refl
sum_of-nil (k ∷ ks) = rw (sum_of-nil ks) (omega int_laws)

has-cons : (j k : String) (v : ℤ) (m : CoinTransferMap) → has j m ≡ true → has j ((k, v) ∷ m) ≡ true
unfolding lookup
has-cons j k v m h = ground arith

has-head : (k : String) (v : ℤ) (m : CoinTransferMap) → has k ((k, v) ∷ m) ≡ true
unfolding lookup
has-head k v m = rw (eq_refl k)

-- Over owners without repetition, who include all those of the map, the amounts add up to its total.
total-sum_of :
    (m : CoinTransferMap) (ks : List String)
    → Distinct m
    → Members ks
    → ((k : String) → has k m ≡ true → includes k ks ≡ true)
    → sum_of m ks ≡ total m
unfolding total
total-sum_of [] ks d n c = sum_of-nil ks
total-sum_of ((k, v) ∷ m) ks d n c =
    sum_of-cons k v m ks d.0 n
    ∙ rw (total-sum_of m ks d.1 n (λ j there. c j (has-cons j k v m there)), c k (has-head k v m))
        (omega int_laws)

merged_keys-Members : (base increments : CoinTransferMap) → Members (merged_keys base increments)
unfolding merged_keys
merged_keys-Members base increments = add_keys-Members [] _ tt

AllZero-nil : (ks : List String) → AllZero [] ks
unfolding amount_of lookup
AllZero-nil [] = tt
AllZero-nil (k ∷ ks) = (refl, AllZero-nil ks)

-- Merging adds up the totals.
pub total-merge :
    (base increments : CoinTransferMap)
    → Distinct base
    → Distinct increments
    → total (merge base increments) ≡ total base +ℤ total increments
unfolding merge total
total-merge base increments d e =
    total-merge_keys base increments (merged_keys base increments) []
      (merged_keys-Members base increments) (AllZero-nil (merged_keys base increments))
    ∙ rw
        (
          total-sum_of base (merged_keys base increments) d (merged_keys-Members base increments)
              (λ k h. includes-merged_keys k base increments ∙ rw h),
          total-sum_of increments (merged_keys base increments) e
              (merged_keys-Members base increments)
              (λ k h. includes-merged_keys k base increments ∙ ground arith),
        )
        (zero_+ℤ _)
