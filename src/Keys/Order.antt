-- ===== src/Keys/Order.antt =====
-- What the order of addresses depends on.
use indra.Prelude.{ℕ, String, true, false, ◌≡◌, ◌⊎◌, ◌↔◌, Option, none, some, [], ◌∷◌, ◌||◌, arith}
use indra.Keys.{parse_int_16, number_lt, comes_before, sort_addresses}

number_lt_asymm : (x y : Option ℕ) → number_lt x y ≡ true → number_lt y x ≡ false
unfolding number_lt
number_lt_asymm none y h = cc
number_lt_asymm (some x) none h = cc
number_lt_asymm (some x) (some y) h = ground arith

comes_before_asymm : (a b : String) → comes_before a b ≡ true → comes_before b a ≡ false
unfolding comes_before
comes_before_asymm a b h = number_lt_asymm (parse_int_16 a) (parse_int_16 b) h

-- The two parties of a channel compute the same order, whichever of the two addresses each starts
-- from, exactly when the addresses are the same or one of them comes before the other.
pub sort_addresses-pair :
    (a b : String)
    → (sort_addresses (a ∷ b ∷ []) ≡ sort_addresses (b ∷ a ∷ []))
      ↔ ((a ≡ b) ⊎ ((comes_before a b || comes_before b a) ≡ true))
unfolding sort_addresses
sort_addresses-pair a b =
    (λ h. ground (arith, comes_before_asymm a b), λ h. ground (arith, comes_before_asymm a b))

-- Two addresses that are sorted stay as they are.
pub sort_addresses-sorted :
    (a b : String) → sort_addresses (sort_addresses (a ∷ b ∷ [])) ≡ sort_addresses (a ∷ b ∷ [])
unfolding sort_addresses
sort_addresses-sorted a b = ground (arith, comes_before_asymm b a)
