-- ===== src/Apps/Swap.antt =====
-- modules/apps/src/SimpleTwoPartySwapApp/validation.ts, and `calculateExchange` of
-- modules/types/src/math.ts. A rate is not negative; `parseEther` of it is a parameter.
use Prim.Native.String.{String}
use indra.Prelude.{
  str_eq, ℕ, ◌+◌, ◌-◌, ◌*◌, ◌/◌, ◌^◌, ◌≤◌, zero, suc, ℤ, pos, pos_part, neg_part, sub_ℕ, ◌-ℤ◌,
  ltb_ℤ, Bool, true, false, not, ◌&&◌, ◌||◌, Option, none, some, List, [], ◌∷◌, Result, ok, ◌>>=◌,
  ◌>>◌, throw_if, or_throw, if◌then◌else◌, ◌≡◌, ◌↔◌, arith,
}
use indra.Apps.Validation.{ProposeInstall}

pub record AllowedSwap : Type 0 where
  pub from : String
  pub to : String

-- `a.mul(n).div(d)`, which truncates towards zero.
unfoldable pub scale : ℤ → ℕ → ℕ → ℤ
scale a n d = sub_ℕ (pos_part a * n / d) (neg_part a * n / d)

-- `a.abs()`
abbrev abs_ℤ : ℤ → ℤ
abs_ℤ a = pos (pos_part a + neg_part a)

-- The first two parts of `text.split(".")`; the second may be undefined.
unfoldable pub before_dot : String → String
before_dot String.[] = String.[]
before_dot (String.◌∷◌ c s) =
    if str_eq (String.◌∷◌ c String.[]) "." then String.[] else String.◌∷◌ c (before_dot s)

unfoldable pub after_dot : String → Option String
unfolding before_dot
after_dot String.[] = none
after_dot (String.◌∷◌ c s) =
    if str_eq (String.◌∷◌ c String.[]) "." then some (before_dot s) else after_dot s

-- `text.substring(0, n)`
unfoldable pub first_chars : ℕ → String → String
first_chars zero s = String.[]
first_chars (suc n) String.[] = String.[]
first_chars (suc n) (String.◌∷◌ c s) = String.◌∷◌ c (first_chars n s)

unfoldable pub append_text : String → String → String
append_text String.[] t = t
append_text (String.◌∷◌ c s) t = String.◌∷◌ c (append_text s t)

unfoldable pub calculate_exchange : (String → Result ℕ) → ℤ → String → Result ℤ
unfolding before_dot after_dot first_chars append_text scale
calculate_exchange parse_ether amount swap_rate = do
  fractional ← or_throw (after_dot swap_rate) "Cannot read property 'substring' of undefined"
  wad ←
      parse_ether (append_text (before_dot swap_rate) (String.◌∷◌ "." (first_chars 18 fractional)))
  ok (scale amount wad (10 ^ 18))

unfoldable pub allowed_discrepancy_pct : ℕ
allowed_discrepancy_pct = 5

unfoldable pub is_allowed : ProposeInstall → List AllowedSwap → Bool
is_allowed p [] = false
is_allowed p (swap ∷ swaps) =
    (str_eq swap.from p.initiator_deposit_token_address
      && str_eq swap.to p.responder_deposit_token_address)
    || is_allowed p swaps

unfoldable pub validate_simple_swap_app :
    (String → Result ℕ) → ProposeInstall → List AllowedSwap → String → Result (Unit {0})
unfolding calculate_exchange allowed_discrepancy_pct is_allowed scale
validate_simple_swap_app parse_ether p allowed_swaps our_rate = do
  throw_if (not (is_allowed p allowed_swaps)) "Swap is not valid."
  calculated ← calculate_exchange parse_ether p.initiator_deposit our_rate
  throw_if
      (ltb_ℤ (scale calculated (100 - allowed_discrepancy_pct) 100)
        (abs_ℤ (calculated -ℤ p.responder_deposit)))
      "Responder deposit is greater than our expected deposit"

-- A swap whose deposit by the responder is d, where our rate comes to c, is accepted exactly when it is
-- among the allowed ones and d and c are no more than 95 hundredths of c apart.
pub validate_simple_swap_app_iff :
    (parse_ether : String → Result ℕ) (p : ProposeInstall) (allowed_swaps : List AllowedSwap)
    (our_rate : String) (c d : ℕ)
    → p.responder_deposit ≡ pos d
    → calculate_exchange parse_ether p.initiator_deposit our_rate ≡ ok (pos c)
    → (validate_simple_swap_app parse_ether p allowed_swaps our_rate ≡ ok tt)
      ↔ ((is_allowed p allowed_swaps ≡ true) × (c ≤ d + c * 95 / 100) × (d ≤ c + c * 95 / 100))
unfolding validate_simple_swap_app scale allowed_discrepancy_pct ◌-ℤ◌
validate_simple_swap_app_iff parse_ether p allowed_swaps our_rate c d deposit calculated =
    rw (deposit, calculated) (λ h. ground arith, λ h. ground arith)
