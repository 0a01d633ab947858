-- ===== src/Scan/Finds.antt =====
-- What a scan finds.
use indra.Prelude.{
  String, str_eq, eq_iff, eq_refl, ◌>>=◌, Bool, true, false, Option, none, some, List, [], ◌∷◌,
  Result, ok, err, ◌≡◌, ◌≢◌, ◌⊎◌, inl, inr, refl, if◌then◌else◌, arith, subst, sym,
}
use indra.Scan.{
  Create2, AddressHistory, AddressBook, Candidate, get_create2_multisig_address, toxic_bytecodes,
  mastercopies, proxy_factories, or_next, first_some, try_candidate, scan_for_critical_addresses,
}

abbrev pub IsAmong : {A : Type 0} → A → List A → Type 0
IsAmong x [] = ⊥
IsAmong x (y ∷ ys) = (x ≡ y) ⊎ IsAmong x ys

or_next-some :
    {B : Type 0} (r rest : Result (Option B)) {found : B}
    → or_next r rest ≡ ok (some found)
    → (r ≡ ok (some found)) ⊎ (rest ≡ ok (some found))
or_next-some (err message) rest same = cc
or_next-some (ok none) rest same = inr same
or_next-some (ok (some b)) rest same = inl same

or_next-none :
    {B : Type 0} (r rest : Result (Option B))
    → or_next r rest ≡ ok none
    → (r ≡ ok none) × (rest ≡ ok none)
or_next-none (err message) rest same = cc
or_next-none (ok none) rest same = (refl, same)
or_next-none (ok (some b)) rest same = cc

-- Code that does not throw.
abbrev pub Answers : {A : Type 0} → Result A → Type 0
Answers {A} r = (a : A) × (r ≡ ok a)

or_next-Answers :
    {B : Type 0} (r rest : Result (Option B)) → Answers r → Answers rest → Answers (or_next r rest)
or_next-Answers (err message) rest answers others = cc
or_next-Answers (ok none) rest answers others = others
or_next-Answers (ok (some b)) rest answers others = (some b, refl)

module _ {A B : Type 0} (body : A → Result (Option B)) where
  -- What a loop returns was returned by its body for some element.
  first_some-some :
      (xs : List A) {found : B}
      → first_some body xs ≡ ok (some found)
      → (x : A) × IsAmong x xs × (body x ≡ ok (some found))
  unfolding first_some
  first_some-some [] same = cc
  first_some-some (x ∷ xs) same = elim (or_next-some (body x) (first_some body xs) same) [
    | inl here ↦ (x, inl refl, here)
    | inr later ↦ let (y, among, is) = first_some-some xs later in (y, inr among, is)
  ]

  -- A loop that runs to its end has returned nothing for any element.
  first_some-none :
      (xs : List A) → first_some body xs ≡ ok none → (x : A) → IsAmong x xs → body x ≡ ok none
  unfolding first_some
  first_some-none [] same x among = absurd among
  first_some-none (y ∷ xs) same x (inl here) =
      subst (λ z. body z ≡ ok none) (sym here) (or_next-none (body y) _ same).0
  first_some-none (y ∷ xs) same x (inr later) =
      first_some-none xs (or_next-none (body y) _ same).1 x later

  first_some-Answers :
      (xs : List A) → ((x : A) → IsAmong x xs → Answers (body x)) → Answers (first_some body xs)
  unfolding first_some
  first_some-Answers [] answers = (none, refl)
  first_some-Answers (x ∷ xs) answers =
      or_next-Answers (body x) (first_some body xs) (answers x (inl refl))
        (first_some-Answers xs (λ y among. answers y (inr among)))

try_candidate-some :
    (c : Create2) (owners : List String) (expected : String) (x : Candidate) {found : Candidate}
    → try_candidate c owners expected x ≡ ok (some found)
    → (found ≡ x) × (get_create2_multisig_address c owners x ≡ ok expected)
try_candidate-some c owners expected x {found} same = by_address _ refl same
  where
    by_address :
        (r : Result String)
        → get_create2_multisig_address c owners x ≡ r
        → (r >>= λ a. ok (if str_eq a expected then some x else none)) ≡ ok (some found)
        → (found ≡ x) × (get_create2_multisig_address c owners x ≡ ok expected)
    by_address (err message) is goes = cc
    by_address (ok a) is goes = ground (arith, eq_iff a expected)

try_candidate-none :
    (c : Create2) (owners : List String) (expected : String) (x : Candidate)
    → try_candidate c owners expected x ≡ ok none
    → get_create2_multisig_address c owners x ≢ ok expected
try_candidate-none c owners expected x same matches = ground (arith, eq_refl expected)

try_candidate-Answers :
    (c : Create2) (owners : List String) (expected : String) (x : Candidate)
    → Answers (get_create2_multisig_address c owners x)
    → Answers (try_candidate c owners expected x)
try_candidate-Answers c owners expected x (a, is) =
    (if str_eq a expected then some x else none, rw is refl)

module _ (c : Create2) (history : Option AddressHistory) (book : Option AddressBook)
    (more : Option AddressHistory) (owners : List String) (expected : String) where
  -- A candidate of the scan.
  abbrev pub IsScanned : Candidate → Type 0
  IsScanned x =
      IsAmong x.toxic_bytecode (toxic_bytecodes history more)
      × IsAmong x.multisig_mastercopy (mastercopies history book more)
      × IsAmong x.proxy_factory (proxy_factories history more)

  abbrev pub Fits : Candidate → Type 0
  Fits x = get_create2_multisig_address c owners x ≡ ok expected

  abbrev pub IsRightAnswer : Option Candidate → Type 0
  IsRightAnswer (some x) = IsScanned x × Fits x
  IsRightAnswer none = (x : Candidate) → IsScanned x → ¬ Fits x

  abbrev candidate : Bool → String → String → String → Candidate
  candidate legacy_keygen toxic_bytecode multisig_mastercopy proxy_factory = record {
    legacy_keygen = legacy_keygen;
    multisig_mastercopy = multisig_mastercopy;
    proxy_factory = proxy_factory;
    toxic_bytecode = toxic_bytecode;
  }

  abbrev tried : Bool → String → String → String → Result (Option Candidate)
  tried l t m f = try_candidate c owners expected (candidate l t m f)

  abbrev over_factories : Bool → String → String → Result (Option Candidate)
  over_factories l t m = first_some (tried l t m) (proxy_factories history more)

  abbrev over_mastercopies : Bool → String → Result (Option Candidate)
  over_mastercopies l t = first_some (over_factories l t) (mastercopies history book more)

  abbrev over_bytecodes : Bool → Result (Option Candidate)
  over_bytecodes l = first_some (over_mastercopies l) (toxic_bytecodes history more)

  abbrev scan : Result (Option Candidate)
  scan = scan_for_critical_addresses c history book more owners expected

  some-right : (found : Candidate) → scan ≡ ok (some found) → IsScanned found × Fits found
  unfolding scan_for_critical_addresses
  some-right found same =
      let (l, legacy, at_l) = first_some-some over_bytecodes (false ∷ true ∷ []) same in
      let (t, bytecode, at_t) =
        first_some-some (over_mastercopies l) (toxic_bytecodes history more) at_l in
      let (m, mastercopy, at_m) =
        first_some-some (over_factories l t) (mastercopies history book more) at_t in
      let (f, factory, at_f) = first_some-some (tried l t m) (proxy_factories history more) at_m in
      let (is, fits) = try_candidate-some c owners expected (candidate l t m f) at_f in
      subst (λ x. IsScanned x × Fits x) (sym is) ((bytecode, mastercopy, factory), fits)

  either : (l : Bool) → IsAmong l (false ∷ true ∷ [])
  either false = inl refl
  either true = inr (inl refl)

  none-right : scan ≡ ok none → (x : Candidate) → IsScanned x → ¬ Fits x
  unfolding scan_for_critical_addresses
  none-right same x (bytecode, mastercopy, factory) =
      let at_l =
        first_some-none over_bytecodes (false ∷ true ∷ []) same x.legacy_keygen
          (either x.legacy_keygen) in
      let at_t =
        first_some-none (over_mastercopies x.legacy_keygen) (toxic_bytecodes history more) at_l
          x.toxic_bytecode bytecode in
      let at_m =
        first_some-none (over_factories x.legacy_keygen x.toxic_bytecode)
          (mastercopies history book more) at_t x.multisig_mastercopy mastercopy in
      let at_f =
        first_some-none (tried x.legacy_keygen x.toxic_bytecode x.multisig_mastercopy)
          (proxy_factories history more) at_m x.proxy_factory factory in
      try_candidate-none c owners expected x at_f

  -- Where the address can be computed for every candidate of the scan's lists, the scan gives an
  -- answer: a candidate of its lists with which the address of the multisig is the expected one, or
  -- nothing, and then no candidate of its lists is one.
  pub scan_for_critical_addresses-IsRightAnswer :
      ((x : Candidate) → IsScanned x → Answers (get_create2_multisig_address c owners x))
      → (answer : Option Candidate) × (scan_for_critical_addresses c history book more owners
            expected
          ≡ ok answer)
        × IsRightAnswer answer
  unfolding scan_for_critical_addresses
  scan_for_critical_addresses-IsRightAnswer computed = judge answers.0 answers.1
    where
      answers : Answers scan
      answers = first_some-Answers over_bytecodes (false ∷ true ∷ []) (λ l _.
          first_some-Answers (over_mastercopies l) (toxic_bytecodes history more) (λ t bytecode.
            first_some-Answers (over_factories l t) (mastercopies history book more)
              (λ m mastercopy.
                first_some-Answers (tried l t m) (proxy_factories history more) (λ f factory.
                  try_candidate-Answers c owners expected (candidate l t m f)
                    (computed _ (bytecode, mastercopy, factory))))))

      judge :
          (o : Option Candidate)
          → scan ≡ ok o
          → (answer : Option Candidate) × (scan ≡ ok answer) × IsRightAnswer answer
      judge none same = (none, same, none-right same)
      judge (some x) same = (some x, same, some-right x same)
