-- ===== src/Dict/Laws.antt =====
-- Laws of the dictionaries, in the form of conditionals on the compared keys.
use mathlib.Core.List.{append_assoc, append-nil}
use indra.Prelude.{
  String, str_eq, eq_iff, eq_refl, true, false, ◌≡◌, ◌≢◌, refl, inl, inr, none, some, List, [], ◌∷◌,
  ◌++◌, ◌||◌, sym, subst, ◌∙◌, includes, if◌then◌else◌, arith, Bool-cases,
}
use indra.Dict.{Dict, lookup, has, set, delete, keys, set_all, add_keys}

-- No key stands twice.
abbrev pub Distinct {ℓ} : {V : Type ℓ} → Dict V → Type ℓ
Distinct [] = Unit
Distinct ((k, v) ∷ d) = (lookup k d ≡ none) × Distinct d

module _ {ℓ} {V : Type ℓ} where
  pub lookup-set :
      (j k : String) (v : V) (d : Dict V)
      → lookup j (set k v d) ≡ (if str_eq k j then some v else lookup j d)
  unfolding lookup set
  lookup-set j k v [] = refl
  lookup-set j k v ((i, w) ∷ d) =
      ground (arith, eq_iff k j, eq_iff i k, eq_iff i j, lookup-set j k v d)

  pub lookup-set_self : (k : String) (v : V) (d : Dict V) → lookup k (set k v d) ≡ some v
  lookup-set_self k v d = rw (lookup-set k k v d, eq_refl k)

  pub lookup-delete_ne :
      (j k : String) (d : Dict V) → str_eq k j ≡ false → lookup j (delete k d) ≡ lookup j d
  unfolding lookup delete
  lookup-delete_ne j k [] h = refl
  lookup-delete_ne j k ((i, w) ∷ d) h =
      ground (arith, eq_iff k j, eq_iff i k, eq_iff i j, lookup-delete_ne j k d h)

  pub lookup-delete_self : (k : String) (d : Dict V) → Distinct d → lookup k (delete k d) ≡ none
  unfolding lookup delete
  lookup-delete_self k [] h = refl
  lookup-delete_self k ((i, w) ∷ d) h = ground (arith, eq_iff i k, lookup-delete_self k d h.1)

  pub lookup-delete :
      (j k : String) (d : Dict V)
      → Distinct d
      → lookup j (delete k d) ≡ (if str_eq k j then none else lookup j d)
  lookup-delete j k d h = elim (Bool-cases (str_eq k j)) [
    | inl same ↦ rw same (subst_key same)
    | inr other ↦ rw other (lookup-delete_ne j k d other)
  ]
    where
      subst_key : str_eq k j ≡ true → lookup j (delete k d) ≡ none
      subst_key e = rw (← (eq_iff k j).0 e) (lookup-delete_self k d h)

  -- Deleting a key that was just added gives the dictionary back.
  pub delete-set : (k : String) (v : V) (d : Dict V) → lookup k d ≡ none → delete k (set k v d) ≡ d
  unfolding lookup set delete
  delete-set k v [] h = ground (arith, eq_refl k)
  delete-set k v ((i, w) ∷ d) h = ground (arith, delete-set k v d)

  -- Setting a key to its value again changes nothing.
  pub set-set : (k : String) (v : V) (d : Dict V) → set k v (set k v d) ≡ set k v d
  unfolding set
  set-set k v [] = ground (arith, eq_refl k)
  set-set k v ((i, w) ∷ d) = ground (arith, set-set k v d)

  pub set-Distinct : (k : String) (v : V) (d : Dict V) → Distinct d → Distinct (set k v d)
  unfolding lookup set
  set-Distinct k v [] h = (refl, tt)
  set-Distinct k v ((i, w) ∷ d) h =
      ground (arith, eq_iff i k, eq_iff k i, set-Distinct k v d h.1, lookup-set i k v d)

  pub delete-Distinct : (k : String) (d : Dict V) → Distinct d → Distinct (delete k d)
  unfolding lookup delete
  delete-Distinct k [] h = tt
  delete-Distinct k ((i, w) ∷ d) h =
      ground (arith, eq_iff i k, eq_iff k i, delete-Distinct k d h.1, lookup-delete_ne i k d)

  pub set_all-Distinct : (d es : Dict V) → Distinct d → Distinct (set_all d es)
  unfolding set_all
  set_all-Distinct d [] h = h
  set_all-Distinct d ((k, v) ∷ es) h = set_all-Distinct (set k v d) es (set-Distinct k v d h)

  pub set-append :
      (k : String) (v : V) (d : Dict V) → lookup k d ≡ none → set k v d ≡ d ++ ((k, v) ∷ [])
  unfolding lookup set
  set-append k v [] h = refl
  set-append k v ((i, w) ∷ d) h = ground (arith, set-append k v d)

  lookup-behind : (k : String) (v : V) (d e : Dict V) → lookup k (d ++ ((k, v) ∷ e)) ≢ none
  unfolding lookup
  lookup-behind k v [] e h = ground (arith, eq_refl k)
  lookup-behind k v ((i, w) ∷ d) e h = ground (arith, lookup-behind k v d e)

  -- A key behind `d` in a list without repetition is not in `d`.
  pub lookup-before :
      (k : String) (v : V) (d e : Dict V) → Distinct (d ++ ((k, v) ∷ e)) → lookup k d ≡ none
  unfolding lookup
  lookup-before k v [] e h = refl
  lookup-before k v ((i, w) ∷ d) e h =
      ground (arith, eq_iff i k, lookup-before k v d e h.1, lookup-behind k v d e)

  -- Collecting entries without a repeated key leaves them as they are.
  pub set_all-append : (d es : Dict V) → Distinct (d ++ es) → set_all d es ≡ d ++ es
  unfolding set_all
  set_all-append d [] h = sym (append-nil d)
  set_all-append d ((k, v) ∷ es) h = rw (set-append k v d (lookup-before k v d es h)) (
      set_all-append (d ++ ((k, v) ∷ [])) es (subst Distinct (sym (append_assoc d _ es)) h)
      ∙ append_assoc d ((k, v) ∷ []) es)

  pub includes-keys : (k : String) (d : Dict V) → includes k (keys d) ≡ has k d
  unfolding lookup keys
  includes-keys k [] = refl
  includes-keys k ((i, w) ∷ d) = ground (arith, includes-keys k d)

pub includes-append :
    (k : String) (s t : List String) → includes k (s ++ t) ≡ (includes k s || includes k t)
includes-append k [] t = refl
includes-append k (x ∷ s) t = ground (arith, includes-append k s t)

pub includes-add_keys :
    (k : String) (s ks : List String) → includes k (add_keys s ks) ≡ (includes k s || includes k ks)
unfolding add_keys
includes-add_keys k s [] = ground arith
includes-add_keys k s (x ∷ ks) = elim (Bool-cases (includes x s)) [
  | inl old ↦ rw old (includes-add_keys k s ks ∙ ground (arith, eq_iff x k))
  | inr new ↦
      rw new (includes-add_keys k (s ++ (x ∷ [])) ks ∙ ground (arith, includes-append k s (x ∷ [])))
]

-- No member stands twice.
abbrev pub Members : List String → Type 0
Members [] = Unit
Members (k ∷ ks) = (includes k ks ≡ false) × Members ks

Members-append_one :
    (s : List String) (x : String) → Members s → includes x s ≡ false → Members (s ++ (x ∷ []))
Members-append_one [] x h n = (refl, tt)
Members-append_one (y ∷ s) x h n =
    ground (arith, eq_iff y x, eq_iff x y, Members-append_one s x h.1, includes-append y s (x ∷ []))

pub add_keys-Members : (s ks : List String) → Members s → Members (add_keys s ks)
unfolding add_keys
add_keys-Members s [] h = h
add_keys-Members s (x ∷ ks) h = elim (Bool-cases (includes x s)) [
  | inl old ↦ rw old (add_keys-Members s ks h)
  | inr new ↦ rw new (add_keys-Members (s ++ (x ∷ [])) ks (Members-append_one s x h new))
]
