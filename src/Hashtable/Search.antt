-- ===== src/Hashtable/Search.antt =====
-- What `search` of the hash table finds, for any test.
use junk.Prelude.{
  ℕ, zero, suc, ◌+◌, ◌%◌, ◌<◌, ◌≡◌, ◌≢◌, ◌⊎◌, refl, sym, ap, ◌∙◌, Bool, true, false, List, [], ◌∷◌,
  Option, none, some, inl, inr, ◌>>=◌, if◌then◌else◌, arith, length, get_elem?, set, Bool-cases,
  ◌==◌, ==_iff, ==ℤ_refl,
}
use mathlib.Core.Bool.{false≢true}
use mathlib.Core.Option.{some-injective}
use native.Mathlib.Nat.{mod-lt}
use junk.Hashtable.{Entry, search, is_empty, has_key}

module _ {ℓ} {A : Type ℓ} where
  pub get_elem?-some : (xs : List A) (i : ℕ) → i < length xs → (x : A) × (get_elem? xs i ≡ some x)
  get_elem?-some [] i h = elim h [ ]
  get_elem?-some (x ∷ xs) zero h = (x, refl)
  get_elem?-some (x ∷ xs) (suc i) h = get_elem?-some xs i (omega arith)

  pub get_elem?-set :
      (xs : List A) (i : ℕ) (v : A) {x : A}
      → get_elem? xs i ≡ some x
      → get_elem? (set xs i v) i ≡ some v
  get_elem?-set [] i v h = cc
  get_elem?-set (x ∷ xs) zero v h = refl
  get_elem?-set (x ∷ xs) (suc i) v h = get_elem?-set xs i v h

  pub get_elem?-set_ne :
      (xs : List A) (i j : ℕ) (v : A) → i ≢ j → get_elem? (set xs i v) j ≡ get_elem? xs j
  get_elem?-set_ne [] i j v h = refl
  get_elem?-set_ne (x ∷ xs) zero zero v h = absurd (h refl)
  get_elem?-set_ne (x ∷ xs) zero (suc j) v h = refl
  get_elem?-set_ne (x ∷ xs) (suc i) zero v h = refl
  get_elem?-set_ne (x ∷ xs) (suc i) (suc j) v h = get_elem?-set_ne xs i j v (λ e. h (ap suc e))

-- What one round does with the test's answer, where the later rounds give `rest`.
pick : Option Bool → ℕ → Option (Option ℕ) → Option (Option ℕ)
pick none i rest = none
pick (some true) i rest = some (some i)
pick (some false) i rest = rest

module _ {A : Type 0} where
  abbrev pub tested : (Entry A → Bool) → Option (Entry A) → Option Bool
  tested test none = none
  tested test (some e) = some (test e)

  pick_lem :
      (test : Entry A → Bool) (o : Option (Entry A)) (i : ℕ) (rest : Option (Option ℕ))
      → (o >>= λ e. if test e then some (some i) else rest) ≡ pick (tested test o) i rest
  unfolding pick
  pick_lem test none i rest = refl
  pick_lem test (some e) i rest = elim (Bool-cases (test e)) [
    | inl holds ↦ rw holds
    | inr fails ↦ rw fails
  ]

  search_round :
      (test : Entry A → Bool) (es : List (Entry A)) (total initial n iteration : ℕ)
      → search test es total initial (suc n) iteration
        ≡ pick
            (tested test (get_elem? es ((initial + iteration) % total)))
            ((initial + iteration) % total)
            (search test es total initial n (suc iteration))
  unfolding search
  search_round test es total initial n iteration =
      pick_lem test (get_elem? es ((initial + iteration) % total)) _ _

  pub search_ext :
      (test test' : Entry A → Bool) (es es' : List (Entry A)) (total initial n iteration : ℕ)
      → ((i : ℕ) → tested test (get_elem? es i) ≡ tested test' (get_elem? es' i))
      → search test es total initial n iteration ≡ search test' es' total initial n iteration
  unfolding search
  search_ext test test' es es' total initial zero iteration same = refl
  search_ext test test' es es' total initial (suc n) iteration same = rw (
    search_round test es total initial n iteration,
    search_round test' es' total initial n iteration,
    same ((initial + iteration) % total),
    search_ext test test' es es' total initial n (suc iteration) same,
  )

  -- A round sees an entry, which is the one found or fails the test.
  pick_found :
      (test : Entry A → Bool) (o : Option (Entry A)) (i : ℕ) (rest : Option (Option ℕ)) {j : ℕ}
      → pick (tested test o) i rest ≡ some (some j)
      → (e : Entry A) × (o ≡ some e) × ((rest ≡ some (some j)) ⊎ ((test e ≡ true) × (i ≡ j)))
  unfolding pick
  pick_found test none i rest h = cc
  pick_found test (some e) i rest h = elim (Bool-cases (test e)) [
    | inl holds ↦
        (e, refl, inr (holds, some-injective _ _ (some-injective _ _ (rw (holds, pick) at h))))
    | inr fails ↦ (e, refl, inl (rw (fails, pick) at h))
  ]

  pub search_found :
      (test : Entry A → Bool) (es : List (Entry A)) (total initial n iteration : ℕ) {j : ℕ}
      → search test es total initial n iteration ≡ some (some j)
      → (e : Entry A) × (get_elem? es j ≡ some e) × (test e ≡ true)
  unfolding search
  search_found test es total initial zero iteration h = cc
  search_found test es total initial (suc n) iteration h =
      let (e, there, found) =
        pick_found test _ _ _ (sym (search_round test es total initial n iteration) ∙ h) in
      elim found [
        | inl later ↦ search_found test es total initial n (suc iteration) later
        | inr (holds, same) ↦ (e, ap (get_elem? es) (sym same) ∙ there, holds)
      ]

  pub search_total :
      (test : Entry A → Bool) (es : List (Entry A)) (total initial n iteration : ℕ)
      → 0 < total
      → length es ≡ total
      → (r : Option ℕ) × (search test es total initial n iteration ≡ some r)
  unfolding search
  search_total test es total initial zero iteration positive size = (none, refl)
  search_total test es total initial (suc n) iteration positive size =
      let i = (initial + iteration) % total in
      let (r, rest) = search_total test es total initial n (suc iteration) positive size in
      let (e, there) =
        get_elem?-some es i (omega (arith, mod-lt (initial + iteration) positive, size)) in
      elim (Bool-cases (test e)) [
        | inl holds ↦ (some i, rw (search, there, holds))
        | inr fails ↦ (r, rw (search, there, fails, rest))
      ]

  -- The first empty slot, filled with a key that no slot has, is where the key is found.
  pub search_fill :
      (es : List (Entry A)) (new : Entry A) (total initial n iteration : ℕ) {j : ℕ}
      → ((i : ℕ) (e : Entry A) → get_elem? es i ≡ some e → has_key new.key e ≡ false)
      → search is_empty es total initial n iteration ≡ some (some j)
      → search (has_key new.key) (set es j new) total initial n iteration ≡ some (some j)
  unfolding search
  search_fill es new total initial zero iteration fresh h = cc
  search_fill es new total initial (suc n) iteration {j} fresh h =
      let i = (initial + iteration) % total in
      let round = search_round (has_key new.key) (set es j new) total initial n iteration in
      let (e, there, found) =
        pick_found is_empty (get_elem? es i) _ _
          (sym (search_round is_empty es total initial n iteration) ∙ h) in
      elim (Bool-cases (j == i)) [
        | inl same ↦ rw ((==_iff j i).0 same, get_elem?-set es i new there, ==ℤ_refl new.key)
        | inr other ↦ elim found [
          | inr (_, same) ↦ absurd (false≢true (sym other ∙ (==_iff j i).1 (sym same)))
          | inl later ↦ rw (
            get_elem?-set_ne es j i new (λ same. false≢true (sym other ∙ (==_iff j i).1 same)),
            there,
            fresh i e there,
            search_fill es new total initial n (suc iteration) fresh later,
          )
        ]
      ]
