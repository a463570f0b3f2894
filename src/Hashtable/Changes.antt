-- ===== src/Hashtable/Changes.antt =====
-- Filling an empty slot and clearing a used one keep a hash table well formed.
use junk.Prelude.{
  ℕ, ◌≡◌, ◌≢◌, refl, sym, ap, ◌∙◌, false, none, some, inl, inr, ℤ, pos, ◌+ℤ◌, get_elem?, set,
  Bool-cases, ◌==◌, ==_iff, ==ℤ_iff, length-set,
}
use mathlib.Core.Bool.{false≢true}
use mathlib.Core.Path.{subst}
use mathlib.Core.Option.{some-injective}
use junk.Hashtable.{Entry, Hashtable, is_empty, find_key, find_empty, cleared, fill}
use junk.Hashtable.Search.{get_elem?-set, get_elem?-set_ne, search_found, search_fill}
use junk.Hashtable.Slots.{
  IsSlot, IsValid, with_slot, Absent, Absent-find_key, find_key_other, ne→false,
}

module _ {A : Type 0} (hash : ℤ → ℕ → ℕ) where
  -- No other slot has the key of a used one.
  key_apart :
      {t : Hashtable A} {i j : ℕ} {old e : Entry A}
      → IsValid hash t
      → get_elem? t.entries j ≡ some old
      → get_elem? t.entries i ≡ some e
      → e.key ≢ pos 0
      → find_key hash t e.key ≡ some (some i)
      → j ≢ i
      → old.key ≢ e.key
  key_apart {t} {i} {j} {old} {e} v there before nonzero found i≢j same =
      elim (v.slot j old there) [
        | inl (_, zero_key) ↦ nonzero (sym same ∙ zero_key)
        | inr (_, _, here) ↦
            i≢j (
              some-injective _ _
                (some-injective _ _ (sym here ∙ ap (find_key hash t) same ∙ found)))
      ]

  with_slot_IsValid :
      (t : Hashtable A) (j : ℕ) (old new : Entry A) (used : ℤ)
      → IsValid hash t
      → get_elem? t.entries j ≡ some old
      → IsSlot hash (with_slot hash t j new used) j new
      → ((i : ℕ) (e : Entry A)
          → get_elem? t.entries i ≡ some e
          → is_empty e ≡ false
          → new.key ≢ e.key)
      → IsValid hash (with_slot hash t j new used)
  with_slot_IsValid t j old new used v there here apart = record {
    full = length-set t.entries j new ∙ v.full;
    positive = v.positive;
    slot = λ i e at. elim (Bool-cases (j == i)) [
      | inl same ↦
          let eq = (==_iff j i).0 same in
          let got = some-injective new e (
            sym (get_elem?-set t.entries j new there)
            ∙ ap (get_elem? (set t.entries j new)) eq
            ∙ at) in
          subst (λ k. IsSlot hash (with_slot hash t j new used) k e) eq
            (subst (λ x. IsSlot hash (with_slot hash t j new used) j x) got here)
      | inr other ↦
          let i≢j : j ≢ i = λ same. false≢true (sym other ∙ (==_iff j i).1 same) in
          let before = sym (get_elem?-set_ne t.entries j i new i≢j) ∙ at in
          elim (v.slot i e before) [
            | inl empty ↦ inl empty
            | inr (used_slot, nonzero, found) ↦ inr (
              used_slot,
              nonzero,
              find_key_other hash t j old new used e.key there
                    (key_apart v there before nonzero found i≢j) (apart i e before used_slot)
                  ∙ found,
            )
          ]
    ];
  }

  -- The values that a table has after a put, a removal or none of these.
  pub fill_IsValid :
      (t : Hashtable A) (j : ℕ) (e : Entry A)
      → IsValid hash t
      → is_empty e ≡ false
      → e.key ≢ pos 0
      → find_key hash t e.key ≡ some none
      → find_empty hash t e.key ≡ some (some j)
      → IsValid hash (fill t j e) × (find_key hash (fill t j e) e.key ≡ some (some j))
  unfolding find_key find_empty
  fill_IsValid t j e v used nonzero missing room =
      let absent = Absent-find_key hash t e.key v nonzero missing in
      let (old, there, empty) = search_found is_empty t.entries t.total_entries _ 10 0 room in
      let found = search_fill t.entries e t.total_entries _ 10 0 absent room in
      (
        with_slot_IsValid t j old e (t.used_entries +ℤ pos 1) v there (inr (used, nonzero, found))
            (λ i x at _ same.
              false≢true (sym (absent i x at) ∙ (==ℤ_iff x.key e.key).1 (sym same))),
        found,
      )

  pub clear_IsValid :
      (t : Hashtable A) (j : ℕ) (old : Entry A) (used : ℤ)
      → IsValid hash t
      → get_elem? t.entries j ≡ some old
      → IsValid hash (with_slot hash t j cleared used)
  clear_IsValid t j old used v there =
      with_slot_IsValid t j old cleared used v there (inl (refl, refl)) λ i e at used_slot same.
        elim (v.slot i e at) [
          | inl (empty, _) ↦ false≢true (sym used_slot ∙ empty)
          | inr (_, nonzero, _) ↦ nonzero (sym same)
        ]

  -- No slot has a key whose slot was cleared.
  pub clear_Absent :
      (t : Hashtable A) (key : ℤ) (i : ℕ) (old : Entry A) (used : ℤ)
      → IsValid hash t
      → key ≢ pos 0
      → find_key hash t key ≡ some (some i)
      → get_elem? t.entries i ≡ some old
      → Absent hash (with_slot hash t i cleared used) key
  clear_Absent t key i old used v nonzero found there k e at = ne→false e.key key λ same.
      elim (Bool-cases (i == k)) [
        | inl eq ↦ nonzero (
            sym same
            ∙ ap (λ x. x.key)
                (some-injective e cleared (
                  sym at
                  ∙ ap (get_elem? (set t.entries i cleared)) (sym ((==_iff i k).0 eq))
                  ∙ get_elem?-set t.entries i cleared there)))
        | inr other ↦
            let i≢k : i ≢ k = λ eq. false≢true (sym other ∙ (==_iff i k).1 eq) in
            elim (v.slot k e (sym (get_elem?-set_ne t.entries i k cleared i≢k) ∙ at)) [
              | inl (_, zero_key) ↦ nonzero (sym same ∙ zero_key)
              | inr (_, _, here) ↦ i≢k (
                  some-injective _ _
                    (some-injective _ _ (sym found ∙ ap (find_key hash t) (sym same) ∙ here)))
            ]
      ]
