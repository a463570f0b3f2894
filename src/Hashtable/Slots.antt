-- ===== src/Hashtable/Slots.antt =====
-- When a hash table is well formed, and what happens to the other keys when one slot changes.
use junk.Prelude.{
  ℕ, ◌<◌, ◌≡◌, ◌≢◌, ◌⊎◌, refl, sym, ap, ◌∙◌, true, false, Option, none, some, inl, inr, ℤ, pos,
  length, get_elem?, set, Bool-cases, Option-cases, ◌==◌, ==_iff, ==ℤ_iff, ◌==ℤ◌,
}
use mathlib.Core.Bool.{false≢true}
use mathlib.Core.Option.{some-injective, none-ne-some}
use junk.Hashtable.{
  Entry, Hashtable, is_empty, has_key, find_key, find_empty, hashtable_get, value_at,
}
use junk.Hashtable.Search.{get_elem?-set, get_elem?-set_ne, search_ext, search_found, search_total}

pub ne→false : (a b : ℤ) → a ≢ b → (a ==ℤ b) ≡ false
ne→false a b h = elim (Bool-cases (a ==ℤ b)) [ inl e ↦ absurd (h ((==ℤ_iff a b).0 e)) | inr e ↦ e ]

module _ {A : Type 0} (hash : ℤ → ℕ → ℕ) where
  -- An empty slot has the key 0; a used one has another key, and is where that key is found.
  abbrev pub IsSlot : Hashtable A → ℕ → Entry A → Type 0
  IsSlot t i e =
      ((is_empty e ≡ true) × (e.key ≡ pos 0))
      ⊎ ((is_empty e ≡ false) × (e.key ≢ pos 0) × (find_key hash t e.key ≡ some (some i)))

  pub record IsValid (t : Hashtable A) : Type 0 where
    pub full : length t.entries ≡ t.total_entries
    pub positive : 0 < t.total_entries
    pub slot : (i : ℕ) (e : Entry A) → get_elem? t.entries i ≡ some e → IsSlot t i e

  abbrev pub with_slot : Hashtable A → ℕ → Entry A → ℤ → Hashtable A
  with_slot t j new used = record t { entries = set t.entries j new; used_entries = used }

  abbrev pub Absent : Hashtable A → ℤ → Type 0
  Absent t key = (i : ℕ) (e : Entry A) → get_elem? t.entries i ≡ some e → has_key key e ≡ false

  pub find_key-Absent :
      (t : Hashtable A) (key : ℤ)
      → length t.entries ≡ t.total_entries
      → 0 < t.total_entries
      → Absent t key
      → find_key hash t key ≡ some none
  unfolding find_key
  find_key-Absent t key size positive absent =
      let (r, run) = search_total (has_key key) t.entries t.total_entries _ 10 0 positive size in
      elim (Option-cases r) [
        | inl e ↦ run ∙ ap some e
        | inr (i, e) ↦
            let (x, there, holds) =
              search_found (has_key key) t.entries t.total_entries _ 10 0 (run ∙ ap some e) in
            absurd (false≢true (sym (absent i x there) ∙ holds))
      ]

  pub Absent-find_key :
      (t : Hashtable A) (key : ℤ)
      → IsValid t
      → key ≢ pos 0
      → find_key hash t key ≡ some none
      → Absent t key
  Absent-find_key t key v ne missing i e there = ne→false e.key key λ same.
      elim (v.slot i e there) [
        | inl (_, zero_key) ↦ ne (sym same ∙ zero_key)
        | inr (_, _, found) ↦ absurd (
            none-ne-some _
              (some-injective _ _ (sym missing ∙ ap (find_key hash t) (sym same) ∙ found)))
      ]

  -- A change of one slot, from another key to another key, does not matter to a key.
  pub find_key_other :
      (t : Hashtable A) (j : ℕ) (old new : Entry A) (used key : ℤ)
      → get_elem? t.entries j ≡ some old
      → old.key ≢ key
      → new.key ≢ key
      → find_key hash (with_slot t j new used) key ≡ find_key hash t key
  unfolding find_key
  find_key_other t j old new used key there ne ne' =
      search_ext (has_key key) (has_key key) _ _ t.total_entries _ 10 0 λ i.
        elim (Bool-cases (j == i)) [
          | inl same ↦ rw (
            sym ((==_iff j i).0 same),
            get_elem?-set t.entries j new there,
            there,
            ne→false _ _ ne,
            ne→false _ _ ne',
          )
          | inr other ↦ rw (
              get_elem?-set_ne t.entries j i new
                (λ same. false≢true (sym other ∙ (==_iff j i).1 same)))
        ]

  pub find_key_total :
      (t : Hashtable A) (key : ℤ) → IsValid t → (r : Option ℕ) × (find_key hash t key ≡ some r)
  unfolding find_key
  find_key_total t key v =
      search_total (has_key key) t.entries t.total_entries _ 10 0 v.positive v.full

  pub find_empty_total :
      (t : Hashtable A) (key : ℤ) → IsValid t → (r : Option ℕ) × (find_empty hash t key ≡ some r)
  unfolding find_empty
  find_empty_total t key v =
      search_total is_empty t.entries t.total_entries _ 10 0 v.positive v.full

  pub find_key_found :
      (t : Hashtable A) (key : ℤ) {i : ℕ}
      → find_key hash t key ≡ some (some i)
      → (e : Entry A) × (get_elem? t.entries i ≡ some e) × (e.key ≡ key)
  unfolding find_key
  find_key_found t key h =
      let (e, there, holds) = search_found (has_key key) t.entries t.total_entries _ 10 0 h in
      (e, there, (==ℤ_iff e.key key).0 holds)

  value_at_other :
      (t : Hashtable A) (j : ℕ) (old new : Entry A) (used key : ℤ) (r : Option ℕ)
      → get_elem? t.entries j ≡ some old
      → old.key ≢ key
      → find_key hash t key ≡ some r
      → value_at (with_slot t j new used) r ≡ value_at t r
  unfolding value_at
  value_at_other t j old new used key none there ne h = refl
  value_at_other t j old new used key (some i) there ne h =
      let (e, here, same_key) = find_key_found t key h in
      let apart : j ≢ i = λ same. ne (
        ap (λ x. x.key) (some-injective old e (sym there ∙ ap (get_elem? t.entries) same ∙ here))
        ∙ same_key) in
      rw (get_elem?-set_ne t.entries j i new apart)

  pub hashtable_get_other :
      (t : Hashtable A) (j : ℕ) (old new : Entry A) (used key : ℤ)
      → get_elem? t.entries j ≡ some old
      → old.key ≢ key
      → new.key ≢ key
      → hashtable_get hash (some (with_slot t j new used)) key ≡ hashtable_get hash (some t) key
  unfolding hashtable_get
  hashtable_get_other t j old new used key there ne ne' =
      let found = find_key_other t j old new used key there ne ne' in
      elim (Option-cases (find_key hash t key)) [
        | inl e ↦ rw (found, e)
        | inr (r, e) ↦ rw (found, e, value_at_other t j old new used key r there ne e)
      ]
