-- ===== src/Hashtable/Copies.antt =====
-- What `copy_entries` of the hash table leaves in the new table.
use junk.Prelude.{
  ℕ, zero, suc, ◌<◌, ◌≡◌, ◌≢◌, refl, sym, ap, ◌∙◌, false, List, [], ◌∷◌, Option, none, some, inl,
  inr, ℤ, pos, ◌+ℤ◌, get_elem?, Bool-cases, Option-cases, arith, replicate, length-replicate,
  ==ℤ_refl, ==ℤ_iff, ◌==ℤ◌,
}
use mathlib.Core.Bool.{false≢true}
use mathlib.Core.Option.{some-injective}
use junk.Hashtable.{
  Entry, Hashtable, is_empty, find_key, find_empty, hashtable_get, value_at, cleared, fill,
  copy_entries, blank,
}
use junk.Hashtable.Search.{search_found, get_elem?-set}
use junk.Hashtable.Slots.{
  IsValid, find_key-Absent, find_key_other, hashtable_get_other, find_empty_total, ne→false,
}
use junk.Hashtable.Changes.{fill_IsValid}
use junk.Hashtable.Contents.{content, content_absent, content_empty, hashtable_get-content}

ne_zero : {i : ℕ} → suc i ≡ 0 → ⊥
ne_zero h = omega arith

module _ {A : Type 0} where
  -- The used entries have keys that are not 0, and no two have the same.
  pub record IsMap (es : List (Entry A)) : Type 0 where
    pub nonzero :
        (i : ℕ) (e : Entry A) → get_elem? es i ≡ some e → is_empty e ≡ false → e.key ≢ pos 0
    pub unique :
        (i j : ℕ) (e x : Entry A)
        → get_elem? es i ≡ some e
        → get_elem? es j ≡ some x
        → is_empty e ≡ false
        → is_empty x ≡ false
        → e.key ≡ x.key
        → i ≡ j

  pub used_value : (e : Entry A) → is_empty e ≡ false → (v : A) × (e.value ≡ some v)
  used_value e used = elim (Option-cases e.value) [
    | inl nothing ↦ absurd (false≢true (sym used ∙ rw nothing))
    | inr found ↦ found
  ]

  tail_IsMap : {e : Entry A} {es : List (Entry A)} → IsMap (e ∷ es) → IsMap es
  tail_IsMap m = record {
    nonzero = λ i. m.nonzero (suc i);
    unique = λ i j e x at_e at_x used_e used_x same.
        omega (arith, m.unique (suc i) (suc j) e x at_e at_x used_e used_x same);
  }

  abbrev pub or_else : Option A → Option A → Option A
  or_else none g = g
  or_else (some v) g = some v

  all_cleared : (n i : ℕ) (e : Entry A) → get_elem? (replicate n cleared) i ≡ some e → e ≡ cleared
  all_cleared zero i e h = cc
  all_cleared (suc n) zero e h = some-injective _ _ (sym h)
  all_cleared (suc n) (suc i) e h = all_cleared n i e h

module _ {A : Type 0} where
  pub content_blank : (n : ℕ) (key : ℤ) → content (replicate {A = Entry A} n cleared) key ≡ none
  content_blank n key =
      content_absent (replicate n cleared) key
        λ i e at used. absurd (false≢true (sym used ∙ ap is_empty (all_cleared n i e at)))

module _ (A : Type 0) (hash : ℤ → ℕ → ℕ) where
  pub find_key-blank :
      (total salt : ℕ) (key : ℤ)
      → 0 < total
      → key ≢ pos 0
      → find_key {A = A} hash (blank total salt) key ≡ some none
  find_key-blank total salt key positive nonzero =
      find_key-Absent hash (blank total salt) key (length-replicate total cleared) positive
        λ i e at.
          ne→false e.key key
            (λ same. nonzero (sym same ∙ ap (λ x. x.key) (all_cleared total i e at)))

module _ {A : Type 0} (hash : ℤ → ℕ → ℕ) where
  pub blank_IsValid : (total salt : ℕ) → 0 < total → IsValid {A = A} hash (blank total salt)
  blank_IsValid total salt positive = record {
    full = length-replicate total cleared;
    positive = positive;
    slot = λ i e at.
        let same = all_cleared total i e at in inl (ap is_empty same, ap (λ x. x.key) same);
  }

  -- The table after a fill: the new key has its value, and the other keys have theirs.
  pub record Filled (t t' : Hashtable A) (e : Entry A) : Type 0 where
    pub valid : IsValid hash t'
    pub stored : content t'.entries e.key ≡ e.value
    pub others_found :
        (key : ℤ) → key ≢ pos 0 → key ≢ e.key → find_key hash t' key ≡ find_key hash t key
    pub others :
        (key : ℤ) → key ≢ pos 0 → key ≢ e.key → content t'.entries key ≡ content t.entries key

  pub fill-Filled :
      (t : Hashtable A) (j : ℕ) (e : Entry A)
      → IsValid hash t
      → is_empty e ≡ false
      → e.key ≢ pos 0
      → find_key hash t e.key ≡ some none
      → find_empty hash t e.key ≡ some (some j)
      → Filled t (fill t j e) e
  unfolding hashtable_get value_at find_empty
  fill-Filled t j e v used nonzero missing room =
      let (valid, found) = fill_IsValid hash t j e v used nonzero missing room in
      let (old, there, empty) = search_found is_empty t.entries t.total_entries _ 10 0 room in
      let old_zero : old.key ≡ pos 0 = elim (v.slot j old there) [
        | inl (_, zero_key) ↦ zero_key
        | inr (used_old, _, _) ↦ absurd (false≢true (sym used_old ∙ empty))
      ] in
      record {
        valid = valid;
        stored = some-injective _ _ (
            sym (hashtable_get-content hash (fill t j e) e.key valid nonzero)
            ∙ (rw (found, get_elem?-set t.entries j e there)));
        others_found = λ key ne apart.
            find_key_other hash t j old e (t.used_entries +ℤ pos 1) key there
              (λ same. ne (sym same ∙ old_zero)) (λ same. apart (sym same));
        others = λ key ne apart. some-injective _ _ (
            sym (hashtable_get-content hash (fill t j e) key valid ne)
            ∙ hashtable_get_other hash t j old e (t.used_entries +ℤ pos 1) key there
                (λ same. ne (sym same ∙ old_zero)) (λ same. apart (sym same))
            ∙ hashtable_get-content hash t key v ne);
      }

  -- The new table has the copied entries and the ones that it had before.
  pub record Copied (es : List (Entry A)) (new new' : Hashtable A) : Type 0 where
    pub valid : IsValid hash new'
    pub size : new'.total_entries ≡ new.total_entries
    pub same :
        (key : ℤ)
        → key ≢ pos 0
        → content new'.entries key ≡ or_else (content es key) (content new.entries key)

  Copied-step :
      (e : Entry A) (es : List (Entry A)) (new between new' : Hashtable A)
      → IsMap (e ∷ es)
      → is_empty e ≡ false
      → Filled new between e
      → between.total_entries ≡ new.total_entries
      → Copied es between new'
      → Copied (e ∷ es) new new'
  unfolding content
  Copied-step e es new between new' m used filled size rest = record {
    valid = rest.valid;
    size = rest.size ∙ size;
    same = λ key nonzero. elim (Bool-cases (e.key ==ℤ key)) [
      | inl same ↦
          let eq = (==ℤ_iff e.key key).0 same in
          let gone = content_absent es key λ i x at used_x same_x.
            omega (arith, m.unique 0 (suc i) e x refl at used used_x (eq ∙ sym same_x)) in
          let (v, value) = used_value e used in
          rw (rest.same key nonzero, gone, sym eq, filled.stored, ==ℤ_refl e.key, used, value)
      | inr other ↦ rw (
        rest.same key nonzero,
        filled.others key nonzero (λ eq. false≢true (sym other ∙ (==ℤ_iff e.key key).1 (sym eq))),
        other,
      )
    ];
  }

  pub copy_entries_lem :
      (es : List (Entry A)) (new : Hashtable A) (index : Option ℕ)
      → IsMap es
      → IsValid hash new
      → ((i : ℕ) (e : Entry A)
          → get_elem? es i ≡ some e
          → is_empty e ≡ false
          → find_key hash new e.key ≡ some none)
      → (r : Hashtable A × Option ℕ) × (copy_entries hash es new index ≡ some r)
        × ((i : ℕ) → r.1 ≡ some i → Copied es new r.0)
  unfolding copy_entries content
  copy_entries_lem [] new index m v free =
      ((new, index), refl, λ i _. record { valid = v; size = refl; same = λ _ _. refl })
  copy_entries_lem (e ∷ es) new index m v free = elim (Bool-cases (is_empty e)) [
    | inl empty ↦
        let (r, run, spec) = copy_entries_lem es new index (tail_IsMap m) v (λ i. free (suc i)) in
        (
          r,
          rw (empty, run),
          λ i h. record {
            valid = (spec i h).valid;
            size = (spec i h).size;
            same = λ key nonzero.
                (spec i h).same key nonzero
                ∙ ap (λ c. or_else c (content new.entries key))
                    (sym (content_empty e es key empty));
          },
        )
    | inr used ↦
        let (f, room) = find_empty_total hash new e.key v in
        elim (Option-cases f) [
          | inl full ↦ ((new, none), rw (used, room, full), λ i h. cc)
          | inr (j, place) ↦
              let filled =
                fill-Filled new j e v used (m.nonzero 0 e refl used) (free 0 e refl used)
                  (room ∙ ap some place) in
              let (r, run, spec) =
                copy_entries_lem es (fill new j e) (some j) (tail_IsMap m) filled.valid
                  λ i x at used_x.
                    filled.others_found x.key (m.nonzero (suc i) x at used_x)
                      (λ same. ne_zero (m.unique (suc i) 0 x e at refl used_x used same))
                    ∙ free (suc i) x at used_x in
              (
                r,
                rw (used, room, place, run),
                λ i h. Copied-step e es new (fill new j e) r.0 m used filled refl (spec i h),
              )
        ]
  ]
