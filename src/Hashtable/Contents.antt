-- ===== src/Hashtable/Contents.antt =====
-- The map that the slots of a hash table stand for, with no hash in it.
use junk.Prelude.{
  ℕ, zero, suc, ◌≡◌, ◌≢◌, refl, sym, ap, ◌∙◌, true, false, List, [], ◌∷◌, Option, none, some, inl,
  inr, ℤ, pos, get_elem?, Bool-cases, Option-cases, ==ℤ_iff, ==ℤ_refl, if◌then◌else◌, arith, ◌&&◌,
  not,
}
use mathlib.Core.Bool.{false≢true}
use mathlib.Core.Path.{subst}
use mathlib.Core.Option.{some-injective}
use junk.Hashtable.{Entry, Hashtable, is_empty, has_key, find_key, hashtable_get, value_at}
use junk.Hashtable.Slots.{IsValid, Absent-find_key, find_key_found, find_key_total, ne→false}

module _ {A : Type 0} where
  -- The value of the first used entry with the key.
  unfoldable pub content : List (Entry A) → ℤ → Option A
  content [] key = none
  content (e ∷ es) key = if has_key key e && not (is_empty e) then e.value else content es key

  pub IsUsed : Entry A → ℤ → Type 0
  IsUsed e key = (is_empty e ≡ false) × (e.key ≡ key)

  pub content_empty :
      (e : Entry A) (es : List (Entry A)) (key : ℤ)
      → is_empty e ≡ true
      → content (e ∷ es) key ≡ content es key
  unfolding content
  content_empty e es key empty = ground (arith, empty)

  pub content_absent :
      (es : List (Entry A)) (key : ℤ)
      → ((i : ℕ) (e : Entry A) → get_elem? es i ≡ some e → is_empty e ≡ false → e.key ≢ key)
      → content es key ≡ none
  unfolding content
  content_absent [] key none_there = refl
  content_absent (e ∷ es) key none_there =
      let rest = content_absent es key (λ i. none_there (suc i)) in
      elim (Bool-cases (is_empty e)) [
        | inl empty ↦ ground (arith, empty, rest)
        | inr used ↦ rw (ne→false e.key key (none_there 0 e refl used), rest)
      ]

  pub content_at :
      (es : List (Entry A)) (i : ℕ) (e : Entry A)
      → get_elem? es i ≡ some e
      → is_empty e ≡ false
      → ((j : ℕ) (x : Entry A)
          → get_elem? es j ≡ some x
          → is_empty x ≡ false
          → x.key ≡ e.key
          → j ≡ i)
      → content es e.key ≡ e.value
  unfolding content
  content_at [] i e at used only = cc
  content_at (x ∷ es) zero e at used only =
      subst (λ y. content (y ∷ es) e.key ≡ e.value) (sym (some-injective x e at))
        (rw (==ℤ_refl e.key, used))
  content_at (x ∷ es) (suc i) e at used only =
      let rest =
        content_at es i e at used
          (λ j y at_j used_y same. omega (arith, only (suc j) y at_j used_y same)) in
      elim (Bool-cases (is_empty x)) [
        | inl empty ↦ ground (arith, empty, rest)
        | inr used_x ↦
            rw (ne→false x.key e.key (λ same. omega (arith, only 0 x refl used_x same)), rest)
      ]

module _ {A : Type 0} (hash : ℤ → ℕ → ℕ) where
  pub hashtable_get-content :
      (t : Hashtable A) (key : ℤ)
      → IsValid hash t
      → key ≢ pos 0
      → hashtable_get hash (some t) key ≡ some (content t.entries key)
  unfolding hashtable_get value_at
  hashtable_get-content t key v nonzero =
      let (r, run) = find_key_total hash t key v in
      elim (Option-cases r) [
        | inl e ↦
            let missing = run ∙ ap some e in
            let absent = Absent-find_key hash t key v nonzero missing in
            rw (
              missing,
              content_absent t.entries key
                  (λ i e at _ same. false≢true (sym (absent i e at) ∙ (==ℤ_iff e.key key).1 same)),
            )
        | inr (i, e) ↦
            let found = run ∙ ap some e in
            let (e, at, same) = find_key_found hash t key found in
            elim (v.slot i e at) [
              | inl (_, zero_key) ↦ absurd (nonzero (sym same ∙ zero_key))
              | inr (used, _, _) ↦ rw (
                found,
                at,
                sym same,
                content_at t.entries i e at used (only i e (ap (find_key hash t) same ∙ found)),
              )
            ]
      ]
    where
      only :
          (i : ℕ) (e : Entry A)
          → find_key hash t e.key ≡ some (some i)
          → (j : ℕ) (x : Entry A) → get_elem? t.entries j ≡ some x
          → is_empty x ≡ false
          → x.key ≡ e.key
          → j ≡ i
      only i e found j x at used same = elim (v.slot j x at) [
        | inl (empty, _) ↦ absurd (false≢true (sym used ∙ empty))
        | inr (_, _, here) ↦
            some-injective _ _ (some-injective _ _ (sym here ∙ ap (find_key hash t) same ∙ found))
      ]
