-- ===== src/Hashtable/Map.antt =====
-- The hash table as a map from the keys but 0: what `hashtable_get` returns after the other
-- operations.
use junk.Prelude.{
  ℕ, ◌≤◌, ◌<◌, ◌≡◌, ◌≢◌, ◌⊎◌, refl, sym, ap, ◌∙◌, Bool, true, false, Option, none, some, inl, inr,
  ℤ, pos, ◌-ℤ◌, get_elem?, Option-cases, arith, leb_ℤ, suc,
}
use mathlib.Core.Option.{some-injective}
use junk.Status.{status_ok, err_no_mem}
use junk.Hashtable.{
  Entry, Hashtable, find_key, value_at, cleared, hashtable_get, hashtable_put, remove_at,
  hashtable_remove, hashtable_create, blank,
}
use junk.Hashtable.Slots.{find_key-Absent}
use junk.Hashtable.Slots.{IsValid, with_slot, find_key_total, find_key_found, hashtable_get_other}
use junk.Hashtable.Changes.{clear_IsValid, clear_Absent}
use junk.Hashtable.Contents.{content, hashtable_get-content}
use junk.Hashtable.Copies.{blank_IsValid, find_key-blank}
use junk.Hashtable.Put.{PutOutcome, put_loop_lem}

not_empty : (n : ℕ) → leb_ℤ (pos (suc n)) (pos 0) ≡ false
not_empty n = ground arith

module _ {A : Type 0} (hash : ℤ → ℕ → ℕ) where
  abbrev pub SameGet : Hashtable A → Hashtable A → ℤ → Type 0
  SameGet t t' key = hashtable_get hash (some t') key ≡ hashtable_get hash (some t) key

  -- The put added the value, or there was no memory and no key changed its value.
  abbrev pub PutGets : Hashtable A → Hashtable A → ℤ → A → ℤ → Type 0
  PutGets t t' key v rc =
      ((rc ≡ status_ok)
        × (hashtable_get hash (some t') key ≡ some (some v))
        × ((k : ℤ) → k ≢ pos 0 → k ≢ key → SameGet t t' k))
      ⊎ ((rc ≡ err_no_mem) × ((k : ℤ) → k ≢ pos 0 → SameGet t t' k))

  same_content :
      (t t' : Hashtable A) (key : ℤ)
      → IsValid hash t
      → IsValid hash t'
      → key ≢ pos 0
      → content t'.entries key ≡ content t.entries key
      → SameGet t t' key
  same_content t t' key v v' nonzero same =
      hashtable_get-content hash t' key v' nonzero
      ∙ ap some same
      ∙ sym (hashtable_get-content hash t key v nonzero)

  outcome_gets :
      (can_alloc : ℕ → Bool) (t : Hashtable A) (key : ℤ) (v : A) (r : Hashtable A × ℤ)
      → IsValid hash t
      → key ≢ pos 0
      → PutOutcome hash can_alloc t (record { value = some v; key = key }) r
      → IsValid hash r.0 × PutGets t r.0 key v r.1
  outcome_gets can_alloc t key v r valid nonzero out = elim out [
    | inl (ok, put) ↦ (
      put.valid,
      inl (
        ok,
        hashtable_get-content hash r.0 key put.valid nonzero ∙ ap some put.stored,
        λ k ne apart. same_content t r.0 k valid put.valid ne (put.others k ne apart),
      ),
    )
    | inr (no_mem, kept) ↦ (
      kept.valid,
      inr (no_mem, λ k ne. same_content t r.0 k valid kept.valid ne (kept.same k ne)),
    )
  ]

  -- Putting a value under a key that is not 0 and has no value yet always ends, if `mem_alloc`
  -- refuses all sizes from some limit on: with more rounds than the limit, the table is well
  -- formed afterwards. Either the result is OK, getting the key returns the value, and getting
  -- any other key but 0 returns what it did; or it is NO_MEM, and that holds of all keys but 0.
  pub hashtable_put_lem :
      (can_alloc : ℕ → Bool) (limit rounds : ℕ) (t : Hashtable A) (key : ℤ) (v : A)
      → ((n : ℕ) → limit ≤ n → can_alloc n ≡ false)
      → limit < rounds
      → IsValid hash t
      → key ≢ pos 0
      → hashtable_get hash (some t) key ≡ some none
      → (t' : Hashtable A) × (rc : ℤ) × (hashtable_put hash can_alloc rounds (some t) key (some v)
          ≡ some (some t', rc))
        × IsValid hash t'
        × PutGets t t' key v rc
  unfolding hashtable_put
  hashtable_put_lem can_alloc limit rounds t key v refused enough valid nonzero missing =
      let nothing : content t.entries key ≡ none =
        some-injective _ _ (sym (hashtable_get-content hash t key valid nonzero) ∙ missing) in
      let (r, run, out) =
        put_loop_lem hash can_alloc limit rounds refused enough rounds t
          (record { value = some v; key = key }) valid refl nonzero nothing (omega (arith, enough))
          (omega (arith, enough)) in
      let (valid', gets) = outcome_gets can_alloc t key v r valid nonzero out in
      (r.0, r.1, rw run, valid', gets)

  remove_some :
      (t : Hashtable A) (key : ℤ) (i : ℕ) (e : Entry A)
      → find_key hash t key ≡ some (some i)
      → get_elem? t.entries i ≡ some e
      → hashtable_remove hash (some t) key
        ≡ some (some (with_slot hash t i cleared (t.used_entries -ℤ pos 1)), e.value)
  unfolding hashtable_remove remove_at
  remove_some t key i e found at = rw (found, at)

  -- Removing a key that is not 0 from a well-formed table returns what getting the key returns.
  -- The table is well formed afterwards, getting the key returns nothing, and getting any other
  -- key but 0 returns what it did.
  pub hashtable_remove_lem :
      (t : Hashtable A) (key : ℤ)
      → IsValid hash t
      → key ≢ pos 0
      → (t' : Hashtable A) × (v : Option A) × (hashtable_remove hash (some t) key
          ≡ some (some t', v))
        × (hashtable_get hash (some t) key ≡ some v)
        × IsValid hash t'
        × (hashtable_get hash (some t') key ≡ some none)
        × ((k : ℤ) → k ≢ pos 0 → k ≢ key → SameGet t t' k)
  unfolding hashtable_remove remove_at hashtable_get value_at
  hashtable_remove_lem t key v nonzero =
      let (r, run) = find_key_total hash t key v in
      elim (Option-cases r) [
        | inl e ↦ (t, none, rw (run, e), rw (run, e), v, rw (run, e), λ _ _ _. refl)
        | inr (i, e) ↦
            let found = run ∙ ap some e in
            let (x, at, same) = find_key_found hash t key found in
            let t' = with_slot hash t i cleared (t.used_entries -ℤ pos 1) in
            let v' = clear_IsValid hash t i x (t.used_entries -ℤ pos 1) v at in
            (
              t',
              x.value,
              remove_some t key i x found at,
              rw (found, at),
              v',
              rw (
                  find_key-Absent hash t' key v'.full v'.positive
                    (clear_Absent hash t key i x (t.used_entries -ℤ pos 1) v nonzero found at)),
              λ k ne apart.
                  hashtable_get_other hash t i x cleared (t.used_entries -ℤ pos 1) k at
                    (λ eq. apart (sym eq ∙ same)) (λ eq. ne (sym eq)),
            )
      ]

  -- Creating a table with a positive capacity for which there is memory gives a well-formed
  -- table in which getting any key but 0 returns nothing.
  pub hashtable_create_lem :
      (can_alloc : ℕ → Bool) (salt n : ℕ)
      → can_alloc (suc n) ≡ true
      → (t : Hashtable A) × (hashtable_create can_alloc true salt (pos (suc n)) ≡ some t)
        × IsValid hash t
        × ((key : ℤ) → key ≢ pos 0 → hashtable_get hash (some t) key ≡ some none)
  unfolding hashtable_create hashtable_get value_at
  hashtable_create_lem can_alloc salt n got = (
    blank (suc n) salt,
    rw (not_empty n, got),
    blank_IsValid hash (suc n) salt (omega arith),
    λ key nonzero. rw (find_key-blank A hash (suc n) salt key (omega arith) nonzero),
  )
