-- ===== src/Handle/Fresh.antt =====
-- A new handle is positive and was not in use.
use junk.Prelude.{
  ℕ, zero, suc, ◌≤◌, ◌<◌, ◌≡◌, ◌≢◌, ◌⊎◌, refl, sym, ap, ◌∙◌, Bool, true, false, Option, none, some,
  inl, inr, ◌>>=◌, ℤ, pos, pos_part, ltb_ℤ, ◌==◌, Option-cases, arith,
}
use mathlib.Core.Bool.{false≢true}
use junk.Status.{status_ok, err_no_mem, err_no_resources}
use junk.Hashtable.{Hashtable, hashtable_get, hashtable_put}
use junk.Hashtable.Slots.{IsValid}
use junk.Hashtable.Contents.{content, hashtable_get-content}
use junk.Hashtable.Map.{SameGet, hashtable_put_lem}
use junk.Handle.{max_tag_map_attempts, tag_id_inc, find_id, add_tag_at, add_tag_lookup}

tag_id_inc-ne_zero : (id : ℤ) → (tag_id_inc id == 0) ≡ false
unfolding tag_id_inc
tag_id_inc-ne_zero id = ground arith

inc-positive : (id : ℤ) → ltb_ℤ (pos 0) (pos (tag_id_inc id)) ≡ true
inc-positive id = ground (arith, tag_id_inc-ne_zero id)

positive_ne : (id : ℤ) → ltb_ℤ (pos 0) id ≡ true → id ≢ pos 0
positive_ne id h e = false≢true (sym (ap (ltb_ℤ (pos 0)) e) ∙ h)

pos-ne_zero : (n : ℕ) → (n == 0) ≡ false → pos n ≢ pos 0
pos-ne_zero n h e = ground (arith, ap pos_part e)

module _ {A : Type 0} (hash : ℤ → ℕ → ℕ) where
  abbrev Found : Hashtable A → ℤ × Bool → Type 0
  Found t (id, false) = Unit
  Found t (id, true) = (ltb_ℤ (pos 0) id ≡ true) × (hashtable_get hash (some t) id ≡ some none)

  find_id_lem :
      (t : Hashtable A) (n : ℕ) (id : ℤ)
      → IsValid hash t
      → (r : ℤ × Bool) × (find_id hash (some t) n id ≡ some r) × Found t r
  unfolding find_id
  find_id_lem t zero id v = ((id, false), refl, tt)
  find_id_lem t (suc n) id v =
      let positive = tag_id_inc-ne_zero id in
      let nonzero = pos-ne_zero (tag_id_inc id) positive in
      let got = hashtable_get-content hash t (pos (tag_id_inc id)) v nonzero in
      elim (Option-cases (content t.entries (pos (tag_id_inc id)))) [
        | inl e ↦
            ((pos (tag_id_inc id), true), rw (positive, got, e), (inc-positive id, got ∙ ap some e))
        | inr (x, e) ↦
            let (r, run, found) = find_id_lem t n (pos (tag_id_inc id)) v in
            (r, rw (positive, got, e, run), found)
      ]

  -- The result is a new handle under which the tag is found, or an error and nothing changed.
  abbrev pub Added : Hashtable A → Hashtable A → A → ℤ → Type 0
  Added t t' tag rc =
      ((ltb_ℤ (pos 0) rc ≡ true)
        × (hashtable_get hash (some t) rc ≡ some none)
        × (hashtable_get hash (some t') rc ≡ some (some tag))
        × ((k : ℤ) → k ≢ pos 0 → k ≢ rc → SameGet hash t t' k))
      ⊎ (((rc ≡ err_no_mem) ⊎ (rc ≡ err_no_resources))
          × ((k : ℤ) → k ≢ pos 0 → SameGet hash t t' k))

  abbrev pub Result : Hashtable A → A → Option (Option (Hashtable A) × (ℤ × ℤ)) → Type 0
  Result t tag run =
      (t' : Hashtable A) × (next : ℤ) × (rc : ℤ) × (run ≡ some (some t', (next, rc)))
      × IsValid hash t'
      × Added t t' tag rc

  module _ (can_alloc : ℕ → Bool) where
    put_failed :
        (rounds : ℕ) (t t' : Hashtable A) (tag : A) (id : ℤ)
        → hashtable_put hash can_alloc rounds (some t) id (some tag) ≡ some (some t', err_no_mem)
        → add_tag_at hash can_alloc rounds (some t) tag (id, true)
          ≡ some (some t', (id, err_no_mem))
    unfolding add_tag_at
    put_failed rounds t t' tag id run = rw run

    put_done :
        (rounds : ℕ) (t t' : Hashtable A) (tag : A) (id : ℤ)
        → hashtable_put hash can_alloc rounds (some t) id (some tag) ≡ some (some t', status_ok)
        → add_tag_at hash can_alloc rounds (some t) tag (id, true) ≡ some (some t', (id, id))
    unfolding add_tag_at
    put_done rounds t t' tag id run = rw run

    add_tag_at_lem :
        (limit rounds : ℕ) (t : Hashtable A) (tag : A) (r : ℤ × Bool)
        → ((n : ℕ) → limit ≤ n → can_alloc n ≡ false)
        → limit < rounds
        → IsValid hash t
        → Found t r
        → Result t tag (add_tag_at hash can_alloc rounds (some t) tag r)
    unfolding add_tag_at
    add_tag_at_lem limit rounds t tag (id, false) refused enough v found =
        (t, id, err_no_resources, refl, v, inr (inr refl, λ _ _. refl))
    add_tag_at_lem limit rounds t tag (id, true) refused enough v (positive, free) =
        let (t', rc, run, v', gets) =
          hashtable_put_lem hash can_alloc limit rounds t id tag refused enough v
            (positive_ne id positive) free in
        elim gets [
          | inl (ok, stored, others) ↦ (
            t',
            id,
            id,
            put_done rounds t t' tag id (run ∙ ap (λ c. some (some t', c)) ok),
            v',
            inl (positive, free, stored, others),
          )
          | inr (no_mem, same) ↦ (
            t',
            id,
            err_no_mem,
            put_failed rounds t t' tag id (run ∙ ap (λ c. some (some t', c)) no_mem),
            v',
            inr (inl refl, same),
          )
        ]

    -- Giving a tag a handle in a well-formed table always ends, if `mem_alloc` refuses all sizes
    -- from some limit on, with more rounds than the limit. The table is well formed afterwards.
    -- Either the result is a positive handle that had no tag before: getting it returns the new
    -- tag, and getting any other key but 0 returns what it did. Or the result is NO_MEM or
    -- NO_RESOURCES, and no key but 0 changed.
    pub add_tag_lookup_lem :
        (limit rounds : ℕ) (t : Hashtable A) (next_tag_id : ℤ) (tag : A)
        → ((n : ℕ) → limit ≤ n → can_alloc n ≡ false)
        → limit < rounds
        → IsValid hash t
        → Result t tag (add_tag_lookup hash can_alloc rounds (some t) next_tag_id tag)
    unfolding add_tag_lookup
    add_tag_lookup_lem limit rounds t next_tag_id tag refused enough v =
        let (r, run, found) = find_id_lem t max_tag_map_attempts next_tag_id v in
        let (t', next, rc, added, valid, out) =
          add_tag_at_lem limit rounds t tag r refused enough v found in
        (
          t',
          next,
          rc,
          ap (λ o. o >>= add_tag_at hash can_alloc rounds (some t) tag) run ∙ added,
          valid,
          out,
        )
