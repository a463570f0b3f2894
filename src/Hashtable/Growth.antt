-- ===== src/Hashtable/Growth.antt =====
-- `expand_table` of the hash table: it ends, and it keeps what the table stands for.
use junk.Prelude.{
  ℕ, zero, suc, ◌+◌, ◌≤◌, ◌<◌, ◌≡◌, ◌≢◌, ◌⊎◌, refl, sym, ap, ◌∙◌, Bool, true, false, Option, none,
  some, inl, inr, ℤ, pos, Bool-cases, Option-cases, arith,
}
use mathlib.Core.Bool.{false≢true}
use mathlib.Core.Option.{some-injective}
use junk.Status.{status_ok, err_no_mem}
use junk.Hashtable.{Hashtable, find_key, copy_entries, blank, grown, expand_loop, expand_table}
use junk.Hashtable.Slots.{IsValid}
use junk.Hashtable.Contents.{content}
use junk.Hashtable.Copies.{
  IsMap, Copied, or_else, blank_IsValid, find_key-blank, copy_entries_lem, content_blank,
}

or_else-none : {A : Type 0} (o : Option A) → or_else o none ≡ o
or_else-none none = refl
or_else-none (some v) = refl

grown-lt : (n : ℕ) → 0 < n → n < grown n
grown-lt n h = ground arith

module _ {A : Type 0} (hash : ℤ → ℕ → ℕ) (can_alloc : ℕ → Bool) where
  valid_IsMap : (t : Hashtable A) → IsValid hash t → IsMap t.entries
  valid_IsMap t v = record {
    nonzero = λ i e at used. elim (v.slot i e at) [
      | inl (empty, _) ↦ absurd (false≢true (sym used ∙ empty))
      | inr (_, nonzero, _) ↦ nonzero
    ];
    unique = λ i j e x at_e at_x used_e used_x same. elim (v.slot i e at_e) [
      | inl (empty, _) ↦ absurd (false≢true (sym used_e ∙ empty))
      | inr (_, _, found_e) ↦ elim (v.slot j x at_x) [
        | inl (empty, _) ↦ absurd (false≢true (sym used_x ∙ empty))
        | inr (_, _, found_x) ↦
            some-injective _ _
              (some-injective _ _ (sym found_e ∙ ap (find_key hash t) same ∙ found_x))
      ]
    ];
  }

  -- The larger table stands for the same map.
  pub record Expanded (t t' : Hashtable A) : Type 0 where
    pub valid : IsValid hash t'
    pub larger : t.total_entries < t'.total_entries
    pub allocated : can_alloc t'.total_entries ≡ true
    pub same : (key : ℤ) → key ≢ pos 0 → content t'.entries key ≡ content t.entries key

  abbrev pub Outcome : Hashtable A → Hashtable A × ℤ → Type 0
  Outcome t r = ((r.1 ≡ status_ok) × Expanded t r.0) ⊎ ((r.1 ≡ err_no_mem) × (r.0 ≡ t))

  abbrev copied_to : Hashtable A → ℕ → Option (Hashtable A × Option ℕ)
  copied_to t total = copy_entries hash t.entries (blank total t.hash_salt) none

  expand_loop_done :
      (n total i : ℕ) (t new : Hashtable A)
      → can_alloc (grown total) ≡ true
      → copied_to t (grown total) ≡ some (new, some i)
      → expand_loop hash can_alloc (suc n) t total ≡ some (new, status_ok)
  unfolding expand_loop
  expand_loop_done n total i t new got run = rw (got, run)

  expand_loop_again :
      (n total : ℕ) (t new : Hashtable A)
      → can_alloc (grown total) ≡ true
      → copied_to t (grown total) ≡ some (new, none)
      → expand_loop hash can_alloc (suc n) t total ≡ expand_loop hash can_alloc n t (grown total)
  unfolding expand_loop
  expand_loop_again n total t new got run = rw (got, run)

  Copied-Expanded :
      (t new : Hashtable A) (total : ℕ)
      → t.total_entries < total
      → can_alloc total ≡ true
      → Copied hash t.entries (blank total t.hash_salt) new
      → Expanded t new
  Copied-Expanded t new total lt got copied = record {
    valid = copied.valid;
    larger = omega (arith, copied.size, lt);
    allocated = ap can_alloc copied.size ∙ got;
    same = λ key nonzero.
        copied.same key nonzero
        ∙ ap (or_else (content t.entries key)) (content_blank total key)
        ∙ or_else-none (content t.entries key);
  }

  -- One attempt: all entries are copied, or there was no room for one.
  attempt :
      (t : Hashtable A) (total : ℕ)
      → IsValid hash t
      → t.total_entries < total
      → can_alloc total ≡ true
      → (new : Hashtable A) × ((copied_to t total ≡ some (new, none))
          ⊎ ((i : ℕ) × (copied_to t total ≡ some (new, some i)) × Expanded t new))
  attempt t total v lt got =
      let m = valid_IsMap t v in
      let positive : 0 < total = omega arith in
      let (c, run, spec) =
        copy_entries_lem hash t.entries (blank total t.hash_salt) none m
          (blank_IsValid hash total t.hash_salt positive)
          (λ i e at used.
            find_key-blank A hash total t.hash_salt e.key positive (m.nonzero i e at used)) in
      elim (Option-cases c.1) [
        | inl e ↦ (c.0, inl (run ∙ ap (λ o. some (c.0, o)) e))
        | inr (i, e) ↦ (
          c.0,
          inr (i, run ∙ ap (λ o. some (c.0, o)) e, Copied-Expanded t c.0 total lt got (spec i e)),
        )
      ]

  expand_loop_lem :
      (limit : ℕ)
      → ((n : ℕ) → limit ≤ n → can_alloc n ≡ false)
      → (rounds total : ℕ) (t : Hashtable A) → IsValid hash t
      → 0 < total
      → t.total_entries ≤ total
      → rounds ≢ 0
      → limit ≤ total + rounds
      → (r : Hashtable A × ℤ) × (expand_loop hash can_alloc rounds t total ≡ some r) × Outcome t r
  unfolding expand_loop
  expand_loop_lem limit refused zero total t v positive le some_rounds room =
      absurd (some_rounds refl)
  expand_loop_lem limit refused (suc n) total t v positive le some_rounds room =
      let lt = grown-lt total positive in
      elim (Bool-cases (can_alloc (grown total))) [
        | inr no_room ↦ ((t, err_no_mem), rw no_room, inr (refl, refl))
        | inl got ↦
            let (new, copied) = attempt t (grown total) v (omega (arith, lt, le)) got in
            elim copied [
              | inr (i, run, expanded) ↦
                  ((new, status_ok), expand_loop_done n total i t new got run, inl (refl, expanded))
              | inl run ↦
                  let more : n ≢ 0 = λ last.
                    false≢true
                      (sym (refused (grown total) (omega (arith, last, lt, room))) ∙ got) in
                  let (r, rest, out) =
                    expand_loop_lem limit refused n (grown total) t v (omega (arith, lt, positive))
                      (omega (arith, le, lt)) more (omega (arith, lt, room)) in
                  (r, expand_loop_again n total t new got run ∙ rest, out)
            ]
      ]

  pub expand_table_lem :
      (limit rounds : ℕ) (t : Hashtable A)
      → ((n : ℕ) → limit ≤ n → can_alloc n ≡ false)
      → limit < rounds
      → IsValid hash t
      → (r : Hashtable A × ℤ) × (expand_table hash can_alloc rounds t ≡ some r) × Outcome t r
  unfolding expand_table
  expand_table_lem limit rounds t refused enough v =
      expand_loop_lem limit refused rounds t.total_entries t v v.positive (omega arith)
        (omega (arith, enough)) (omega (arith, enough))
