-- ===== src/Hashtable/Put.antt =====
-- `hashtable_put`: the loop that grows the table until there is room for the new entry.
use junk.Prelude.{
  ℕ, zero, suc, ◌+◌, ◌≤◌, ◌<◌, ◌≡◌, ◌≢◌, ◌⊎◌, refl, sym, ap, ◌∙◌, Bool, false, none, some, inl, inr,
  ℤ, pos, Option-cases, arith,
}
use mathlib.Core.Bool.{false≢true}
use mathlib.Core.Option.{some-injective, none-ne-some}
use junk.Status.{status_ok, err_no_mem}
use junk.Hashtable.{
  Entry, Hashtable, is_empty, find_key, find_empty, value_at, hashtable_get, expand_table, fill,
  put_loop,
}
use junk.Hashtable.Slots.{IsValid, find_key_total, find_key_found, find_empty_total}
use junk.Hashtable.Contents.{content, hashtable_get-content}
use junk.Hashtable.Copies.{fill-Filled, used_value}
use junk.Hashtable.Growth.{Expanded, expand_table_lem}

module _ {A : Type 0} (hash : ℤ → ℕ → ℕ) (can_alloc : ℕ → Bool) where
  pub find_key_no_content :
      (t : Hashtable A) (key : ℤ)
      → IsValid hash t
      → key ≢ pos 0
      → content t.entries key ≡ none
      → find_key hash t key ≡ some none
  unfolding hashtable_get value_at
  find_key_no_content t key v nonzero missing =
      let (r, run) = find_key_total hash t key v in
      elim (Option-cases r) [
        | inl e ↦ run ∙ ap some e
        | inr (i, e) ↦
            let found = run ∙ ap some e in
            let (x, at, same) = find_key_found hash t key found in
            let got : some x.value ≡ some (content t.entries key) =
              rw (found, at) at (hashtable_get-content hash t key v nonzero) in
            elim (v.slot i x at) [
              | inl (_, zero_key) ↦ absurd (nonzero (sym same ∙ zero_key))
              | inr (used, _, _) ↦
                  let (y, value) = used_value x used in
                  absurd (none-ne-some y (sym missing ∙ sym (some-injective _ _ got) ∙ value))
            ]
      ]

  -- What the table stands for after a put: the new entry was added, or there was no memory.
  pub record Stored (t t' : Hashtable A) (e : Entry A) : Type 0 where
    pub valid : IsValid hash t'
    pub stored : content t'.entries e.key ≡ e.value
    pub others :
        (key : ℤ) → key ≢ pos 0 → key ≢ e.key → content t'.entries key ≡ content t.entries key

  pub record Kept (t t' : Hashtable A) : Type 0 where
    pub valid : IsValid hash t'
    pub same : (key : ℤ) → key ≢ pos 0 → content t'.entries key ≡ content t.entries key

  abbrev pub PutOutcome : Hashtable A → Entry A → Hashtable A × ℤ → Type 0
  PutOutcome t e r = ((r.1 ≡ status_ok) × Stored t r.0 e) ⊎ ((r.1 ≡ err_no_mem) × Kept t r.0)

  after_growth :
      (t between : Hashtable A) (e : Entry A) (r : Hashtable A × ℤ)
      → e.key ≢ pos 0
      → Expanded hash can_alloc t between
      → PutOutcome between e r
      → PutOutcome t e r
  after_growth t between e r nonzero grown out = elim out [
    | inl (ok, put) ↦ inl (
      ok,
      record {
        valid = put.valid;
        stored = put.stored;
        others = λ key ne apart. put.others key ne apart ∙ grown.same key ne;
      },
    )
    | inr (no_mem, kept) ↦ inr (
      no_mem,
      record { valid = kept.valid; same = λ key ne. kept.same key ne ∙ grown.same key ne },
    )
  ]

  put_loop_grow :
      (rounds n : ℕ) (t new : Hashtable A) (e : Entry A)
      → find_empty hash t e.key ≡ some none
      → expand_table hash can_alloc rounds t ≡ some (new, status_ok)
      → put_loop hash can_alloc rounds (suc n) t e ≡ put_loop hash can_alloc rounds n new e
  unfolding put_loop
  put_loop_grow rounds n t new e full run = rw (full, run)

  put_loop_fail :
      (rounds n : ℕ) (t new : Hashtable A) (e : Entry A)
      → find_empty hash t e.key ≡ some none
      → expand_table hash can_alloc rounds t ≡ some (new, err_no_mem)
      → put_loop hash can_alloc rounds (suc n) t e ≡ some (new, err_no_mem)
  unfolding put_loop
  put_loop_fail rounds n t new e full run = rw (full, run)

  pub put_loop_lem :
      (limit rounds : ℕ)
      → ((n : ℕ) → limit ≤ n → can_alloc n ≡ false)
      → limit < rounds
      → (n : ℕ) (t : Hashtable A) (e : Entry A) → IsValid hash t
      → is_empty e ≡ false
      → e.key ≢ pos 0
      → content t.entries e.key ≡ none
      → n ≢ 0
      → limit ≤ t.total_entries + n
      → (r : Hashtable A × ℤ) × (put_loop hash can_alloc rounds n t e ≡ some r) × PutOutcome t e r
  unfolding put_loop
  put_loop_lem limit rounds refused enough zero t e v used nonzero missing more room =
      absurd (more refl)
  put_loop_lem limit rounds refused enough (suc n) t e v used nonzero missing more room =
      let (f, searched) = find_empty_total hash t e.key v in
      elim (Option-cases f) [
        | inr (j, place) ↦
            let filled =
              fill-Filled hash t j e v used nonzero (find_key_no_content t e.key v nonzero missing)
                (searched ∙ ap some place) in
            (
              (fill t j e, status_ok),
              rw (searched, place),
              inl (
                refl,
                record { valid = filled.valid; stored = filled.stored; others = filled.others },
              ),
            )
        | inl full ↦
            let (r, run, out) = expand_table_lem hash can_alloc limit rounds t refused enough v in
            elim out [
              | inr (no_mem, same) ↦ (
                (t, err_no_mem),
                put_loop_fail rounds n t t e (searched ∙ ap some full)
                    (run ∙ ap (λ s. some (r.0, s)) no_mem ∙ ap (λ x. some (x, err_no_mem)) same),
                inr (refl, record { valid = v; same = λ _ _. refl }),
              )
              | inl (ok, grown) ↦
                  let again : n ≢ 0 = λ last. false≢true (
                    sym (refused r.0.total_entries (omega (arith, last, room, grown.larger)))
                    ∙ grown.allocated) in
                  let (r', rest, out') =
                    put_loop_lem limit rounds refused enough n r.0 e grown.valid used nonzero
                      (grown.same e.key nonzero ∙ missing) again
                      (omega (arith, room, grown.larger)) in
                  (
                    r',
                    put_loop_grow rounds n t r.0 e (searched ∙ ap some full)
                          (run ∙ ap (λ s. some (r.0, s)) ok)
                        ∙ rest,
                    after_growth t r.0 e r' nonzero grown out',
                  )
            ]
      ]
