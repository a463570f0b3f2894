-- ===== src/Hashtable/Visiting.antt =====
-- The functions of the hash table that go through its slots, and what `hashtable_on_each` visits.
-- The state that its callback works on, the context, is passed on.
use junk.Prelude.{
  ℕ, zero, suc, ◌+◌, ◌<◌, ◌≡◌, refl, sym, ap, ◌∙◌, false, List, [], ◌∷◌, Option, none, some,
  if◌then◌else◌, ◌>>=◌, ℤ, pos, pos_part, ◌==ℤ◌, ◌&&◌, leb_ℤ, ltb_ℤ, ltb, lt→ltb, apply-if, ◌≤◌,
  get_elem?, drop, length, arith, Option-cases, inl, inr,
}
use junk.Status.{status_ok, err_null_ptr}
use junk.Hashtable.{Entry, Hashtable}

ltb_end : (i n : ℕ) → n ≤ i → ltb i n ≡ false
ltb_end i n h = ground arith

module _ {A : Type 0} where
  unfoldable pub hashtable_capacity : Option (Hashtable A) → ℤ
  hashtable_capacity none = err_null_ptr
  hashtable_capacity (some t) = pos t.total_entries

  unfoldable pub hashtable_entries : Option (Hashtable A) → ℤ
  hashtable_entries none = err_null_ptr
  hashtable_entries (some t) = t.used_entries

  unfoldable pub hashtable_get_index : Option (Hashtable A) → ℤ → Option (Option A)
  hashtable_get_index none index = some none
  hashtable_get_index (some t) index =
      if leb_ℤ (pos 0) index && ltb_ℤ index (pos t.total_entries)
      then (get_elem? t.entries (pos_part index) >>= λ e. some e.value)
      else some none

  module _ {S : Type 0} (callback_func : Hashtable A → ℤ → A → S → Hashtable A × (S × ℤ)) where
    -- The loop. The callback gets the table and may change it, so that the loop reads it again in
    -- each round; the first argument bounds the number of rounds.
    unfoldable pub each_from : ℕ → Hashtable A → ℕ → S → Option (Hashtable A × (S × ℤ))
    each_from zero t i s = none
    each_from (suc n) t i s =
        if ltb i t.total_entries
        then (get_elem? t.entries i >>= λ e. elim e.value [
          | none ↦ each_from n t (suc i) s
          | some v ↦
              let (t', (s', rc)) = callback_func t e.key v s in
              let rest = each_from n t' (suc i) s' in
              if rc ==ℤ status_ok then rest else some (t', (s', rc))
        ])
        else some (t, (s, status_ok))

    -- A null table is only warned of, and then used.
    unfoldable pub hashtable_on_each : ℕ → Option (Hashtable A) → S → Option (Hashtable A × (S × ℤ))
    hashtable_on_each rounds none s = none
    hashtable_on_each rounds (some t) s = each_from rounds t 0 s

  module _ {S : Type 0} (call : ℤ → A → S → S × ℤ) where
    -- Visiting the keys and values of a list, up to the first call that fails.
    unfoldable pub visit : List (ℤ × A) → S → S × ℤ
    visit [] s = (s, status_ok)
    visit ((key, v) ∷ rest) s =
        let (s', rc) = call key v s in
        let later = visit rest s' in if rc ==ℤ status_ok then later else (s', rc)

  abbrev pub add_occupied : ℤ → Option A → List (ℤ × A) → List (ℤ × A)
  add_occupied key none rest = rest
  add_occupied key (some v) rest = (key, v) ∷ rest

  -- The keys and values in the slots, in their order.
  abbrev pub occupied : List (Entry A) → List (ℤ × A)
  occupied [] = []
  occupied (e ∷ es) = add_occupied e.key e.value (occupied es)

  drop_at :
      (es : List (Entry A)) (i : ℕ)
      → i < length es
      → (e : Entry A) × (get_elem? es i ≡ some e) × (drop i es ≡ e ∷ drop (suc i) es)
  drop_at [] i h = absurd (omega arith)
  drop_at (e ∷ []) zero h = (e, refl, refl)
  drop_at (e ∷ (f ∷ es)) zero h = (e, refl, refl)
  drop_at (e ∷ es) (suc i) h = drop_at es i (omega arith)

  drop_end : (es : List (Entry A)) (i : ℕ) → i ≡ length es → drop i es ≡ []
  drop_end [] zero h = refl
  drop_end [] (suc i) h = refl
  drop_end (e ∷ es) zero h = absurd (omega arith)
  drop_end (e ∷ es) (suc i) h = drop_end es i (omega arith)

  occupied-none :
      (e : Entry A) (es : List (Entry A)) → e.value ≡ none → occupied (e ∷ es) ≡ occupied es
  occupied-none e es h = ap (λ o. add_occupied e.key o (occupied es)) h

  occupied-some :
      (e : Entry A) (es : List (Entry A)) (v : A)
      → e.value ≡ some v
      → occupied (e ∷ es) ≡ (e.key, v) ∷ occupied es
  occupied-some e es v h = ap (λ o. add_occupied e.key o (occupied es)) h

  module _ {S : Type 0} (callback_func : Hashtable A → ℤ → A → S → Hashtable A × (S × ℤ)) where
    -- The callback leaves the table as it is.
    abbrev pub LeavesTable : Type 0
    LeavesTable = (t : Hashtable A) (key : ℤ) (v : A) (s : S) → (callback_func t key v s).0 ≡ t

    -- What the callback does to its context, and returns, on a table.
    abbrev pub call_on : Hashtable A → ℤ → A → S → S × ℤ
    call_on t key v s = (callback_func t key v s).1

    step_none :
        (t : Hashtable A) (n i : ℕ) (s : S) (e : Entry A)
        → i < t.total_entries
        → get_elem? t.entries i ≡ some e
        → e.value ≡ none
        → each_from callback_func (suc n) t i s ≡ each_from callback_func n t (suc i) s
    unfolding each_from
    step_none t n i s e inside here no_value =
        rw (lt→ltb i t.total_entries inside, here, no_value) refl

    step_some :
        (t : Hashtable A) (n i : ℕ) (s : S) (e : Entry A) (v : A)
        → LeavesTable
        → i < t.total_entries
        → get_elem? t.entries i ≡ some e
        → e.value ≡ some v
        → each_from callback_func (suc n) t i s
          ≡ let called = call_on t e.key v s in
            if called.1 ==ℤ status_ok
            then each_from callback_func n t (suc i) called.0
            else some (t, called)
    unfolding each_from
    step_some t n i s e v leaves inside here value =
        rw (lt→ltb i t.total_entries inside, here, value)
          (ap
            (λ u.
              if (call_on t e.key v s).1 ==ℤ status_ok
              then each_from callback_func n u (suc i) (call_on t e.key v s).0
              else some (u, call_on t e.key v s))
            (leaves t e.key v s))

    each_from-visit :
        (t : Hashtable A) (n i m : ℕ) (s : S)
        → LeavesTable
        → length t.entries ≡ t.total_entries
        → i + m ≡ t.total_entries
        → m < n
        → each_from callback_func n t i s
          ≡ some (t, visit (call_on t) (occupied (drop i t.entries)) s)
    unfolding each_from visit
    each_from-visit t zero i m s leaves size h enough = absurd (omega arith)
    each_from-visit t (suc n) i zero s leaves size h enough =
        rw (drop_end t.entries i (omega arith), ltb_end i t.total_entries (omega arith)) refl
    each_from-visit t (suc n) i (suc m) s leaves size h enough =
        let (e, here, front) = drop_at t.entries i (omega arith) in
        let inside : i < t.total_entries = omega arith in
        let after = drop (suc i) t.entries in
        let rest =
          λ (s' : S). each_from-visit t n (suc i) m s' leaves size (omega arith) (omega arith) in
        elim (Option-cases e.value) [
          | inl no_value ↦
              step_none t n i s e inside here no_value
              ∙ rest s
              ∙ ap (λ l. some (t, visit (call_on t) l s))
                  (sym (ap occupied front ∙ occupied-none e after no_value))
          | inr (v, value) ↦
              let called = call_on t e.key v s in
              step_some t n i s e v leaves inside here value
              ∙ ap (λ o. if called.1 ==ℤ status_ok then o else some (t, called)) (rest called.0)
              ∙ apply-if (λ r. some (t, r)) (called.1 ==ℤ status_ok)
                  (visit (call_on t) (occupied after) called.0) called
              ∙ ap (λ l. some (t, visit (call_on t) l s))
                  (sym (ap occupied front ∙ occupied-some e after v value))
        ]

    -- On a table that has as many slots as it says, with a callback that leaves the table as it
    -- is, the function is defined, with any bound above the number of slots: it calls its callback
    -- with the key and the value of each occupied slot, in the order of the slots, up to the first
    -- call that does not return OK, and returns the last call's result, or OK if there is none.
    pub hashtable_on_each-visit :
        (t : Hashtable A) (rounds : ℕ) (s : S)
        → LeavesTable
        → length t.entries ≡ t.total_entries
        → t.total_entries < rounds
        → hashtable_on_each callback_func rounds (some t) s
          ≡ some (t, visit (call_on t) (occupied t.entries) s)
    unfolding hashtable_on_each
    hashtable_on_each-visit t rounds s leaves size enough =
        each_from-visit t rounds 0 t.total_entries s leaves size (omega arith) enough
