-- ===== src/Tag/Size/Resizing.antt =====
-- Resizing keeps the tag valid, and moves what stands behind the split to its new place.
use mathlib.Core.Option.{some-injective}
use mathlib.Core.Path.{subst}
use junk.Prelude.{
  ℕ, zero, suc, ◌<◌, ◌≡◌, refl, false, [], ◌∷◌, ◌++◌, Option, none, some, inl, inr, arith, length,
  get_or, take, drop, All, if◌then◌else◌, ℤ, pos, ltb_ℤ, pos_part, Bool-cases, Option-cases,
  length-append, length-take, length-drop, All-append, All-take, All-drop,
}
use junk.Memory.{Bytes, IsByte}
use junk.Status.{status_ok, err_no_mem, err_not_found, err_bad_param}
use junk.Tag.Size.{
  Allocator, old_bytes, mem_realloc, resize_tag_buffer_unsafe, resized, plc_tag_set_size,
  plc_tag_get_size,
}
use junk.Tag.{
  Tag, Tags, with_status, lookup_tag, update, IsSized, IsValid, Keeps, Safe, TagsValid, on_tag-Safe,
  on_tag_found, lookup_tag-update, lookup_tag_id, with_status-IsValid,
}

get_or-take_append :
    (n : ℕ) (xs ys : Bytes) (i : ℕ)
    → i < n
    → i < length xs
    → get_or (take n xs ++ ys) i 0 ≡ get_or xs i 0
get_or-take_append zero xs ys i lt has = absurd (omega arith)
get_or-take_append (suc n) [] ys i lt has = absurd (omega arith)
get_or-take_append (suc n) (x ∷ xs) ys zero lt has = refl
get_or-take_append (suc n) (x ∷ xs) ys (suc i) lt has =
    get_or-take_append n xs ys i (omega arith) (omega arith)

pos-not_negative : (n : ℕ) → ltb_ℤ (pos n) (pos 0) ≡ false
pos-not_negative n = ground arith

none-eq-some : {A B : Type 0} {a : A} → none ≡ some a → B
none-eq-some h = cc

module _ (memory : Allocator) where
  open memory use {block, block_length, block_bytes}

  realloc_length :
      (old fresh : Bytes) (n : ℕ)
      → length fresh ≡ n
      → length (take n old ++ drop (length old) fresh) ≡ n
  realloc_length old fresh n e = omega (
    arith,
    length-append (take n old) (drop (length old) fresh),
    length-take n old,
    length-drop (length old) fresh,
  )

  resized-IsValid :
      (t : Tag) (bs : Bytes) (n : ℕ)
      → length bs ≡ n
      → All IsByte bs
      → IsValid t
      → IsValid (record t { buffer = some bs; size = n })
  resized-IsValid t bs n size bytes v = record {
    sized = (size, bytes);
    order = v.order;
    has_order = v.has_order;
    ordered = v.ordered;
  }

  old-IsByte : (b : Option Bytes) (n : ℕ) → IsSized b n → All IsByte (old_bytes b)
  old-IsByte none n h = tt
  old-IsByte (some bs) n h = h.1

  -- A new block has the size asked for and holds bytes, and begins with the old contents, as far
  -- as they fit.
  pub mem_realloc-IsSized :
      (orig : Option Bytes) (m n : ℕ) (bs : Bytes)
      → IsSized orig m
      → mem_realloc memory orig n ≡ some bs
      → (length bs ≡ n)
        × All IsByte bs
        × ((i : ℕ)
            → i < n
            → i < length (old_bytes orig)
            → get_or bs i 0 ≡ get_or (old_bytes orig) i 0)
  unfolding mem_realloc
  mem_realloc-IsSized orig m zero bs sized e = cc
  mem_realloc-IsSized orig m (suc n) bs sized e = elim (Option-cases (block (suc n))) [
    | inl no_block ↦ none-eq-some (rw (no_block, mem_realloc) at e)
    | inr (fresh, got) ↦
        let old = old_bytes orig in
        let here : take (suc n) old ++ drop (length old) fresh ≡ bs =
          some-injective _ _ (rw (got, mem_realloc) at e) in
        let size = block_length (suc n) fresh got in
        subst
          (λ xs.
            (length xs ≡ suc n)
            × All IsByte xs
            × ((i : ℕ) → i < suc n → i < length old → get_or xs i 0 ≡ get_or old i 0))
          here
          (
            realloc_length old fresh (suc n) size,
            All-append IsByte (take (suc n) old) (drop (length old) fresh)
                (All-take IsByte (suc n) old (old-IsByte orig m sized))
                (All-drop IsByte (length old) fresh (block_bytes (suc n) fresh got)),
            λ i lt has. get_or-take_append (suc n) old (drop (length old) fresh) i lt has,
          )
  ]

  -- Resizing a valid tag leaves it valid, whether there is memory or not.
  pub resize-IsValid :
      (t : Tag) (n : ℤ) → IsValid t → IsValid (resize_tag_buffer_unsafe memory t n).0
  unfolding resize_tag_buffer_unsafe resized
  resize-IsValid t n v = elim (Option-cases (mem_realloc memory t.buffer (pos_part n))) [
    | inl e ↦ rw (e, resize_tag_buffer_unsafe, resized) (with_status-IsValid t err_no_mem v)
    | inr (bs, e) ↦
        let (size, bytes, same) = mem_realloc-IsSized t.buffer t.size (pos_part n) bs v.sized e in
        rw (e, resize_tag_buffer_unsafe, resized) (resized-IsValid t bs (pos_part n) size bytes v)
  ]

  set_size_body : ℤ → Tag → Option (Tag × ℤ)
  set_size_body new_size t =
      if ltb_ℤ new_size (pos 0)
      then some (t, err_bad_param)
      else some (resize_tag_buffer_unsafe memory t new_size)

  set_size_body-Keeps : (n : ℤ) → Keeps (set_size_body n)
  unfolding set_size_body
  set_size_body-Keeps n t v = elim (Bool-cases (ltb_ℤ n (pos 0))) [
    | inl e ↦ (t, err_bad_param, rw e, v)
    | inr e ↦ let r = resize_tag_buffer_unsafe memory t n in (r.0, r.1, rw e, resize-IsValid t n v)
  ]

  -- Setting or getting the size of a tag is defined for every handle and size, and leaves the
  -- tags valid if they were, whether `realloc` has memory or not.
  pub size-Safe :
      (tags : Tags) (id new_size : ℤ)
      → TagsValid tags
      → Safe (plc_tag_set_size memory tags id new_size) × Safe (plc_tag_get_size tags id)
  unfolding plc_tag_set_size plc_tag_get_size set_size_body
  size-Safe tags id new_size valid = (
    on_tag-Safe tags id err_not_found (set_size_body new_size) (set_size_body-Keeps new_size) valid,
    on_tag-Safe tags id err_not_found (λ t. some (with_status t status_ok, pos t.size))
        (λ t v. (with_status t status_ok, pos t.size, refl, with_status-IsValid t status_ok v))
        valid,
  )

  -- What follows a change of the size of tag `t` to `n` + 1.
  abbrev pub SizeReadsBack : Tags → ℤ → ℕ → Tag → Type 0
  SizeReadsBack tags id n t =
      (tags' : Tags) × (tags'' : Tags) × (bs : Bytes) × (plc_tag_set_size memory tags id
          (pos (suc n))
        ≡ some (tags', pos 0))
      × (plc_tag_get_size tags' id ≡ some (tags'', pos (suc n)))
      × (lookup_tag tags' id ≡ some (record t { buffer = some bs; size = suc n }))
      × (length bs ≡ suc n)
      × ((i : ℕ)
          → i < suc n
          → i < length (old_bytes t.buffer)
          → get_or bs i 0 ≡ get_or (old_bytes t.buffer) i 0)

  -- If `realloc` returns a block for a positive new size, setting the size returns OK, that is 0,
  -- and not the old size. The tag then has the new size, which getting the size returns, and
  -- keeps its first bytes, as far as both sizes go.
  pub get_size-set_size :
      (tags : Tags) (id : ℤ) (n : ℕ) (t : Tag) (fresh : Bytes)
      → lookup_tag tags id ≡ some t
      → IsValid t
      → block (suc n) ≡ some fresh
      → SizeReadsBack tags id n t
  unfolding plc_tag_set_size plc_tag_get_size resize_tag_buffer_unsafe mem_realloc resized
      set_size_body
  get_size-set_size tags id n t fresh found v got =
      let bs = take (suc n) (old_bytes t.buffer) ++ drop (length (old_bytes t.buffer)) fresh in
      let run : mem_realloc memory t.buffer (suc n) ≡ some bs = rw (got, mem_realloc) in
      let (size, bytes, same) = mem_realloc-IsSized t.buffer t.size (suc n) bs v.sized run in
      let t' : Tag = record t { buffer = some bs; size = suc n } in
      let found' = lookup_tag-update tags id t' (lookup_tag_id tags id found) in
      (
        update tags id t',
        update (update tags id t') id (with_status t' status_ok),
        bs,
        on_tag_found tags id err_not_found (set_size_body (pos (suc n))) found
            (rw (pos-not_negative (suc n), got, resize_tag_buffer_unsafe, mem_realloc)),
        on_tag_found (update tags id t') id err_not_found
            (λ u. some (with_status u status_ok, pos u.size)) found' refl,
        found',
        size,
        same,
      )
