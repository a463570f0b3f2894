-- ===== src/Tag.antt =====
-- The tag object of libplctag/src/libplctag/lib/tag.h, as far as the data accessors of
-- libplctag/src/libplctag/lib/lib.c use it, and the table of tags that they look a tag up in.
-- `critical_block` holds the tag's mutex from the first access of the tag to the last, so an
-- accessor is one atomic step. The reference that `lookup_tag` takes is given back at each exit.
pub mod Bit
pub mod Number
pub mod Raw
pub mod Size
pub mod String
pub mod Order
pub mod Attributes
mod Tests
use junk.Prelude.{
  ℕ, ◌<◌, ◌≤◌, ◌≡◌, refl, Bool, true, false, List, Option, none, some, arith, length, All,
  if◌then◌else◌, ◌>>=◌, ℤ, pos, negsuc, ltb, leb, ltb_ℤ, ◌+◌, ◌==ℤ◌, ◌||◌, ◌^◌, ==ℤ_refl, ==ℤ_iff,
  Bool-cases, leb→le, Option-cases, inl, inr,
}
use mathlib.Core.Option.{some-injective}
use mathlib.Core.Path.{subst}
use junk.Memory.{Bytes, IsByte, IsOrder}
use junk.Status.{status_ok}

-- `struct tag_byte_order_s`, without `is_allocated`, which only says who frees it; the digits of
-- an order are never negative.
pub record ByteOrder : Type 0 where
  pub str_is_defined : Bool
  pub str_is_counted : Bool
  pub str_is_fixed_length : Bool
  pub str_is_zero_terminated : Bool
  pub str_is_byte_swapped : Bool
  pub str_pad_to_multiple_bytes : ℕ
  pub str_count_word_bytes : ℕ
  pub str_max_capacity : ℕ
  pub str_total_length : ℕ
  pub str_pad_bytes : ℕ
  pub int16_order : List ℕ
  pub int32_order : List ℕ
  pub int64_order : List ℕ
  pub float32_order : List ℕ
  pub float64_order : List ℕ

-- `TAG_BASE_STRUCT`, with `buffer` for its field `data`; `none` is a null pointer, and `size` is an `int32_t` that is not negative.
-- `spew` is no field of it but the library's debug level, `get_debug_level() >= DEBUG_SPEW`: from
-- that level on, `pdebug` evaluates the arguments of the finest traces.
pub record Tag : Type 0 where
  pub tag_id : ℤ
  pub buffer : Option Bytes
  pub size : ℕ
  pub byte_order : Option ByteOrder
  pub bit : ℤ
  pub is_bit : Bool
  pub status : ℤ
  pub auto_sync_write_ms : ℤ
  pub tag_is_dirty : Bool
  pub allow_field_resize : Bool
  pub spew : Bool

abbrev pub with_status : Tag → ℤ → Tag
with_status t s = record t { status = s }

-- `if(tag->auto_sync_write_ms > 0) { tag->tag_is_dirty = 1; }`
abbrev pub mark_dirty : Tag → Tag
mark_dirty t = record t {
  tag_is_dirty = if ltb_ℤ (pos 0) t.auto_sync_write_ms then true else t.tag_is_dirty;
}

-- The tags by their handle: what the table `tags` maps a key to.
abbrev pub Tags : Type 0
Tags = ℤ → Option Tag

-- `tag && tag->tag_id == tag_id`
has_id : ℤ → Option Tag → Option Tag
has_id id none = none
has_id id (some t) = if t.tag_id ==ℤ id then some t else none

unfoldable pub lookup_tag : Tags → ℤ → Option Tag
unfolding has_id
lookup_tag tags id = has_id id (tags id)

abbrev pub update : Tags → ℤ → Tag → Tags
update tags id t k = if k ==ℤ id then some t else tags k

-- An accessor: what it returns if there is no such tag, and what it does to the tag if there is.
unfoldable pub on_tag : {R : Type 0} → Tags → ℤ → R → (Tag → Option (Tag × R)) → Option (Tags × R)
on_tag tags id missing body = elim (lookup_tag tags id) [
  | none ↦ some (tags, missing)
  | some t ↦ body t >>= λ r. some (update tags id r.0, r.1)
]

-- `(offset >= 0) && (offset + width <= tag->size)`, in `int`. A sum that is larger than INT_MAX
-- overflows; it wraps around to a negative number, which is no larger than the size.
abbrev pub check_bounds : ℤ → ℕ → ℕ → Bool
check_bounds (pos o) width size = leb (2 ^ 31) (o + width) || leb (o + width) size
check_bounds (negsuc n) width size = false

-- Whether the bytes from the offset on are inside the buffer; the code has `check_bounds`.
abbrev pub in_bounds : ℤ → ℕ → ℕ → Bool
in_bounds (pos o) width size = leb (o + width) size
in_bounds (negsuc n) width size = false

abbrev pub index_of : ℤ → ℕ
index_of (pos o) = o
index_of (negsuc n) = 0

abbrev pub IsSized : Option Bytes → ℕ → Type 0
IsSized none n = n ≡ 0
IsSized (some bs) n = (length bs ≡ n) × All IsByte bs

pub record IsOrdered (o : ByteOrder) : Type 0 where
  pub int16 : IsOrder 2 o.int16_order
  pub int32 : IsOrder 4 o.int32_order
  pub int64 : IsOrder 8 o.int64_order
  pub float32 : IsOrder 4 o.float32_order
  pub float64 : IsOrder 8 o.float64_order

-- The buffer has the size that the tag names and holds bytes (no buffer, no size), and the tag has valid byte orders.
pub record IsValid (t : Tag) : Type 0 where
  pub sized : IsSized t.buffer t.size
  pub order : ByteOrder
  pub has_order : t.byte_order ≡ some order
  pub ordered : IsOrdered order

-- Every tag that a lookup finds is valid.
abbrev pub TagsValid : Tags → Type 0
TagsValid tags = (id : ℤ) (t : Tag) → lookup_tag tags id ≡ some t → IsValid t

pub lookup_tag-update :
    (tags : Tags) (id : ℤ) (t : Tag) → t.tag_id ≡ id → lookup_tag (update tags id t) id ≡ some t
unfolding lookup_tag
lookup_tag-update tags id t e = rw (==ℤ_refl id, lookup_tag, has_id, e, ==ℤ_refl id)

pub lookup_tag-update_ne :
    (tags : Tags) (id k : ℤ) (t : Tag)
    → (k ==ℤ id) ≡ false
    → lookup_tag (update tags id t) k ≡ lookup_tag tags k
unfolding lookup_tag
lookup_tag-update_ne tags id k t e = rw (e, lookup_tag)

has_id_lem : (id : ℤ) (o : Option Tag) {t : Tag} → has_id id o ≡ some t → t.tag_id ≡ id
unfolding has_id
has_id_lem id none h = cc
has_id_lem id (some u) {t} h = ground (arith, ==ℤ_iff u.tag_id id)

pub lookup_tag_id : (tags : Tags) (id : ℤ) {t : Tag} → lookup_tag tags id ≡ some t → t.tag_id ≡ id
unfolding lookup_tag
lookup_tag_id tags id h = has_id_lem id (tags id) h

pub on_tag_found :
    {R : Type 0} (tags : Tags) (id : ℤ) (missing : R) (body : Tag → Option (Tag × R)) {t t' : Tag}
    {r : R}
    → lookup_tag tags id ≡ some t
    → body t ≡ some (t', r)
    → on_tag tags id missing body ≡ some (update tags id t', r)
unfolding on_tag
on_tag_found tags id missing body found run = rw (found, on_tag, run)

pub check_bounds-inside :
    (offset : ℤ) (w size : ℕ) → in_bounds offset w size ≡ true → check_bounds offset w size ≡ true
check_bounds-inside (pos o) w size h = ground arith
check_bounds-inside (negsuc n) w size h = cc

-- Where the sum is an `int`, the check is right.
pub check_bounds-int :
    (offset : ℤ) (w size : ℕ)
    → index_of offset + w < 2 ^ 31
    → check_bounds offset w size ≡ in_bounds offset w size
check_bounds-int (pos o) w size h = ground arith
check_bounds-int (negsuc n) w size h = refl

pub in_bounds-le :
    (offset : ℤ) (w size : ℕ) → in_bounds offset w size ≡ true → index_of offset + w ≤ size
in_bounds-le (pos o) w size h = leb→le (o + w) size h
in_bounds-le (negsuc n) w size h = cc

pub IsSized-length :
    (b : Option Bytes) (size : ℕ) (bs : Bytes)
    → b ≡ some bs
    → IsSized b size
    → (length bs ≡ size) × All IsByte bs
IsSized-length none size bs e h = cc
IsSized-length (some xs) size bs e h =
    subst (λ ys. (length ys ≡ size) × All IsByte ys) (some-injective _ _ e) h

pub with_status-IsValid : (t : Tag) (s : ℤ) → IsValid t → IsValid (with_status t s)
with_status-IsValid t s v = record {
  sized = v.sized;
  order = v.order;
  has_order = v.has_order;
  ordered = v.ordered;
}

-- The tag after a write to its buffer.
abbrev pub with_buffer : Tag → Bytes → Tag
with_buffer t bs = record (mark_dirty t) { buffer = some bs; status = status_ok }

unfoldable pub with_buffer-IsValid :
    (t : Tag) (bs : Bytes)
    → length bs ≡ t.size
    → All IsByte bs
    → IsValid t
    → IsValid (with_buffer t bs)
with_buffer-IsValid t bs size bytes v = record {
  sized = (size, bytes);
  order = v.order;
  has_order = v.has_order;
  ordered = v.ordered;
}

has_id-eq : (k : ℤ) (t : Tag) {u : Tag} → has_id k (some t) ≡ some u → t ≡ u
unfolding has_id
has_id-eq k t h = ground arith

pub TagsValid-update :
    (tags : Tags) (id : ℤ) (t : Tag) → TagsValid tags → IsValid t → TagsValid (update tags id t)
unfolding lookup_tag
TagsValid-update tags id t valid v k u found = elim (Bool-cases (k ==ℤ id)) [
  | inl e ↦ subst IsValid (has_id-eq k t (rw (lookup_tag, e) at found)) v
  | inr e ↦ valid k u (rw (lookup_tag, e) at found)
]

-- What an accessor does to a tag is defined, and leaves it valid.
abbrev pub DefinedAt : (Tag → Option (Tag × ℤ)) → Tag → Type 0
DefinedAt body t = (t' : Tag) × (r : ℤ) × (body t ≡ some (t', r)) × IsValid t'

abbrev pub Keeps : (Tag → Option (Tag × ℤ)) → Type 0
Keeps body = (t : Tag) → IsValid t → DefinedAt body t

-- The debug level is below the finest one for every tag that a lookup finds.
abbrev pub Untraced : Tags → Type 0
Untraced tags = (id : ℤ) (t : Tag) → lookup_tag tags id ≡ some t → t.spew ≡ false

pub Untraced-update :
    (tags : Tags) (id : ℤ) (t : Tag) → Untraced tags → t.spew ≡ false → Untraced (update tags id t)
unfolding lookup_tag
Untraced-update tags id t quiet q k u found = elim (Bool-cases (k ==ℤ id)) [
  | inl e ↦ subst (λ w. w.spew ≡ false) (has_id-eq k t (rw (lookup_tag, e) at found)) q
  | inr e ↦ quiet k u (rw (lookup_tag, e) at found)
]

pub no_tags-Untraced : Untraced (λ _. none)
unfolding lookup_tag
no_tags-Untraced id t h = cc

-- A run of an accessor is defined, and leaves all tags valid.
abbrev pub Safe : Option (Tags × ℤ) → Type 0
Safe run = (tags' : Tags) × (r : ℤ) × (run ≡ some (tags', r)) × TagsValid tags'

pub on_tag_found-Safe :
    (tags : Tags) (id missing : ℤ) (body : Tag → Option (Tag × ℤ))
    → ((t : Tag) → lookup_tag tags id ≡ some t → IsValid t → DefinedAt body t)
    → TagsValid tags
    → Safe (on_tag tags id missing body)
unfolding on_tag
on_tag_found-Safe tags id missing body keeps valid = elim (Option-cases (lookup_tag tags id)) [
  | inl e ↦ (tags, missing, rw (e, on_tag), valid)
  | inr (t, e) ↦
      let (t', r, run, v) = keeps t e (valid id t e) in
      (update tags id t', r, rw (e, on_tag, run), TagsValid-update tags id t' valid v)
]

pub on_tag-Safe :
    (tags : Tags) (id missing : ℤ) (body : Tag → Option (Tag × ℤ))
    → Keeps body
    → TagsValid tags
    → Safe (on_tag tags id missing body)
on_tag-Safe tags id missing body keeps valid =
    on_tag_found-Safe tags id missing body (λ t found v. keeps t v) valid

pub on_tag_missing :
    {R : Type 0} (tags : Tags) (id : ℤ) (missing : R) (body : Tag → Option (Tag × R))
    → lookup_tag tags id ≡ none
    → on_tag tags id missing body ≡ some (tags, missing)
unfolding on_tag
on_tag_missing tags id missing body e = rw (e, on_tag)

pub no_tags-TagsValid : TagsValid (λ _. none)
unfolding lookup_tag
no_tags-TagsValid id t h = cc
