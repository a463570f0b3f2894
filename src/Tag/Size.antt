-- ===== src/Tag/Size.antt =====
-- `plc_tag_get_size`, `plc_tag_set_size` and the functions that resize a tag's buffer, in
-- libplctag/src/libplctag/lib/lib.c, over the memory functions of
-- libplctag/src/platform/posix/platform.c.
pub mod Resizing
pub mod Splitting
use junk.Prelude.{
  ℕ, zero, suc, ◌+◌, ◌-◌, ◌<◌, ◌≤◌, ◌≡◌, Bool, true, false, List, [], ◌++◌, Option, none, some,
  if◌then◌else◌, ◌>>=◌, ℤ, pos, negsuc, ltb, leb, ◌==◌, ◌&&◌, length, take, drop, All, ◌-ℤ◌, ◌+ℤ◌,
  ltb_ℤ, pos_part, ◌==ℤ◌, ◌||◌,
}
use junk.Memory.{Bytes, IsByte}
use junk.Status.{status_ok, err_no_mem, err_out_of_bounds, err_not_found, err_bad_param}
use junk.Tag.{Tag, Tags, with_status, on_tag}

-- The C library's `realloc`: for a size, the contents of the block that it returns before the old
-- contents are laid over it, or none if there is no memory. It returns a block of that size.
pub record Allocator : Type 0 where
  pub block : ℕ → Option Bytes
  pub block_length : (n : ℕ) (bs : Bytes) → block n ≡ some bs → length bs ≡ n
  pub block_bytes : (n : ℕ) (bs : Bytes) → block n ≡ some bs → All IsByte bs

-- `dest` and `src` are offsets into one buffer, and the ranges have to lie in it. A size of zero
-- or less moves nothing.
unfoldable pub mem_move : Bytes → ℕ → ℕ → ℕ → Option Bytes
mem_move bs dest src zero = some bs
mem_move bs dest src (suc n) =
    let size = suc n in
    if leb (dest + size) (length bs) && leb (src + size) (length bs)
    then some (take dest bs ++ (take size (drop src bs) ++ drop (dest + size) bs))
    else none

abbrev pub old_bytes : Option Bytes → Bytes
old_bytes none = []
old_bytes (some bs) = bs

-- `if(!new_data) { … } tag->data = new_data; tag->size = new_size;`
unfoldable pub resized : Tag → ℕ → Option Bytes → Tag × ℤ
resized t new_size none = (with_status t err_no_mem, err_no_mem)
resized t new_size (some new_data) =
    (record t { buffer = some new_data; size = new_size }, status_ok)

module _ (memory : Allocator) where
  open memory use {block}

  unfoldable pub mem_realloc : Option Bytes → ℕ → Option Bytes
  mem_realloc orig zero = none
  mem_realloc orig (suc n) = block (suc n) >>= λ fresh.
      some (take (suc n) (old_bytes orig) ++ drop (length (old_bytes orig)) fresh)

  -- A negative size is a size of zero to `mem_realloc`: both return no block.
  unfoldable pub resize_tag_buffer_unsafe : Tag → ℤ → Tag × ℤ
  resize_tag_buffer_unsafe t new_size =
      resized t (pos_part new_size) (mem_realloc t.buffer (pos_part new_size))

  unfoldable pub shrink_at_offset : Tag → Bytes → ℕ → ℕ → Option (Tag × ℤ)
  shrink_at_offset t bs old_split_index new_split_index = do
    moved ← mem_move bs new_split_index old_split_index (t.size - old_split_index)
    some (
        resize_tag_buffer_unsafe (record t { buffer = some moved })
          (pos t.size -ℤ (pos old_split_index -ℤ pos new_split_index)))

  unfoldable pub grow_at_offset : Tag → ℕ → ℕ → Option (Tag × ℤ)
  grow_at_offset t old_split_index new_split_index =
      let amount_to_move = t.size - old_split_index in
      let resized =
        resize_tag_buffer_unsafe t (pos t.size +ℤ (pos new_split_index -ℤ pos old_split_index)) in
      if resized.1 ==ℤ status_ok
      then (resized.0.buffer >>= λ bs.
          mem_move bs new_split_index old_split_index amount_to_move >>= λ moved.
          some (record resized.0 { buffer = some moved }, status_ok))
      else some resized

  -- After the checks on the two indices.
  unfoldable pub split_at_offset : Tag → ℕ → ℕ → Option (Tag × ℤ)
  split_at_offset t old_split_index new_split_index =
      if new_split_index == old_split_index
      then some (t, status_ok)
      else if ltb new_split_index old_split_index
      then (t.buffer >>= λ bs. shrink_at_offset t bs old_split_index new_split_index)
      else grow_at_offset t old_split_index new_split_index

  unfoldable pub resize_tag_buffer_at_offset_unsafe : Tag → ℤ → ℤ → Option (Tag × ℤ)
  resize_tag_buffer_at_offset_unsafe t old_split_index new_split_index =
      if ltb_ℤ old_split_index (pos 0) || ltb_ℤ (pos t.size) old_split_index
      then some (t, err_out_of_bounds)
      else if ltb_ℤ new_split_index (pos 0)
      then some (t, err_out_of_bounds)
      else split_at_offset t (pos_part old_split_index) (pos_part new_split_index)

  unfoldable pub plc_tag_set_size : Tags → ℤ → ℤ → Option (Tags × ℤ)
  plc_tag_set_size tags id new_size = on_tag tags id err_not_found λ t.
      if ltb_ℤ new_size (pos 0)
      then some (t, err_bad_param)
      else some (resize_tag_buffer_unsafe t new_size)

unfoldable pub plc_tag_get_size : Tags → ℤ → Option (Tags × ℤ)
plc_tag_get_size tags id =
    on_tag tags id err_not_found (λ t. some (with_status t status_ok, pos t.size))
