-- ===== src/Tag/Size/Splitting.antt =====
-- `resize_tag_buffer_at_offset_unsafe`: what stands in front of both split indices stays, and
-- what stands behind the old one moves behind the new one.
use junk.Prelude.{
  ◌+ℤ◌, ◌-ℤ◌, ℕ, zero, suc, ◌+◌, ◌-◌, ◌≤◌, ◌<◌, ◌≡◌, refl, ◌∙◌, ◌++◌, some, inl, inr, arith, length,
  get_or, take, drop, All, pos, ltb, le→leb, ◌==◌, ==_iff, Bool-cases, length-append, length-take,
  length-drop, get_or-drop, get_or-take, get_or-append_left, get_or-append_right, All-append,
  All-take, All-drop,
}
use junk.Memory.{Bytes, IsByte}
use junk.Status.{status_ok}
use junk.Tag.Size.{
  Allocator, mem_move, mem_realloc, resize_tag_buffer_unsafe, resized, shrink_at_offset,
  grow_at_offset, split_at_offset, resize_tag_buffer_at_offset_unsafe,
}
use junk.Tag.Size.Resizing.{mem_realloc-IsSized}
use junk.Tag.{Tag, IsValid, IsSized-length}

-- A move inside a buffer: the bytes at `src` stand at `dest`, and those before `dest` are kept.
pub record Moved (bs : Bytes) (dest src n : ℕ) (after : Bytes) : Type 0 where
  pub runs : mem_move bs dest src n ≡ some after
  pub same_length : length after ≡ length bs
  pub moved : (j : ℕ) → j < n → get_or after (dest + j) 0 ≡ get_or bs (src + j) 0
  pub kept : (p : ℕ) → p < dest → get_or after p 0 ≡ get_or bs p 0
  pub bytes : All IsByte bs → All IsByte after

pub mem_move-Moved :
    (bs : Bytes) (dest src n : ℕ)
    → dest + n ≤ length bs
    → src + n ≤ length bs
    → (after : Bytes) × Moved bs dest src n after
unfolding mem_move
mem_move-Moved bs dest src zero room fit = (
  bs,
  record {
    runs = refl;
    same_length = refl;
    moved = λ j h. elim h [ ];
    kept = λ p h. refl;
    bytes = λ h. h;
  },
)
mem_move-Moved bs dest src (suc n) room fit =
    let size = suc n in
    let front = take dest bs in
    let middle = take size (drop src bs) in
    let back = drop (dest + size) bs in
    let front_length : length front ≡ dest = omega (arith, length-take dest bs) in
    let middle_length : length middle ≡ size =
      omega (arith, length-take size (drop src bs), length-drop src bs) in
    (
      front ++ (middle ++ back),
      record {
        runs =
            rw (
              mem_move,
              le→leb (dest + size) (length bs) room,
              le→leb (src + size) (length bs) fit,
            );
        same_length = omega (
          arith,
          length-append front (middle ++ back),
          length-append middle back,
          length-drop (dest + size) bs,
        );
        moved = λ j h.
            rw front_length at (get_or-append_right front (middle ++ back) j 0)
            ∙ get_or-append_left middle back j 0 (omega arith)
            ∙ get_or-take size (drop src bs) j 0 h
            ∙ get_or-drop src bs j 0;
        kept = λ p h.
            get_or-append_left front (middle ++ back) p 0 (omega arith) ∙ get_or-take dest bs p 0 h;
        bytes = λ h. All-append IsByte front (middle ++ back) (All-take IsByte dest bs h) (
            All-append IsByte middle back
              (All-take IsByte size (drop src bs) (All-drop IsByte src bs h))
              (All-drop IsByte (dest + size) bs h));
      },
    )

pub record Split (t : Tag) (bs : Bytes) (old new m : ℕ) (bs' : Bytes) : Type 0 where
  pub same_length : length bs' ≡ suc m
  pub front : (p : ℕ) → p < old → p < new → get_or bs' p 0 ≡ get_or bs p 0
  pub back : (j : ℕ) → old + j < length bs → get_or bs' (new + j) 0 ≡ get_or bs (old + j) 0
  pub bytes : All IsByte bs'

difference : (s o n m : ℕ) → suc m + o ≡ s + n → n < o → pos s -ℤ (pos o -ℤ pos n) ≡ pos (suc m)
difference s o n m e lt = ground arith

extension : (s o n m : ℕ) → suc m + o ≡ s + n → o < n → pos s +ℤ (pos n -ℤ pos o) ≡ pos (suc m)
extension s o n m e lt = ground arith

module _ (memory : Allocator) where
  open memory use {block}

  resize-block :
      (t : Tag) (bs : Bytes) (n m : ℕ) (fresh : Bytes)
      → t.buffer ≡ some bs
      → (length bs ≡ n) × All IsByte bs
      → block (suc m) ≡ some fresh
      → (bs' : Bytes) × (resize_tag_buffer_unsafe memory t (pos (suc m))
          ≡ (record t { buffer = some bs'; size = suc m }, status_ok))
        × (length bs' ≡ suc m)
        × All IsByte bs'
        × ((i : ℕ) → i < suc m → i < length bs → get_or bs' i 0 ≡ get_or bs i 0)
  unfolding resize_tag_buffer_unsafe mem_realloc resized
  resize-block t bs n m fresh has sized got =
      let bs' = take (suc m) bs ++ drop (length bs) fresh in
      let run : mem_realloc memory (some bs) (suc m) ≡ some bs' = rw (got, mem_realloc) in
      let (size, bytes, same) = mem_realloc-IsSized memory (some bs) n (suc m) bs' sized run in
      (bs', ground arith, size, bytes, same)

  shrink-Split :
      (t : Tag) (bs : Bytes) (old new m : ℕ) (fresh : Bytes)
      → length bs ≡ t.size
      → All IsByte bs
      → old ≤ t.size
      → new < old
      → suc m + old ≡ t.size + new
      → block (suc m) ≡ some fresh
      → (bs' : Bytes) × (shrink_at_offset memory t bs old new
          ≡ some (record t { buffer = some bs'; size = suc m }, status_ok))
        × Split t bs old new m bs'
  unfolding shrink_at_offset
  shrink-Split t bs old new m fresh size bytes le lt e got =
      let (moved, w) = mem_move-Moved bs new old (t.size - old) (omega arith) (omega arith) in
      let (bs', run, size', bytes', same) =
        resize-block (record t { buffer = some moved }) moved (length bs) m fresh refl
          (w.same_length, w.bytes bytes) got in
      (
        bs',
        rw (shrink_at_offset, w.runs, difference t.size old new m e lt, run),
        record {
          same_length = size';
          front = λ p before after.
              same p (omega arith) (omega (arith, w.same_length)) ∙ w.kept p after;
          back = λ j here.
              same (new + j) (omega arith) (omega (arith, w.same_length)) ∙ w.moved j (omega arith);
          bytes = bytes';
        },
      )

  grow-Split :
      (t : Tag) (bs : Bytes) (old new m : ℕ) (fresh : Bytes)
      → t.buffer ≡ some bs
      → length bs ≡ t.size
      → All IsByte bs
      → old ≤ t.size
      → old < new
      → suc m + old ≡ t.size + new
      → block (suc m) ≡ some fresh
      → (bs' : Bytes) × (grow_at_offset memory t old new
          ≡ some (record t { buffer = some bs'; size = suc m }, status_ok))
        × Split t bs old new m bs'
  unfolding grow_at_offset
  grow-Split t bs old new m fresh has size bytes le lt e got =
      let (bs', run, size', bytes', same) =
        resize-block t bs (length bs) m fresh has (refl, bytes) got in
      let (moved, w) = mem_move-Moved bs' new old (t.size - old) (omega arith) (omega arith) in
      (
        moved,
        rw (grow_at_offset, extension t.size old new m e lt, run, w.runs),
        record {
          same_length = w.same_length ∙ size';
          front = λ p before after. w.kept p after ∙ same p (omega arith) (omega arith);
          back = λ j here. w.moved j (omega arith) ∙ same (old + j) (omega arith) here;
          bytes = w.bytes bytes';
        },
      )

  -- Resizing a valid tag at an offset: where the old split index lies in the buffer, the new size
  -- is positive and `realloc` returns a block for it, the result is OK. The tag then has the new
  -- size; its buffer keeps the bytes that stand before both indices, and has the bytes behind the
  -- old index behind the new one.
  pub resize_at_offset-Split :
      (t : Tag) (bs : Bytes) (old new m : ℕ) (fresh : Bytes)
      → IsValid t
      → t.buffer ≡ some bs
      → old ≤ t.size
      → suc m + old ≡ t.size + new
      → block (suc m) ≡ some fresh
      → (bs' : Bytes) × (resize_tag_buffer_at_offset_unsafe memory t (pos old) (pos new)
          ≡ some (record t { buffer = some bs'; size = suc m }, status_ok))
        × Split t bs old new m bs'
  unfolding resize_tag_buffer_at_offset_unsafe split_at_offset
  resize_at_offset-Split t bs old new m fresh v has le e got =
      let (size, bytes) = IsSized-length t.buffer t.size bs has v.sized in
      elim (Bool-cases (new == old)) [
        | inl same ↦
            let eq : new ≡ old = (==_iff new old).0 same in
            (
              bs,
              ground arith,
              record {
                same_length = omega arith;
                front = λ p before after. refl;
                back = λ j here. rw eq;
                bytes = bytes;
              },
            )
        | inr differ ↦ elim (Bool-cases (ltb new old)) [
          | inl smaller ↦
              let (bs', run, split) =
                shrink-Split t bs old new m fresh size bytes le (ground arith) e got in
              (bs', ground arith, split)
          | inr larger ↦
              let (bs', run, split) =
                grow-Split t bs old new m fresh has size bytes le (ground arith) e got in
              (bs', ground arith, split)
        ]
      ]
