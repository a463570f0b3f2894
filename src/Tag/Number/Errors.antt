-- ===== src/Tag/Number/Errors.antt =====
-- The other outcomes of the number accessors: a missing tag, a missing buffer, an offset out of
-- bounds, and a bit tag, which holds one bit whatever type it is accessed by.
use junk.Memory.{Bytes}
use junk.Prelude.{◌+◌, ◌^◌, ◌<◌, ◌≡◌, ◌∙◌, false, none, some, ℤ}
use junk.Status.{err_no_data, err_out_of_bounds, err_not_found}
use junk.Tag.Number.Kinds.{
  Kind, getter, setter, width, default, no_data_value, get_body, set_body, getter-on_tag,
  setter-on_tag,
}
use junk.Tag.Number.Safety.{
  get_body_no_data, get_body_outside, set_body_outside, set_body_no_data, no_data_status,
}
use junk.Tag.{
  Tag, Tags, with_status, lookup_tag, update, in_bounds, check_bounds-int, index_of, IsValid,
  on_tag_found, on_tag_missing,
}

-- For a handle without a tag each getter returns its default, each setter returns NOT_FOUND, and
-- no tag changes.
number-missing :
    (k : Kind) (tags : Tags) (id offset v : ℤ)
    → lookup_tag tags id ≡ none
    → (getter k tags id offset ≡ some (tags, default k))
      × (setter k tags id offset v ≡ some (tags, err_not_found))
number-missing k tags id offset v missing = (
  getter-on_tag k tags id offset ∙ on_tag_missing tags id (default k) (get_body offset k) missing,
  setter-on_tag k tags id offset v
      ∙ on_tag_missing tags id err_not_found (set_body offset k v) missing,
)

-- On a tag with a buffer that is no bit tag: for an offset out of bounds, negative or too near to
-- the end, whose sum with the width of the type is at most INT_MAX, each getter returns its default and each setter returns OUT_OF_BOUNDS; nothing of the tag changes but its status, which is
-- OUT_OF_BOUNDS too.
pub number-outside :
    (k : Kind) (tags : Tags) (id offset v : ℤ) (t : Tag) (bs : Bytes)
    → lookup_tag tags id ≡ some t
    → t.buffer ≡ some bs
    → t.is_bit ≡ false
    → in_bounds offset (width k) t.size ≡ false
    → index_of offset + width k < 2 ^ 31
    → (getter k tags id offset ≡ some (update tags id (with_status t err_out_of_bounds), default k))
      × (setter k tags id offset v
          ≡ some (update tags id (with_status t err_out_of_bounds), err_out_of_bounds))
number-outside k tags id offset v t bs found has plain out int =
    let checked = check_bounds-int offset (width k) t.size int ∙ out in
    (
      getter-on_tag k tags id offset
          ∙ on_tag_found tags id (default k) (get_body offset k) found
              (get_body_outside k offset t bs has plain checked),
      setter-on_tag k tags id offset v
          ∙ on_tag_found tags id err_not_found (set_body offset k v) found
              (set_body_outside k offset v t bs has plain checked),
    )

-- For a valid tag without a buffer that is no bit tag, and an offset whose sum with the width of
-- the type is at most INT_MAX, each getter returns its value for missing
-- data with status NO_DATA. Each setter returns NO_DATA and sets that status, but for
-- `plc_tag_set_int64`, which returns OUT_OF_BOUNDS and sets that.
pub number-no_data :
    (k : Kind) (tags : Tags) (id offset v : ℤ) (t : Tag)
    → lookup_tag tags id ≡ some t
    → IsValid t
    → t.buffer ≡ none
    → t.is_bit ≡ false
    → index_of offset + width k < 2 ^ 31
    → (getter k tags id offset ≡ some (update tags id (with_status t err_no_data), no_data_value k))
      × (setter k tags id offset v
          ≡ some (update tags id (with_status t (no_data_status k)), no_data_status k))
number-no_data k tags id offset v t found valid none_there plain int = (
  getter-on_tag k tags id offset
      ∙ on_tag_found tags id (default k) (get_body offset k) found
          (get_body_no_data k offset t none_there),
  setter-on_tag k tags id offset v
      ∙ on_tag_found tags id err_not_found (set_body offset k v) found
          (set_body_no_data k offset v t none_there plain valid int),
)
