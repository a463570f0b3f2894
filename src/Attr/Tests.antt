-- ===== src/Attr/Tests.antt =====
-- Runs of the parser of attribute strings, and the theorem at one of them.
use junk.Prelude.{ℕ, ◌≡◌, refl, Bool, true, List, [], ◌∷◌, Option, none, some}
use junk.Attr.{
  Text, text_eq, AttrEntry, find_entry, new_entry, set_in, attr_set_str, attr_get_str, unlink,
  attr_remove,
}
use junk.Attr.Parser.{
  split_from, str_split, cut, skip_spaces, drop_spaces, trim_end, parse_pair, add_pairs,
  attr_create_from_str,
}
use junk.Attr.Splitting.{print_pairs}
use junk.Attr.RoundTrip.{last_value, attributes-round_trip}

abbrev granted : ℕ → Bool
granted n = true

-- `gateway=10&path=1=2&path=3`
abbrev gateway : Text × Text
gateway = (b'g' ∷ b'w' ∷ [], b'1' ∷ b'0' ∷ [])

abbrev paths : List (Text × Text)
paths = (b'p' ∷ [], b'1' ∷ b'=' ∷ b'2' ∷ []) ∷ (b'p' ∷ [], b'3' ∷ []) ∷ []

attributes-round_trip_example :
    (es : List AttrEntry) × (attr_create_from_str granted (print_pairs (gateway ∷ paths)) ≡ some es)
    × ((name : Text) (default : Option Text)
        → attr_get_str (some es) name default ≡ last_value (gateway ∷ paths) name default)
attributes-round_trip_example =
    attributes-round_trip granted gateway paths (λ n. refl)
      (
        record {
          starts = refl;
          ends = refl;
          no_separator = refl;
          key_in_one = refl;
          has_value = refl;
          value_in_one = refl;
        },
        (
          record {
            starts = refl;
            ends = refl;
            no_separator = refl;
            key_in_one = refl;
            has_value = refl;
            value_in_one = refl;
          },
          (
            record {
              starts = refl;
              ends = refl;
              no_separator = refl;
              key_in_one = refl;
              has_value = refl;
              value_in_one = refl;
            },
            tt,
          ),
        ),
      )

-- A space is cut off a key and not off a value; a pair without a value is refused.
abbrev spaced : Text
spaced = b'&' ∷ b' ' ∷ b'a' ∷ b' ' ∷ b'=' ∷ b' ' ∷ b'1' ∷ b'&' ∷ []

spaced_value :
    attr_get_str (attr_create_from_str granted spaced) (b'a' ∷ []) none ≡ some (b' ' ∷ b'1' ∷ [])
unfolding attr_create_from_str str_split split_from add_pairs parse_pair cut skip_spaces drop_spaces
    trim_end attr_set_str set_in new_entry attr_get_str find_entry text_eq
spaced_value = refl

without_value : attr_create_from_str granted (b'a' ∷ b'=' ∷ []) ≡ none
unfolding attr_create_from_str str_split split_from add_pairs parse_pair cut skip_spaces drop_spaces
    trim_end attr_set_str set_in new_entry attr_get_str find_entry text_eq
without_value = refl

-- After a removal the name has its default.
removed :
    attr_get_str
      (attr_remove (attr_create_from_str granted spaced) (b'a' ∷ [])).0
      (b'a' ∷ [])
      (some [])
    ≡ some []
unfolding attr_create_from_str str_split split_from add_pairs parse_pair cut skip_spaces drop_spaces
    trim_end attr_set_str set_in new_entry attr_get_str find_entry text_eq attr_remove unlink
removed = refl
