-- ===== src/Attr/Parser.antt =====
-- `attr_create_from_str` of libplctag/src/utils/attr.c, with `str_split` of
-- libplctag/src/platform/posix/platform.c.
use junk.Prelude.{
  ℕ, ◌+◌, ◌*◌, Bool, true, false, not, ◌&&◌, List, [], ◌∷◌, ◌++◌, Option, none, some, if◌then◌else◌,
  ◌==◌, ◌>>=◌, pos, length, ◌==ℤ◌,
}
use junk.Attr.{Text, Attr, attr_set_str, sizeof_attr}

abbrev pub is_empty : Text → Bool
is_empty [] = true
is_empty (c ∷ cs) = false

-- The substrings, where `piece` is what has been read since the last separator; an empty one is
-- left out.
unfoldable pub split_from : ℕ → Text → Text → List Text
split_from sep piece [] = if is_empty piece then [] else piece ∷ []
split_from sep piece (c ∷ cs) =
    let rest = split_from sep (if c == sep then [] else piece ++ (c ∷ [])) cs in
    if c == sep && not (is_empty piece) then piece ∷ rest else rest

-- The block has a pointer for each substring and one more, and a copy of the string.
unfoldable pub str_split : (ℕ → Bool) → Text → ℕ → Option (List Text)
str_split can_alloc s sep =
    let pieces = split_from sep [] s in
    if can_alloc (8 * (length pieces + 1) + length s + 1) then some pieces else none

-- What stands before and behind the first separator: `strchr`, and the cut there.
unfoldable pub cut : ℕ → Text → Option (Text × Text)
cut sep [] = none
cut sep (c ∷ cs) =
    let later = cut sep cs in
    if c == sep then some ([], cs) else (later >>= λ (key, value). some (c ∷ key, value))

-- `while(*key == ' ') { key++; }`
unfoldable pub skip_spaces : Text → Text
skip_spaces [] = []
skip_spaces (c ∷ cs) = let later = skip_spaces cs in if c == b' ' then later else c ∷ cs

unfoldable pub drop_spaces : Text → Text
drop_spaces [] = []
drop_spaces (c ∷ cs) =
    let rest = drop_spaces cs in if c == b' ' && is_empty rest then [] else c ∷ rest

-- The loop over the trailing spaces, which stops at the first character.
unfoldable pub trim_end : Text → Text
trim_end [] = []
trim_end (c ∷ cs) = c ∷ drop_spaces cs

-- The key and the value of a pair, or none for one without `=`, without a key or without a value.
unfoldable pub parse_pair : Text → Option (Text × Text)
parse_pair pair = cut b'=' pair >>= λ (before, value).
    let key = trim_end (skip_spaces before) in
    if is_empty key then none else if is_empty value then none else some (key, value)

-- The loop over the pairs; a null pointer after the first one that is refused.
unfoldable pub add_pairs : (ℕ → Bool) → Attr → List Text → Attr
add_pairs can_alloc a [] = a
add_pairs can_alloc a (pair ∷ pairs) = elim (parse_pair pair) [
  | none ↦ none
  | some (key, value) ↦
      let (a', rc) = attr_set_str can_alloc a key value in
      let rest = add_pairs can_alloc a' pairs in if rc ==ℤ pos 0 then rest else none
]

unfoldable pub attr_create_from_str : (ℕ → Bool) → Text → Attr
attr_create_from_str can_alloc s =
    if is_empty s
    then none
    else (str_split can_alloc s b'&' >>= λ pairs.
        if can_alloc sizeof_attr then add_pairs can_alloc (some []) pairs else none)
