-- ===== src/Attr.antt =====
-- Attribute strings: libplctag/src/utils/attr.c, and `str_split` of
-- libplctag/src/platform/posix/platform.c for a separator of one character. A string is the list
-- of its bytes before the final zero; no string is a null pointer. `can_alloc` says which sizes
-- `mem_alloc` grants; freeing has no effect.
pub mod Parser
pub mod Splitting
pub mod RoundTrip
mod Tests
use junk.Prelude.{
  ℕ, suc, ◌+◌, ◌*◌, Bool, true, false, not, ◌&&◌, List, [], ◌∷◌, ◌++◌, Option, none, some,
  if◌then◌else◌, ◌==◌, ◌>>=◌, ℤ, pos, length,
}

abbrev pub Text : Type 0
Text = List ℕ

-- `str_cmp(a, b) == 0`
unfoldable pub text_eq : Text → Text → Bool
text_eq [] [] = true
text_eq [] (y ∷ ys) = false
text_eq (x ∷ xs) [] = false
text_eq (x ∷ xs) (y ∷ ys) = x == y && text_eq xs ys

-- `struct attr_entry_t`, in a list.
pub record AttrEntry : Type 0 where
  pub name : Text
  pub val : Option Text

-- `attr`, or a null pointer.
abbrev pub Attr : Type 0
Attr = Option (List AttrEntry)

unfoldable pub find_entry : List AttrEntry → Text → Option AttrEntry
find_entry [] name = none
find_entry (e ∷ es) name =
    let later = find_entry es name in if text_eq e.name name then some e else later

-- `str_dup`
abbrev pub str_dup : (ℕ → Bool) → Text → Option Text
str_dup can_alloc s = if can_alloc (length s + 1) then some s else none

-- The new value in the entry that was found; it is a null pointer if there is no memory.
unfoldable pub replace_val : List AttrEntry → Text → Option Text → List AttrEntry
replace_val [] name val = []
replace_val (e ∷ es) name val =
    let later = replace_val es name val in
    if text_eq e.name name then record e { val = val } ∷ es else e ∷ later

abbrev pub sizeof_attr : ℕ
sizeof_attr = 8

abbrev pub sizeof_attr_entry : ℕ
sizeof_attr_entry = 24

unfoldable pub new_entry : (ℕ → Bool) → List AttrEntry → Text → Text → List AttrEntry × ℤ
new_entry can_alloc es name val =
    if can_alloc sizeof_attr_entry
    then elim (str_dup can_alloc name) [
      | none ↦ (es, pos 1)
      | some n ↦ elim (str_dup can_alloc val) [
        | none ↦ (es, pos 1)
        | some v ↦ (record { name = n; val = some v } ∷ es, pos 0)
      ]
    ]
    else (es, pos 1)

unfoldable pub set_in : (ℕ → Bool) → List AttrEntry → Text → Text → List AttrEntry × ℤ
set_in can_alloc es name val = elim (find_entry es name) [
  | none ↦ new_entry can_alloc es name val
  | some e ↦ elim (str_dup can_alloc val) [
    | none ↦ (replace_val es name none, pos 1)
    | some v ↦ (replace_val es name (some v), pos 0)
  ]
]

unfoldable pub attr_set_str : (ℕ → Bool) → Attr → Text → Text → Attr × ℤ
attr_set_str can_alloc none name val = (none, pos 1)
attr_set_str can_alloc (some es) name val =
    let (es', rc) = set_in can_alloc es name val in (some es', rc)

unfoldable pub attr_get_str : Attr → Text → Option Text → Option Text
attr_get_str none name default = default
attr_get_str (some es) name default = elim (find_entry es name) [ none ↦ default | some e ↦ e.val ]

-- `str_to_int` stands on the C library's `strtol`.
unfoldable pub attr_get_int : (Text → Option ℤ) → Attr → Text → ℤ → ℤ
attr_get_int str_to_int a name default = elim (attr_get_str a name none) [
  | none ↦ default
  | some s ↦ elim (str_to_int s) [ none ↦ default | some n ↦ n ]
]

-- The first entry of the name is unlinked.
unfoldable pub unlink : List AttrEntry → Text → List AttrEntry
unlink [] name = []
unlink (e ∷ es) name = let later = unlink es name in if text_eq e.name name then es else e ∷ later

unfoldable pub attr_remove : Attr → Text → Attr × ℤ
attr_remove none name = (none, pos 0)
attr_remove (some es) name = (some (unlink es name), pos 0)
