-- ===== src/Attr/RoundTrip.antt =====
-- An attribute string gives back the values that were put into it: libplctag/src/utils/attr.c.
use mathlib.Core.Bool.{false≢true}
use junk.Prelude.{
  ℕ, ◌+◌, ◌*◌, ◌≡◌, refl, sym, ap, ◌∙◌, Bool, true, false, List, [], ◌∷◌, map, Option, none, some,
  arith, Bool-cases, Option-cases, if◌then◌else◌, inl, inr, pos, length, if_first, if_second,
}
use junk.Attr.{
  Text, text_eq, AttrEntry, find_entry, replace_val, new_entry, set_in, attr_set_str, attr_get_str,
  sizeof_attr, sizeof_attr_entry,
}
use junk.Attr.Parser.{is_empty, str_split, add_pairs, attr_create_from_str}
use junk.Attr.Splitting.{
  AllPairs, print_pair, print_pairs, split_from-print_pairs, parse_pair-print_pair,
}

text_eq_refl : (t : Text) → text_eq t t ≡ true
unfolding text_eq
text_eq_refl [] = refl
text_eq_refl (c ∷ cs) = ground (arith, text_eq_refl cs)

text_eq_same : (s t : Text) → text_eq s t ≡ true → s ≡ t
unfolding text_eq
text_eq_same [] [] h = refl
text_eq_same [] (d ∷ ds) h = absurd (ground arith)
text_eq_same (c ∷ cs) [] h = absurd (ground arith)
text_eq_same (c ∷ cs) (d ∷ ds) h =
    let heads : c ≡ d = ground arith in
    let tails : cs ≡ ds = text_eq_same cs ds (ground arith) in rw (heads, tails) refl

-- The value of a name in the list.
abbrev get : List AttrEntry → Text → Option Text → Option Text
get es name default = elim (find_entry es name) [ none ↦ default | some e ↦ e.val ]

get-cons :
    (e : AttrEntry) (es : List AttrEntry) (name : Text) (d : Option Text)
    → get (e ∷ es) name d ≡ (if text_eq e.name name then e.val else get es name d)
unfolding find_entry
get-cons e es name d = ground arith

-- A name that is another than `n` and is `m` tells them apart.
differ : (x n m : Text) → text_eq x n ≡ false → text_eq x m ≡ true → text_eq n m ≡ false
differ x n m h k = elim (Bool-cases (text_eq n m)) [
  | inl b ↦
      let same = text_eq_same x m k ∙ sym (text_eq_same n m b) in
      absurd (false≢true (sym h ∙ (ap (λ (u : Text). text_eq u n) same ∙ text_eq_refl n)))
  | inr b ↦ b
]

get-replace_val :
    (es : List AttrEntry) (e : AttrEntry) (n m v : Text) (d : Option Text)
    → find_entry es n ≡ some e
    → get (replace_val es n (some v)) m d ≡ (if text_eq n m then some v else get es m d)
unfolding find_entry replace_val
get-replace_val [] e n m v d h = absurd (ground arith)
get-replace_val (x ∷ xs) e n m v d h = elim (Bool-cases (text_eq x.name n)) [
  | inl b ↦
      let same = ap (λ (u : Text). text_eq u m) (text_eq_same x.name n b) in
      ap (λ (l : List AttrEntry). get l m d) (if_first _ _ b)
      ∙ (get-cons (record x { val = some v }) xs m d ∙ ground (arith, same, get-cons x xs m d))
  | inr b ↦
      let ih = get-replace_val xs e n m v d (sym (if_second _ _ b) ∙ h) in
      let other = differ x.name n m b in
      ap (λ (l : List AttrEntry). get l m d) (if_second _ _ b)
      ∙ (get-cons x (replace_val xs n (some v)) m d ∙ ground (arith, ih, other, get-cons x xs m d))
]

-- All the memory that is asked for is there.
abbrev pub Grants : (ℕ → Bool) → Type 0
Grants can_alloc = (n : ℕ) → can_alloc n ≡ true

record HasSet (es es' : List AttrEntry) (n v : Text) (can_alloc : ℕ → Bool) : Type 0 where
  runs : attr_set_str can_alloc (some es) n v ≡ (some es', pos 0)
  gives : (m : Text) (d : Option Text) → get es' m d ≡ (if text_eq n m then some v else get es m d)

attr_set_str-HasSet :
    (can_alloc : ℕ → Bool) (es : List AttrEntry) (n v : Text)
    → Grants can_alloc
    → (es' : List AttrEntry) × HasSet es es' n v can_alloc
unfolding attr_set_str set_in new_entry
attr_set_str-HasSet can_alloc es n v g = elim (Option-cases (find_entry es n)) [
  | inl h ↦ (
    record { name = n; val = some v } ∷ es,
    record {
      runs =
          rw
            (
              attr_set_str,
              set_in,
              h,
              new_entry,
              g sizeof_attr_entry,
              g (length n + 1),
              g (length v + 1),
            )
            refl;
      gives = λ m d. get-cons (record { name = n; val = some v }) es m d;
    },
  )
  | inr (e, h) ↦ (
    replace_val es n (some v),
    record {
      runs = rw (attr_set_str, set_in, h, g (length v + 1)) refl;
      gives = λ m d. get-replace_val es e n m v d h;
    },
  )
]

-- What the pairs give for a name: the last value, or what there was before.
abbrev pub last_value : List (Text × Text) → Text → Option Text → Option Text
last_value [] name default = default
last_value ((key, value) ∷ ps) name default =
    last_value ps name (if text_eq key name then some value else default)

record IsAdded (es es' : List AttrEntry) (ps : List (Text × Text)) (can_alloc : ℕ → Bool)
    : Type 0 where
  runs : add_pairs can_alloc (some es) (map print_pair ps) ≡ some es'
  gives : (m : Text) (d : Option Text) → get es' m d ≡ last_value ps m (get es m d)

add_pairs-IsAdded :
    (can_alloc : ℕ → Bool) (ps : List (Text × Text)) (es : List AttrEntry)
    → Grants can_alloc
    → AllPairs ps
    → (es' : List AttrEntry) × IsAdded es es' ps can_alloc
unfolding add_pairs
add_pairs-IsAdded can_alloc [] es g h = (es, record { runs = refl; gives = λ m d. refl })
add_pairs-IsAdded can_alloc ((key, value) ∷ ps) es g h =
    let (mid, s) = attr_set_str-HasSet can_alloc es key value g in
    let (es', r) = add_pairs-IsAdded can_alloc ps mid g h.1 in
    (
      es',
      record {
        runs = rw (add_pairs, parse_pair-print_pair (key, value) h.0, s.runs, r.runs) refl;
        gives = λ m d. r.gives m d ∙ ap (λ o. last_value ps m o) (s.gives m d);
      },
    )

print_pairs-full :
    (p : Text × Text) (ps : List (Text × Text)) → is_empty (print_pairs (p ∷ ps)) ≡ false
unfolding print_pairs
print_pairs-full ([], value) [] = refl
print_pairs-full (c ∷ cs, value) [] = refl
print_pairs-full ([], value) (q ∷ ps) = refl
print_pairs-full (c ∷ cs, value) (q ∷ ps) = refl

-- At least one pair of a key and a value, the key without `=`, `&`, and a space at either end, the
-- value without `&`, and neither of them empty: if there is memory, the attribute string that is
-- made of the pairs, with `=` in each and `&` between them, is accepted, and asking for a name
-- gives the value of the last pair with that name, or the default if there is none.
pub attributes-round_trip :
    (can_alloc : ℕ → Bool) (p : Text × Text) (ps : List (Text × Text))
    → Grants can_alloc
    → AllPairs (p ∷ ps)
    → (es : List AttrEntry) × (attr_create_from_str can_alloc (print_pairs (p ∷ ps)) ≡ some es)
      × ((name : Text) (default : Option Text)
          → attr_get_str (some es) name default ≡ last_value (p ∷ ps) name default)
unfolding attr_create_from_str str_split attr_get_str find_entry
attributes-round_trip can_alloc p ps g h =
    let (es, a) = add_pairs-IsAdded can_alloc (p ∷ ps) [] g h in
    (
      es,
      if_second _ _ (print_pairs-full p ps)
          ∙ (rw (split_from-print_pairs (p ∷ ps) h, g sizeof_attr)
              (rw
                (g (8 * (length (map print_pair (p ∷ ps)) + 1) + length (print_pairs (p ∷ ps)) + 1))
                a.runs)),
      λ name default. a.gives name default,
    )
