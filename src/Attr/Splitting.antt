-- ===== src/Attr/Splitting.antt =====
-- How the pairs of an attribute string are found and taken apart: libplctag/src/utils/attr.c and
-- `str_split` of libplctag/src/platform/posix/platform.c.
use mathlib.Core.List.{append_assoc, append-nil}
use junk.Prelude.{
  ℕ, ◌≡◌, refl, sym, ap, ◌∙◌, Bool, true, false, not, ◌&&◌, List, [], ◌∷◌, ◌++◌, map, some, arith,
  ◌==◌,
}
use junk.Attr.{Text}
use junk.Attr.Parser.{is_empty, split_from, cut, skip_spaces, drop_spaces, trim_end, parse_pair}

-- The text does not hold the byte.
abbrev pub lacks : ℕ → Text → Bool
lacks c [] = true
lacks c (x ∷ xs) = not (x == c) && lacks c xs

-- The text ends with another byte than a space.
abbrev pub solid_end : Text → Bool
solid_end [] = false
solid_end (c ∷ []) = not (c == b' ')
solid_end (c ∷ (d ∷ ds)) = solid_end (d ∷ ds)

abbrev pub solid_start : Text → Bool
solid_start [] = false
solid_start (c ∷ cs) = not (c == b' ')

-- A key with a value, as they may stand in an attribute string.
pub record IsPair (p : Text × Text) : Type 0 where
  pub starts : solid_start p.0 ≡ true
  pub ends : solid_end p.0 ≡ true
  pub no_separator : lacks b'=' p.0 ≡ true
  pub key_in_one : lacks b'&' p.0 ≡ true
  pub has_value : is_empty p.1 ≡ false
  pub value_in_one : lacks b'&' p.1 ≡ true

abbrev pub print_pair : Text × Text → Text
print_pair (key, value) = key ++ (b'=' ∷ value)

-- `key=value&key=value`
unfoldable pub print_pairs : List (Text × Text) → Text
print_pairs [] = []
print_pairs (p ∷ []) = print_pair p
print_pairs (p ∷ (q ∷ ps)) = print_pair p ++ (b'&' ∷ print_pairs (q ∷ ps))

lacks-append :
    (c : ℕ) (xs ys : Text) → lacks c xs ≡ true → lacks c ys ≡ true → lacks c (xs ++ ys) ≡ true
lacks-append c [] ys h k = k
lacks-append c (x ∷ xs) ys h k =
    ground (arith, λ (h' : lacks c xs ≡ true). lacks-append c xs ys h' k)

is_empty-snoc : (xs : Text) (c : ℕ) (ys : Text) → is_empty (xs ++ (c ∷ ys)) ≡ false
is_empty-snoc [] c ys = refl
is_empty-snoc (x ∷ xs) c ys = refl

split_from-step :
    (sep : ℕ) (piece : Text) (c : ℕ) (cs : Text)
    → (c == sep) ≡ false
    → split_from sep piece (c ∷ cs) ≡ split_from sep (piece ++ (c ∷ [])) cs
unfolding split_from
split_from-step sep piece c cs h = rw (split_from, h) refl

split_from-cut :
    (sep : ℕ) (piece rest : Text)
    → is_empty piece ≡ false
    → split_from sep piece (sep ∷ rest) ≡ piece ∷ split_from sep [] rest
unfolding split_from
split_from-cut sep piece rest h =
    let same : (sep == sep) ≡ true = ground arith in rw (split_from, same, h) refl

other :
    (sep c : ℕ) (cs : Text)
    → lacks sep (c ∷ cs) ≡ true
    → ((c == sep) ≡ false) × (lacks sep cs ≡ true)
other sep c cs h = ground arith

-- A piece that is read up to the end of the string, or up to a separator.
split_from-end :
    (sep : ℕ) (piece t : Text)
    → lacks sep t ≡ true
    → is_empty (piece ++ t) ≡ false
    → split_from sep piece t ≡ (piece ++ t) ∷ []
unfolding split_from
split_from-end sep piece [] h full =
    let same : piece ++ [] ≡ piece = append-nil piece in
    let full' : is_empty piece ≡ false = ap is_empty (sym same) ∙ full in rw (full', same) refl
split_from-end sep piece (c ∷ cs) h full =
    let (ne, h') = other sep c cs h in
    let same : (piece ++ (c ∷ [])) ++ cs ≡ piece ++ (c ∷ cs) = append_assoc piece (c ∷ []) cs in
    split_from-step sep piece c cs ne
    ∙ (split_from-end sep (piece ++ (c ∷ [])) cs h' (ap is_empty same ∙ full)
        ∙ ap (λ (u : Text). u ∷ []) same)

split_from-separator :
    (sep : ℕ) (piece t rest : Text)
    → lacks sep t ≡ true
    → is_empty (piece ++ t) ≡ false
    → split_from sep piece (t ++ (sep ∷ rest)) ≡ (piece ++ t) ∷ split_from sep [] rest
unfolding split_from
split_from-separator sep piece [] rest h full =
    let same : piece ++ [] ≡ piece = append-nil piece in
    split_from-cut sep piece rest (ap is_empty (sym same) ∙ full)
    ∙ ap (λ (u : Text). u ∷ split_from sep [] rest) (sym same)
split_from-separator sep piece (c ∷ cs) rest h full =
    let (ne, h') = other sep c cs h in
    let same : (piece ++ (c ∷ [])) ++ cs ≡ piece ++ (c ∷ cs) = append_assoc piece (c ∷ []) cs in
    split_from-step sep piece c (cs ++ (sep ∷ rest)) ne
    ∙ (split_from-separator sep (piece ++ (c ∷ [])) cs rest h' (ap is_empty same ∙ full)
        ∙ ap (λ (u : Text). u ∷ split_from sep [] rest) same)

cut-first :
    (sep : ℕ) (key value : Text)
    → lacks sep key ≡ true
    → cut sep (key ++ (sep ∷ value)) ≡ some (key, value)
unfolding cut
cut-first sep [] value h = ground arith
cut-first sep (c ∷ cs) value h =
    ground (arith, λ (k : lacks sep cs ≡ true). cut-first sep cs value k)

drop_spaces-cons :
    (c : ℕ) (cs : Text) → is_empty cs ≡ false → drop_spaces cs ≡ cs → drop_spaces (c ∷ cs) ≡ c ∷ cs
unfolding drop_spaces
drop_spaces-cons c cs full e = rw (drop_spaces, e) (ground arith)

drop_spaces-solid : (t : Text) → solid_end t ≡ true → drop_spaces t ≡ t
unfolding drop_spaces
drop_spaces-solid [] h = refl
drop_spaces-solid (c ∷ []) h = ground arith
drop_spaces-solid (c ∷ (d ∷ ds)) h = drop_spaces-cons c (d ∷ ds) refl (drop_spaces-solid (d ∷ ds) h)

skip_spaces-solid : (t : Text) → solid_start t ≡ true → skip_spaces t ≡ t
unfolding skip_spaces
skip_spaces-solid [] h = refl
skip_spaces-solid (c ∷ cs) h = ground arith

trim_end-solid : (t : Text) → solid_end t ≡ true → trim_end t ≡ t
unfolding trim_end drop_spaces
trim_end-solid [] h = refl
trim_end-solid (c ∷ []) h = refl
trim_end-solid (c ∷ (d ∷ ds)) h = ap (λ (u : Text). c ∷ u) (drop_spaces-solid (d ∷ ds) h)

not_empty : (t : Text) → solid_start t ≡ true → is_empty t ≡ false
not_empty [] h = absurd (ground arith)
not_empty (c ∷ cs) h = refl

pub parse_pair-print_pair : (p : Text × Text) → IsPair p → parse_pair (print_pair p) ≡ some p
unfolding parse_pair
parse_pair-print_pair (key, value) p =
    rw
      (
        cut-first b'=' key value p.no_separator,
        skip_spaces-solid key p.starts,
        trim_end-solid key p.ends,
        not_empty key p.starts,
        p.has_value,
      )
      refl

pub print_pair-lacks : (p : Text × Text) → IsPair p → lacks b'&' (print_pair p) ≡ true
print_pair-lacks (key, value) p =
    lacks-append b'&' key (b'=' ∷ value) p.key_in_one (ground (arith, p.value_in_one))

abbrev pub AllPairs : List (Text × Text) → Type 0
AllPairs [] = Unit
AllPairs (p ∷ ps) = IsPair p × AllPairs ps

pub split_from-print_pairs :
    (ps : List (Text × Text))
    → AllPairs ps
    → split_from b'&' [] (print_pairs ps) ≡ map print_pair ps
unfolding print_pairs
split_from-print_pairs [] h = unfold split_from in refl
split_from-print_pairs (p ∷ []) h =
    split_from-end b'&' [] (print_pair p) (print_pair-lacks p h.0) (is_empty-snoc p.0 b'=' p.1)
split_from-print_pairs (p ∷ (q ∷ ps)) h =
    split_from-separator b'&' [] (print_pair p) (print_pairs (q ∷ ps)) (print_pair-lacks p h.0)
      (is_empty-snoc p.0 b'=' p.1)
    ∙ ap (λ (l : List Text). print_pair p ∷ l) (split_from-print_pairs (q ∷ ps) h.1)
