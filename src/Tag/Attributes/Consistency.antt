-- ===== src/Tag/Attributes/Consistency.antt =====
-- What `set_tag_byte_order` lets through.
use junk.Prelude.{
  ℕ, ◌-◌, ◌≡◌, ◌<◌, refl, sym, ap, Bool, true, false, not, List, [], ◌∷◌, if◌then◌else◌, ℤ, pos,
  ◌==ℤ◌, ==ℤ_iff, ◌&&◌, ◌||◌, arith, inl, inr, All, get_or, ◌==◌, leb_ℤ, pos_part, Option-cases,
  ltb,
}
use mathlib.Core.Path.{subst}
use native.Mathlib.Nat.{mod-eq_of_lt}
use junk.Memory.{IsOrder}
use junk.Status.{status_ok, err_bad_param}
use junk.Tag.{ByteOrder, IsOrdered}
use junk.Tag.Order.{check_byte_order_str, digits_of, check_byte_order_str_iff}
use junk.Tag.Attributes.{
  Attribute, int16_byte_order, int32_byte_order, int64_byte_order, float32_byte_order,
  float64_byte_order, is_counted, is_fixed_length, is_zero_terminated, is_byte_swapped,
  count_word_bytes, max_capacity, total_length, pad_bytes, pad_to_multiple_bytes, Attribs, Block,
  is_given, overrides, all_attributes, masked_digits, set_order, set_flag, set_count, set_size,
  set_pad_multiple, parts, check_strings, run_blocks, order_blocks, string_blocks,
  set_tag_byte_order,
}

-- A block that leaves valid byte orders valid, whatever it returns.
abbrev pub KeepsOrders : Block → Type 0
KeepsOrders block = (o : ByteOrder) → IsOrdered o → IsOrdered (block o).0

masked-digits_of :
    (n : ℕ) (cs : List ℕ) → All (λ o. o < n) (digits_of cs) → masked_digits n cs ≡ digits_of cs
masked-digits_of n [] h = refl
masked-digits_of n (c ∷ cs) h =
    rw (mod-eq_of_lt h.0) (ap (λ os. (c - b'0') ∷ os) (masked-digits_of n cs h.1))

-- An accepted text stands for a byte order.
accepted-IsOrder :
    (n : ℕ) (cs : List ℕ)
    → 0 < n
    → (check_byte_order_str cs n ==ℤ status_ok) ≡ true
    → IsOrder n (masked_digits n cs)
accepted-IsOrder n cs positive ok =
    let order =
      ((check_byte_order_str_iff cs n positive).0
        ((==ℤ_iff (check_byte_order_str cs n) status_ok).0 ok)).1 in
    subst (IsOrder n) (sym (masked-digits_of n cs order.within)) order

if-IsOrdered :
    (b : Bool) (u v : ByteOrder × ℤ)
    → (b ≡ true → IsOrdered u.0)
    → IsOrdered v.0
    → IsOrdered (if b then u else v).0
if-IsOrdered true u v x y = x refl
if-IsOrdered false u v x y = y

set_order-KeepsOrders :
    (attribs : Attribs) (name : Attribute) (n : ℕ) (put : List ℕ → ByteOrder → ByteOrder)
    → 0 < n
    → ((d : List ℕ) (o : ByteOrder) → IsOrder n d → IsOrdered o → IsOrdered (put d o))
    → KeepsOrders (set_order attribs name n put)
unfolding set_order
set_order-KeepsOrders attribs name n put positive keeps o h =
    elim (Option-cases (attribs.get_str name)) [
      | inl e ↦ rw (set_order, e) h
      | inr (cs, e) ↦
          rw (set_order, e)
            (if-IsOrdered (check_byte_order_str cs n ==ℤ status_ok) _ _
              (λ ok. keeps (masked_digits n cs) o (accepted-IsOrder n cs positive ok) h) h)
    ]

-- The fields that the byte orders stand in.
abbrev orders : ByteOrder → List (List ℕ)
orders o = o.int16_order ∷ o.int32_order ∷ o.int64_order ∷ o.float32_order ∷ o.float64_order ∷ []

with_orders : (o o' : ByteOrder) → orders o' ≡ orders o → IsOrdered o → IsOrdered o'
with_orders o o' e h = record {
  int16 = subst (IsOrder 2) (sym (ap (λ l. get_or l 0 []) e)) h.int16;
  int32 = subst (IsOrder 4) (sym (ap (λ l. get_or l 1 []) e)) h.int32;
  int64 = subst (IsOrder 8) (sym (ap (λ l. get_or l 2 []) e)) h.int64;
  float32 = subst (IsOrder 4) (sym (ap (λ l. get_or l 3 []) e)) h.float32;
  float64 = subst (IsOrder 8) (sym (ap (λ l. get_or l 4 []) e)) h.float64;
}

-- A block that does not touch the byte orders.
SameOrders : Block → Type 0
SameOrders block = (o : ByteOrder) → orders (block o).0 ≡ orders o

if_same :
    (b : Bool) (u v : ByteOrder × ℤ) (o : ByteOrder)
    → orders u.0 ≡ orders o
    → orders v.0 ≡ orders o
    → orders (if b then u else v).0 ≡ orders o
if_same true u v o x y = x
if_same false u v o x y = y

SameOrders-KeepsOrders : (block : Block) → SameOrders block → KeepsOrders block
unfolding SameOrders
SameOrders-KeepsOrders block same o h = with_orders o (block o).0 (same o) h

set_flag-SameOrders :
    (attribs : Attribs) (name : Attribute) (put : Bool → ByteOrder → ByteOrder)
    → ((b : Bool) (o : ByteOrder) → orders (put b o) ≡ orders o)
    → SameOrders (set_flag attribs name put)
unfolding SameOrders set_flag
set_flag-SameOrders attribs name put same o =
    if_same (is_given attribs name) _ _ o
      (if_same (attribs.get_int name ==ℤ pos 1 || attribs.get_int name ==ℤ pos 0) _ _ o
        (same (not (attribs.get_int name ==ℤ pos 0)) o) refl)
      refl

set_size-SameOrders :
    (attribs : Attribs) (name : Attribute) (put : ℕ → ByteOrder → ByteOrder)
    → ((n : ℕ) (o : ByteOrder) → orders (put n o) ≡ orders o)
    → SameOrders (set_size attribs name put)
unfolding SameOrders set_size
set_size-SameOrders attribs name put same o =
    if_same (is_given attribs name) _ _ o
      (if_same (leb_ℤ (pos 0) (attribs.get_int name)) _ _ o
        (same (pos_part (attribs.get_int name)) o) refl)
      refl

set_count-SameOrders : (attribs : Attribs) → SameOrders (set_count attribs)
unfolding SameOrders set_count
set_count-SameOrders attribs o =
    if_same (is_given attribs count_word_bytes) _ _ o (if_same _ _ _ o refl refl) refl

set_pad_multiple-SameOrders : (attribs : Attribs) → SameOrders (set_pad_multiple attribs)
unfolding SameOrders set_pad_multiple
set_pad_multiple-SameOrders attribs o =
    if_same (is_given attribs pad_to_multiple_bytes) _ _ o (if_same _ _ _ o refl refl) refl

check_strings-SameOrders : SameOrders check_strings
unfolding SameOrders check_strings
check_strings-SameOrders o =
    let fail : ByteOrder × ℤ = (o, err_bad_param) in
    let defined : ByteOrder × ℤ = (record o { str_is_defined = true }, status_ok) in
    let last = if o.str_is_counted || o.str_is_zero_terminated then defined else (o, status_ok) in
    let sized =
      if ltb 0 o.str_total_length && ltb o.str_total_length (parts o) then fail else last in
    let fixed = if o.str_is_fixed_length && o.str_total_length == 0 then fail else sized in
    let last_same =
      if_same (o.str_is_counted || o.str_is_zero_terminated) defined (o, status_ok) o refl refl in
    let sized_same =
      if_same (ltb 0 o.str_total_length && ltb o.str_total_length (parts o)) fail last o refl
        last_same in
    let fixed_same =
      if_same (o.str_is_fixed_length && o.str_total_length == 0) fail sized o refl sized_same in
    if_same (o.str_is_counted && o.str_count_word_bytes == 0) fail fixed o refl fixed_same

run_blocks-KeepsOrders :
    (blocks : List Block) → All KeepsOrders blocks → KeepsOrders (run_blocks blocks)
unfolding run_blocks
run_blocks-KeepsOrders [] keeps o h = h
run_blocks-KeepsOrders (block ∷ blocks) keeps o h =
    let h' = keeps.0 o h in
    if-IsOrdered ((block o).1 ==ℤ status_ok) _ _
      (λ _. run_blocks-KeepsOrders blocks keeps.1 (block o).0 h') h'

order_blocks-KeepsOrders : (attribs : Attribs) → All KeepsOrders (order_blocks attribs)
order_blocks-KeepsOrders attribs = (
  set_order-KeepsOrders attribs int16_byte_order 2 _ (omega arith) (λ d o v h. record {
    int16 = v;
    int32 = h.int32;
    int64 = h.int64;
    float32 = h.float32;
    float64 = h.float64;
  }),
  (
    set_order-KeepsOrders attribs int32_byte_order 4 _ (omega arith) (λ d o v h. record {
      int16 = h.int16;
      int32 = v;
      int64 = h.int64;
      float32 = h.float32;
      float64 = h.float64;
    }),
    (
      set_order-KeepsOrders attribs int64_byte_order 8 _ (omega arith) (λ d o v h. record {
        int16 = h.int16;
        int32 = h.int32;
        int64 = v;
        float32 = h.float32;
        float64 = h.float64;
      }),
      (
        set_order-KeepsOrders attribs float32_byte_order 4 _ (omega arith) (λ d o v h. record {
          int16 = h.int16;
          int32 = h.int32;
          int64 = h.int64;
          float32 = v;
          float64 = h.float64;
        }),
        (
          set_order-KeepsOrders attribs float64_byte_order 8 _ (omega arith) (λ d o v h. record {
            int16 = h.int16;
            int32 = h.int32;
            int64 = h.int64;
            float32 = h.float32;
            float64 = v;
          }),
          tt,
        ),
      ),
    ),
  ),
)

string_blocks-KeepsOrders : (attribs : Attribs) → All KeepsOrders (string_blocks attribs)
string_blocks-KeepsOrders attribs = (
  SameOrders-KeepsOrders _ (set_flag-SameOrders attribs is_counted _ (λ b o. refl)),
  (
    SameOrders-KeepsOrders _ (set_flag-SameOrders attribs is_fixed_length _ (λ b o. refl)),
    (
      SameOrders-KeepsOrders _ (set_flag-SameOrders attribs is_zero_terminated _ (λ b o. refl)),
      (
        SameOrders-KeepsOrders _ (set_flag-SameOrders attribs is_byte_swapped _ (λ b o. refl)),
        (
          SameOrders-KeepsOrders _ (set_count-SameOrders attribs),
          (
            SameOrders-KeepsOrders _ (set_size-SameOrders attribs max_capacity _ (λ n o. refl)),
            (
              SameOrders-KeepsOrders _ (set_size-SameOrders attribs total_length _ (λ n o. refl)),
              (
                SameOrders-KeepsOrders _ (set_size-SameOrders attribs pad_bytes _ (λ n o. refl)),
                (
                  SameOrders-KeepsOrders _ (set_pad_multiple-SameOrders attribs),
                  (SameOrders-KeepsOrders check_strings check_strings-SameOrders, tt),
                ),
              ),
            ),
          ),
        ),
      ),
    ),
  ),
)

-- Whatever the attributes are, and whether it succeeds or not, the byte orders of the tag stay
-- valid: each position of a word is used once.
pub set_tag_byte_order-IsOrdered :
    (allocated : Bool) (attribs : Attribs) (o : ByteOrder)
    → IsOrdered o
    → IsOrdered (set_tag_byte_order allocated attribs o).0
unfolding set_tag_byte_order
set_tag_byte_order-IsOrdered allocated attribs o h =
    let (o', rc) = run_blocks (order_blocks attribs) o in
    let h' : IsOrdered o' =
      run_blocks-KeepsOrders (order_blocks attribs) (order_blocks-KeepsOrders attribs) o h in
    if-IsOrdered (overrides attribs all_attributes) _ _
      (λ _.
        if-IsOrdered allocated _ _
          (λ _.
            if-IsOrdered (rc ==ℤ status_ok) _ _
              (λ _.
                run_blocks-KeepsOrders (string_blocks attribs) (string_blocks-KeepsOrders attribs)
                  o' h')
              h')
          h)
      h
