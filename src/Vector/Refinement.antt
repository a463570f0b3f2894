-- ===== src/Vector/Refinement.antt =====
-- A vector behaves like a list, in any sequence of operations; and the bounds in which it may be
-- set.
use junk.Prelude.{
  not_negative, ℕ, ◌≤◌, ◌<◌, ◌≡◌, refl, sym, Bool, true, false, some, none, List, [], ◌∷◌, Option,
  inl, inr, arith, length, get_or, ltb, leb, Bool-cases, get_elem?-get_or, if◌then◌else◌, ℤ, pos,
  negsuc, pos_part, ◌>>=◌, ltb_ℤ, leb_ℤ,
}
use mathlib.Core.Path.{subst}
use junk.Status.{status_ok, err_out_of_bounds}
use junk.Vector.{Vector, vector_get, vector_remove, vector_set, vector_insert, has_index}
use junk.Vector.Lists.{insert_at, delete_at, put_at}
use junk.Vector.Contents.{
  Represents, remove_slot-Represents, insert_slot-Represents, set_slot-Represents, put_at_end,
}

-- A call of one of the functions, and what it returns.
pub data Op (A : Type 0) : Type 0 where
  insert : ℤ → Option A → Op A
  put : ℤ → Option A → Op A
  delete : ℤ → Op A
  fetch : ℤ → Op A

pub data Result (A : Type 0) : Type 0 where
  code : ℤ → Result A
  pointer : Option A → Result A

negative : (n : ℕ) → ltb_ℤ (negsuc n) (pos 0) ≡ true
negative n = ground arith

not_before : (n m : ℕ) → leb_ℤ (pos n) (pos m) ≡ leb n m
not_before n m = ground arith

module _ {A : Type 0} where
  unfoldable pub call : (ℕ → Bool) → Op A → Vector A → Option (Vector A × Result A)
  call alloc (insert i x) v =
      vector_insert alloc (some v) i x >>= λ r. r.0 >>= λ v'. some (v', code r.1)
  call alloc (put i x) v = vector_set alloc (some v) i x >>= λ r. r.0 >>= λ v'. some (v', code r.1)
  call alloc (delete i) v = vector_remove (some v) i >>= λ r. r.0 >>= λ v'. some (v', pointer r.1)
  call alloc (fetch i) v = vector_get (some v) i >>= λ x. some (v, pointer x)

  -- The same on a list: a negative index is refused, or finds nothing.
  unfoldable pub list_call : Op A → List (Option A) → List (Option A) × Result A
  list_call (insert (pos i) x) xs = (insert_at xs i x, code status_ok)
  list_call (insert (negsuc i) x) xs = (xs, code err_out_of_bounds)
  list_call (put (pos i) x) xs = (put_at xs i x, code status_ok)
  list_call (put (negsuc i) x) xs = (xs, code err_out_of_bounds)
  list_call (delete (pos i)) xs =
      if ltb i (length xs) then (delete_at xs i, pointer (get_or xs i none)) else (xs, pointer none)
  list_call (delete (negsuc i)) xs = (xs, pointer none)
  list_call (fetch (pos i)) xs =
      (xs, pointer (if ltb i (length xs) then get_or xs i none else none))
  list_call (fetch (negsuc i)) xs = (xs, pointer none)

  -- Nothing is written behind the end.
  abbrev pub Within : Op A → ℕ → Type 0
  Within (insert i x) n = pos_part i ≤ n
  Within (put i x) n = pos_part i ≤ n
  Within (delete i) n = Unit
  Within (fetch i) n = Unit

  abbrev pub AllWithin : List (Op A) → List (Option A) → Type 0
  AllWithin [] xs = Unit
  AllWithin (op ∷ ops) xs = Within op (length xs) × AllWithin ops (list_call op xs).0

  unfoldable pub calls : (ℕ → Bool) → List (Op A) → Vector A → Option (Vector A × List (Result A))
  calls alloc [] v = some (v, [])
  calls alloc (op ∷ ops) v = do
    first ← call alloc op v
    rest ← calls alloc ops first.0
    some (rest.0, first.1 ∷ rest.1)

  unfoldable pub list_calls : List (Op A) → List (Option A) → List (Option A) × List (Result A)
  list_calls [] xs = (xs, [])
  list_calls (op ∷ ops) xs =
      let (xs', first) = list_call op xs in
      let (xs'', rest) = list_calls ops xs' in (xs'', first ∷ rest)

  has_index_in : (v : Vector A) (i n : ℕ) → v.len ≡ n → has_index v (pos i) ≡ ltb i n
  has_index_in v i n e = ground arith

  has_index_negative : (v : Vector A) (i : ℕ) → has_index v (negsuc i) ≡ false
  has_index_negative v i = ground arith

  -- One call refines its counterpart on lists.
  abbrev pub Refines : (ℕ → Bool) → Op A → Vector A → List (Option A) → Type 0
  Refines alloc op v xs =
      (v' : Vector A) × (call alloc op v ≡ some (v', (list_call op xs).1))
      × Represents v' (list_call op xs).0

  refined :
      (alloc : ℕ → Bool) (op : Op A) (v v' : Vector A) (xs ys : List (Option A)) (result : Result A)
      → list_call op xs ≡ (ys, result)
      → call alloc op v ≡ some (v', result)
      → Represents v' ys
      → Refines alloc op v xs
  refined alloc op v v' xs ys result e run r =
      (v', rw e run, subst (λ l. Represents v' l.0) (sym e) r)

  module _ (alloc : ℕ → Bool) (v : Vector A) (xs : List (Option A)) (r : Represents v xs) where
    delete-Refines : (i : ℕ) → Refines alloc (delete (pos i)) v xs
    unfolding call list_call vector_remove
    delete-Refines i = elim (Bool-cases (ltb i (length xs))) [
      | inl e ↦
          let (v', run, r') = remove_slot-Represents v xs i r (ground arith) in
          refined alloc (delete (pos i)) v v' xs (delete_at xs i) (pointer (get_or xs i none))
            (rw e refl) (rw (has_index_in v i (length xs) r.same_len, e, run) refl) r'
      | inr e ↦
          refined alloc (delete (pos i)) v v xs xs (pointer none) (rw e refl)
            (rw (has_index_in v i (length xs) r.same_len, e) refl) r
    ]

    fetch-Refines : (i : ℕ) → Refines alloc (fetch (pos i)) v xs
    unfolding call list_call vector_get
    fetch-Refines i = elim (Bool-cases (ltb i (length xs))) [
      | inl e ↦
          let below : i < length xs = ground arith in
          refined alloc (fetch (pos i)) v v xs xs (pointer (get_or xs i none)) (rw e refl)
            (rw
              (
                has_index_in v i (length xs) r.same_len,
                e,
                get_elem?-get_or v.slots i none
                    (omega (arith, r.same_len, r.valid.fits, r.valid.sized)),
                r.same i below,
              )
              refl)
            r
      | inr e ↦
          refined alloc (fetch (pos i)) v v xs xs (pointer none) (rw e refl)
            (rw (has_index_in v i (length xs) r.same_len, e) refl) r
    ]

    module _ (always : (n : ℕ) → alloc n ≡ true) where
      put-Refines : (i : ℕ) (x : Option A) → i ≤ length xs → Refines alloc (put (pos i) x) v xs
      unfolding call list_call vector_set
      put-Refines i x le =
          let (v', run, r') = set_slot-Represents alloc always v xs i x r le in
          refined alloc (put (pos i) x) v v' xs (put_at xs i x) (code status_ok) refl
            (rw (not_negative i, run) refl) r'

      insert-Refines :
          (i : ℕ) (x : Option A) → i ≤ length xs → Refines alloc (insert (pos i) x) v xs
      unfolding call list_call vector_insert vector_set
      insert-Refines i x le = elim (Bool-cases (leb v.len i)) [
        | inl e ↦
            let (v', run, r') = set_slot-Represents alloc always v xs i x r le in
            let at_end : i ≡ length xs = ground (arith, r.same_len) in
            refined alloc (insert (pos i) x) v v' xs (insert_at xs i x) (code status_ok) refl
              (rw (not_negative i, not_before v.len i, e, run) refl)
              (rw (← put_at_end xs i x at_end) r')
        | inr e ↦
            let below : i < length xs = ground (arith, r.same_len) in
            let (v', run, r') = insert_slot-Represents alloc always v xs i x r below in
            refined alloc (insert (pos i) x) v v' xs (insert_at xs i x) (code status_ok) refl
              (rw (not_negative i, not_before v.len i, e, run) refl) r'
      ]

  call-Refines :
      (alloc : ℕ → Bool) (always : (n : ℕ) → alloc n ≡ true) (op : Op A) (v : Vector A)
      (xs : List (Option A))
      → Represents v xs
      → Within op (length xs)
      → Refines alloc op v xs
  unfolding call list_call vector_insert vector_set vector_remove vector_get
  call-Refines alloc always (insert (pos i) x) v xs r w = insert-Refines alloc v xs r always i x w
  call-Refines alloc always (insert (negsuc i) x) v xs r w = (v, rw (negative i) refl, r)
  call-Refines alloc always (put (pos i) x) v xs r w = put-Refines alloc v xs r always i x w
  call-Refines alloc always (put (negsuc i) x) v xs r w = (v, rw (negative i) refl, r)
  call-Refines alloc always (delete (pos i)) v xs r w = delete-Refines alloc v xs r i
  call-Refines alloc always (delete (negsuc i)) v xs r w = (v, rw (has_index_negative v i) refl, r)
  call-Refines alloc always (fetch (pos i)) v xs r w = fetch-Refines alloc v xs r i
  call-Refines alloc always (fetch (negsuc i)) v xs r w = (v, rw (has_index_negative v i) refl, r)

  -- With memory at hand, any sequence of calls on a vector that represents a list, none of which
  -- writes behind the end, is defined, returns what the same calls on the list return, and leaves
  -- a vector that represents the list that they leave.
  pub calls-list_calls :
      (alloc : ℕ → Bool) (always : (n : ℕ) → alloc n ≡ true) (ops : List (Op A)) (v : Vector A)
      (xs : List (Option A))
      → Represents v xs
      → AllWithin ops xs
      → (v' : Vector A) × (calls alloc ops v ≡ some (v', (list_calls ops xs).1))
        × Represents v' (list_calls ops xs).0
  unfolding calls list_calls
  calls-list_calls alloc always [] v xs r w = (v, refl, r)
  calls-list_calls alloc always (op ∷ ops) v xs r w =
      let (v1, run, r1) = call-Refines alloc always op v xs r w.0 in
      let (v2, runs, r2) = calls-list_calls alloc always ops v1 (list_call op xs).0 r1 w.1 in
      (v2, rw (run, runs) refl, r2)
