-- ===== src/Vector/Tests.antt =====
-- Runs of a small vector, and the theorems at some of them.
use junk.Prelude.{ℕ, ◌≡◌, ◌≤◌, ◌↔◌, refl, true, List, [], ◌∷◌, none, some, arith, pos, negsuc}
use junk.Status.{err_out_of_bounds}
use junk.Vector.{Vector, vector_create, vector_set}
use junk.Vector.Moving.{IsVector}
use junk.Vector.Contents.{Represents}
use junk.Vector.Bounds.{vector_set-none}
use junk.Vector.Refinement.{
  Op, insert, put, delete, fetch, code, pointer, calls, list_call, list_calls, AllWithin,
  calls-list_calls,
}
use junk.Vector.Lists.{insert_at, put_at, delete_at}

abbrev small : Vector ℕ
small = record { len = 0; capacity = 2; max_inc = 3; slots = none ∷ none ∷ [] }

small_created : vector_create (λ _. true) true (pos 2) (pos 3) ≡ some small
unfolding vector_create
small_created = refl

small-IsVector : IsVector small
small-IsVector = omega arith

small-Represents : Represents small []
small-Represents = record {
  valid = small-IsVector;
  same_len = refl;
  same = λ i h. absurd (omega arith);
}

abbrev ops : List (Op ℕ)
ops =
    insert (pos 0) (some 5)
    ∷ insert (pos 0) (some 4)
    ∷ insert (pos 1) (some 7)
    ∷ put (pos 3) (some 9)
    ∷ delete (pos 0)
    ∷ fetch (pos 1)
    ∷ put (negsuc 0) none
    ∷ []

ops_within : AllWithin ops []
unfolding list_calls list_call insert_at put_at delete_at
ops_within = omega arith

ops_returned :
    (list_calls ops []).1
    ≡ code (pos 0)
      ∷ code (pos 0)
      ∷ code (pos 0)
      ∷ code (pos 0)
      ∷ pointer (some 4)
      ∷ pointer (some 5)
      ∷ code err_out_of_bounds
      ∷ []
unfolding list_calls list_call insert_at put_at delete_at
ops_returned = refl

calls-list_calls_example :
    (v' : Vector ℕ) × (calls (λ _. true) ops small ≡ some (v', (list_calls ops []).1))
    × Represents v' (list_calls ops []).0
calls-list_calls_example =
    calls-list_calls (λ _. true) (λ n. refl) ops small [] small-Represents ops_within

vector_set-none_example : (vector_set (λ _. true) (some small) (pos 7) (some 1) ≡ none) ↔ (3 ≤ 7)
vector_set-none_example = vector_set-none (λ _. true) small 7 (some 1) small-IsVector refl
