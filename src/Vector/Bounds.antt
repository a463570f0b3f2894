-- ===== src/Vector/Bounds.antt =====
-- How far behind its end a vector can be set.
use junk.Prelude.{
  not_negative, ℕ, ◌+◌, ◌≤◌, ◌≡◌, ◌↔◌, refl, Bool, true, some, none, Option, inl, inr, arith,
  length, ltb, leb, Bool-cases, pos, ◌++◌, take, replicate, length-append, length-take,
  length-replicate,
}
use junk.Status.{status_ok}
use junk.Vector.{Vector, vector_set, set_slot, new_inc, ensure_capacity}
use junk.Vector.Moving.{IsVector}

not_none : {X : Type 0} {x : X} → some x ≡ none → ⊥
not_none h = cc

never : {P Q : Type 0} → (P → ⊥) → (Q → ⊥) → (P ↔ Q)
never p q = (λ x. absurd (p x), λ y. absurd (q y))

both : {P Q : Type 0} → P → Q → (P ↔ Q)
both p q = (λ _. q, λ _. p)

module _ {A : Type 0} where
  -- The capacity after `ensure_capacity`, and the array with it.
  reached :
      (alloc : ℕ → Bool) (v : Vector A) (i : ℕ)
      → IsVector v
      → alloc (v.capacity + new_inc v) ≡ true
      → (v' : Vector A) × (ensure_capacity alloc v (i + 1) ≡ (v', status_ok))
        × ((length v'.slots ≤ i) ↔ (v.capacity + new_inc v ≤ i))
  unfolding ensure_capacity
  reached alloc v i h ok = elim (Bool-cases (leb (i + 1) v.capacity)) [
    | inl e ↦ (v, rw e refl, never (λ short. ground (arith, h.sized)) (λ far. ground arith))
    | inr e ↦
        let none' : Option A = none in
        let old = take v.capacity v.slots in
        let v' = record v {
          slots = old ++ replicate (new_inc v) none';
          capacity = v.capacity + new_inc v;
        } in
        let size : length v'.slots ≡ v.capacity + new_inc v = omega (
          arith,
          h.sized,
          length-take v.capacity v.slots,
          length-append old (replicate (new_inc v) none'),
          length-replicate (new_inc v) none',
        ) in
        (v', rw (e, ok) refl, (λ short. omega (arith, size), λ far. omega (arith, size)))
  ]

  -- With memory at hand, setting a valid vector at an index that is not negative leaves the array,
  -- which is undefined behaviour, exactly if the index is not below the capacity and one increment:
  -- the array grows only once.
  pub vector_set-none :
      (alloc : ℕ → Bool) (v : Vector A) (i : ℕ) (x : Option A)
      → IsVector v
      → alloc (v.capacity + new_inc v) ≡ true
      → (vector_set alloc (some v) (pos i) x ≡ none) ↔ (v.capacity + new_inc v ≤ i)
  unfolding vector_set set_slot
  vector_set-none alloc v i x h ok =
      let (v', run, outside) = reached alloc v i h ok in
      elim (Bool-cases (ltb i (length v'.slots))) [
        | inl e ↦
            never (λ undefined. not_none (rw (not_negative i, run, e) at undefined))
              (λ far. ground (arith, outside.1 far))
        | inr e ↦ both (rw (not_negative i, run, e) refl) (outside.0 (ground arith))
      ]
