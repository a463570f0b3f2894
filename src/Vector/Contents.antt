-- ===== src/Vector/Contents.antt =====
-- Each operation of a vector does to its elements what it does to a list.
use junk.Prelude.{
  ℕ, zero, suc, ◌+◌, ◌-◌, ◌≤◌, ◌<◌, ◌≡◌, refl, sym, ap, ◌∙◌, Bool, true, some, none, List, [], ◌∷◌,
  Option, inl, inr, arith, length, get_or, set, ltb, leb, Bool-cases, length-set, get_or-set_self,
  get_or-set_ne, get_elem?-get_or, if◌then◌else◌,
}
use junk.Status.{status_ok}
use junk.Vector.{Vector, new_inc, set_slot, insert_slot, remove_slot}
use junk.Vector.Moving.{move_slots-Moved, store_slot-set, IsVector, ensure_capacity-Ensured}
use junk.Vector.Lists.{
  insert_at, delete_at, put_at, length-insert_at, insert_at_below, insert_at_here, insert_at_above,
  length-delete_at, delete_at_below, delete_at_above, put_at_here, put_at_below, put_at_above,
  length-put_at_inside, length-put_at_end,
}

-- The vector's elements are those of the list.
pub record Represents {A : Type 0} (v : Vector A) (xs : List (Option A)) : Type 0 where
  pub valid : IsVector v
  pub same_len : v.len ≡ length xs
  pub same : (i : ℕ) → i < length xs → get_or v.slots i none ≡ get_or xs i none

-- An index below, at or above another.
by_place :
    (P : ℕ → Type 0) (i : ℕ)
    → ((j : ℕ) → j < i → P j)
    → P i
    → ((j : ℕ) → i ≤ j → P (suc j))
    → (j : ℕ) → P j
by_place P zero below here above zero = here
by_place P zero below here above (suc j) = above j (omega arith)
by_place P (suc i) below here above zero = below zero (omega arith)
by_place P (suc i) below here above (suc j) =
    by_place (λ k. P (suc k)) i (λ k lt. below (suc k) (omega arith)) here
      (λ k le. above (suc k) (omega arith)) j

put_at_bound : (n i j : ℕ) → i ≤ j → suc j < (if leb n i then i + 1 else n) → suc j < n
put_at_bound n i j above within = ground arith

module _ {A : Type 0} where
  pub remove_slot-Represents :
      (v : Vector A) (xs : List (Option A)) (i : ℕ)
      → Represents v xs
      → i < length xs
      → (v' : Vector A) × (remove_slot v i ≡ some (v', get_or xs i none))
        × Represents v' (delete_at xs i)
  unfolding remove_slot
  remove_slot-Represents v xs i r lt =
      let size = r.valid.sized in
      let fits = r.valid.fits in
      let shrunk = length-delete_at xs i lt in
      let last = v.len - 1 in
      let (moved, m) =
        move_slots-Moved v.slots none i (i + 1) (v.len - i - 1) (omega (arith, r.same_len))
          (omega (arith, r.same_len)) in
      let inside : last < length moved = omega (arith, r.same_len, m.same_length) in
      let size' = length-set moved last none in
      let rest : (j : ℕ) → j < last → get_or (set moved last none) j none ≡ get_or moved j none =
        λ j below. get_or-set_ne moved last j none none (omega arith) in
      (
        record v { slots = set moved last none; len = last },
        rw
            (
              get_elem?-get_or v.slots i none (omega (arith, r.same_len)),
              m.runs,
              store_slot-set moved last none inside,
              r.same i lt,
            )
            refl,
        record {
          valid = record { sized = omega (arith, size', m.same_length); fits = omega arith };
          same_len = omega (arith, r.same_len);
          same = λ j below. elim (Bool-cases (ltb j i)) [
            | inl e ↦
                let before : j < i = ground arith in
                rest j (omega (arith, r.same_len))
                ∙ m.kept j before
                ∙ r.same j (omega arith)
                ∙ sym (delete_at_below xs i j none before)
            | inr e ↦
                let after : i ≤ j = ground arith in
                let at : i + (j - i) ≡ j = omega arith in
                let at' : i + 1 + (j - i) ≡ suc j = omega arith in
                rest j (omega (arith, r.same_len))
                ∙ rw (at, at') at (m.moved (j - i) (omega (arith, r.same_len)))
                ∙ r.same (suc j) (omega arith)
                ∙ sym (delete_at_above xs i j none after)
          ];
        },
      )

  module _ (alloc : ℕ → Bool) (always : (n : ℕ) → alloc n ≡ true) where
    pub insert_slot-Represents :
        (v : Vector A) (xs : List (Option A)) (i : ℕ) (x : Option A)
        → Represents v xs
        → i < length xs
        → (v' : Vector A) × (insert_slot alloc v i x ≡ some (v', status_ok))
          × Represents v' (insert_at xs i x)
    unfolding insert_slot
    insert_slot-Represents v xs i x r lt =
        let (v1, e) =
          ensure_capacity-Ensured v (v.len + 1) alloc r.valid (omega arith)
            (always (v.capacity + new_inc v)) in
        let size = e.valid.sized in
        let (moved, m) =
          move_slots-Moved v1.slots none (i + 1) i (v1.len - i)
            (omega (arith, r.same_len, e.same_len, e.room))
            (omega (arith, r.same_len, e.same_len, e.room)) in
        let inside : i < length moved =
          omega (arith, r.same_len, e.same_len, e.room, m.same_length) in
        let longer = length-insert_at xs i x in
        (
          record v1 { slots = set moved i x; len = v1.len + 1 },
          rw (e.runs, m.runs, store_slot-set moved i x inside) refl,
          record {
            valid = record {
              sized = omega (arith, length-set moved i x, m.same_length);
              fits = omega (arith, e.same_len, e.room);
            };
            same_len = omega (arith, r.same_len, e.same_len);
            same =
                by_place
                  (λ j.
                    j < length (insert_at xs i x)
                    → get_or (set moved i x) j none ≡ get_or (insert_at xs i x) j none)
                  i
                  (λ j below _.
                    get_or-set_ne moved i j x none (omega arith)
                    ∙ m.kept j (omega arith)
                    ∙ e.same j (omega (arith, r.same_len))
                    ∙ r.same j (omega arith)
                    ∙ sym (insert_at_below xs i j x none (omega arith) below))
                  (λ _.
                    get_or-set_self moved i x none inside
                    ∙ sym (insert_at_here xs i x none (omega arith)))
                  (λ j above within.
                    let at : i + (j - i) ≡ j = omega arith in
                    let at' : i + 1 + (j - i) ≡ suc j = omega arith in
                    get_or-set_ne moved i (suc j) x none (omega arith)
                    ∙ rw (at, at') at (m.moved (j - i) (omega (arith, r.same_len, e.same_len)))
                    ∙ e.same j (omega (arith, r.same_len))
                    ∙ r.same j (omega arith)
                    ∙ sym (insert_at_above xs i j x none (omega arith) above));
          },
        )

    length-put_at :
        (xs : List (Option A)) (i : ℕ) (x : Option A)
        → i ≤ length xs
        → length (put_at xs i x) ≡ (if leb (length xs) i then i + 1 else length xs)
    length-put_at xs i x le = elim (Bool-cases (leb (length xs) i)) [
      | inl e ↦
          let same : i ≡ length xs = ground arith in
          rw (e, same) (length-put_at_end xs x ∙ omega arith)
      | inr e ↦ rw e (length-put_at_inside xs i x (ground arith))
    ]

    pub set_slot-Represents :
        (v : Vector A) (xs : List (Option A)) (i : ℕ) (x : Option A)
        → Represents v xs
        → i ≤ length xs
        → (v' : Vector A) × (set_slot alloc v i x ≡ some (v', status_ok))
          × Represents v' (put_at xs i x)
    unfolding set_slot
    set_slot-Represents v xs i x r le =
        let (v1, e) =
          ensure_capacity-Ensured v (i + 1) alloc r.valid (omega (arith, r.same_len))
            (always (v.capacity + new_inc v)) in
        let inside : i < length v1.slots = omega (arith, e.valid.sized, e.room) in
        let len = e.same_len ∙ r.same_len in
        let longer = length-put_at xs i x le in
        (
          record v1 { slots = set v1.slots i x; len = if leb v1.len i then i + 1 else v1.len },
          rw (e.runs, store_slot-set v1.slots i x inside) refl,
          record {
            valid = record {
              sized = omega (arith, length-set v1.slots i x, e.valid.sized);
              fits = ground (arith, e.valid.fits, e.room);
            };
            same_len = rw len (sym longer);
            same =
                by_place
                  (λ j.
                    j < length (put_at xs i x)
                    → get_or (set v1.slots i x) j none ≡ get_or (put_at xs i x) j none)
                  i
                  (λ j below _.
                    get_or-set_ne v1.slots i j x none (omega arith)
                    ∙ e.same j (omega (arith, r.same_len))
                    ∙ r.same j (omega arith)
                    ∙ sym (put_at_below xs i j x none le below))
                  (λ _. get_or-set_self v1.slots i x none inside ∙ sym (put_at_here xs i x none le))
                  (λ j above within.
                    let short = put_at_bound (length xs) i j above (rw longer at within) in
                    get_or-set_ne v1.slots i (suc j) x none (omega arith)
                    ∙ e.same (suc j) (omega (arith, r.same_len))
                    ∙ r.same (suc j) short
                    ∙ sym (put_at_above xs i (suc j) x none (omega arith) (omega arith)));
          },
        )

put_at-insert_at :
    {X : Type 0} (xs : List X) (x : X) → put_at xs (length xs) x ≡ insert_at xs (length xs) x
unfolding put_at insert_at
put_at-insert_at [] x = refl
put_at-insert_at (y ∷ ys) x = ap (λ zs. y ∷ zs) (put_at-insert_at ys x)

-- At the end of the list, insertion and replacement are the same.
pub put_at_end :
    {X : Type 0} (xs : List X) (i : ℕ) (x : X) → i ≡ length xs → put_at xs i x ≡ insert_at xs i x
put_at_end xs i x e = rw e (put_at-insert_at xs x)
