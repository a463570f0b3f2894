-- ===== src/Vector/Moving.antt =====
-- A move of slots inside an array, and the growth of one.
use junk.Prelude.{
  ℕ, zero, suc, ◌+◌, ◌≤◌, ◌<◌, ◌≡◌, refl, ◌∙◌, Bool, true, ◌++◌, some, none, List, Option, inl, inr,
  arith, length, get_or, take, drop, replicate, leb, le→leb, lt→ltb, Bool-cases, length-append,
  length-take, length-drop, length-replicate, get_or-drop, get_or-take, get_or-append_left,
  get_or-append_right, set,
}
use junk.Status.{status_ok}
use junk.Vector.{Vector, new_inc, move_slots, store_slot, ensure_capacity}

module _ {X : Type 0} where
  pub record Moved (xs : List X) (d : X) (dest src n : ℕ) (after : List X) : Type 0 where
    pub runs : move_slots xs dest src n ≡ some after
    pub same_length : length after ≡ length xs
    pub moved : (j : ℕ) → j < n → get_or after (dest + j) d ≡ get_or xs (src + j) d
    pub kept : (p : ℕ) → p < dest → get_or after p d ≡ get_or xs p d

  pub move_slots-Moved :
      (xs : List X) (d : X) (dest src n : ℕ)
      → dest + n ≤ length xs
      → src + n ≤ length xs
      → (after : List X) × Moved xs d dest src n after
  unfolding move_slots
  move_slots-Moved xs d dest src zero room fit = (
    xs,
    record {
      runs = refl;
      same_length = refl;
      moved = λ j h. absurd (omega arith);
      kept = λ p h. refl;
    },
  )
  move_slots-Moved xs d dest src (suc n) room fit =
      let size = suc n in
      let front = take dest xs in
      let middle = take size (drop src xs) in
      let back = drop (dest + size) xs in
      let front_length : length front ≡ dest = omega (arith, length-take dest xs) in
      let middle_length : length middle ≡ size =
        omega (arith, length-take size (drop src xs), length-drop src xs) in
      (
        front ++ (middle ++ back),
        record {
          runs =
              rw (le→leb (dest + size) (length xs) room, le→leb (src + size) (length xs) fit) refl;
          same_length = omega (
            arith,
            length-append front (middle ++ back),
            length-append middle back,
            length-drop (dest + size) xs,
          );
          moved = λ j h.
              rw front_length at (get_or-append_right front (middle ++ back) j d)
              ∙ get_or-append_left middle back j d (omega arith)
              ∙ get_or-take size (drop src xs) j d h
              ∙ get_or-drop src xs j d;
          kept = λ p h.
              get_or-append_left front (middle ++ back) p d (omega arith)
              ∙ get_or-take dest xs p d h;
        },
      )

  pub store_slot-set :
      (xs : List X) (i : ℕ) (x : X) → i < length xs → store_slot xs i x ≡ some (set xs i x)
  store_slot-set xs i x h = rw (lt→ltb i (length xs) h) refl

-- The array has the capacity's size, and the vector's length fits into it.
pub record IsVector {A : Type 0} (v : Vector A) : Type 0 where
  pub sized : length v.slots ≡ v.capacity
  pub fits : v.len ≤ v.capacity

pub new_inc-positive : {A : Type 0} (v : Vector A) → 0 < new_inc v
new_inc-positive v = ground arith

-- With memory, one more slot than the length can be had, and the elements stay.
pub record Ensured {A : Type 0} (v : Vector A) (n : ℕ) (alloc : ℕ → Bool) (v' : Vector A)
    : Type 0 where
  pub runs : ensure_capacity alloc v n ≡ (v', status_ok)
  pub valid : IsVector v'
  pub room : n ≤ v'.capacity
  pub same_len : v'.len ≡ v.len
  pub same : (i : ℕ) → i < v.len → get_or v'.slots i none ≡ get_or v.slots i none

pub ensure_capacity-Ensured :
    {A : Type 0} (v : Vector A) (n : ℕ) (alloc : ℕ → Bool)
    → IsVector v
    → n ≤ v.len + 1
    → alloc (v.capacity + new_inc v) ≡ true
    → (v' : Vector A) × Ensured v n alloc v'
unfolding ensure_capacity
ensure_capacity-Ensured {A} v n alloc h close ok = elim (Bool-cases (leb n v.capacity)) [
  | inl e ↦ (
    v,
    record {
      runs = rw e refl;
      valid = h;
      room = ground arith;
      same_len = refl;
      same = λ i lt. refl;
    },
  )
  | inr e ↦
      let none' : Option A = none in
      let old = take v.capacity v.slots in
      let size = length-take v.capacity v.slots in
      let v' = record v {
        slots = old ++ replicate (new_inc v) none';
        capacity = v.capacity + new_inc v;
      } in
      let full : v.capacity < n = ground arith in
      (
        v',
        record {
          runs = rw (e, ok) refl;
          valid = record {
            sized = omega (
              arith,
              h.sized,
              size,
              length-append old (replicate (new_inc v) none'),
              length-replicate (new_inc v) none',
            );
            fits = omega (arith, h.fits);
          };
          room = omega (arith, h.fits, new_inc-positive v);
          same_len = refl;
          same = λ i lt.
              get_or-append_left old (replicate (new_inc v) none') i none
                (omega (arith, h.fits, h.sized, size))
              ∙ get_or-take v.capacity v.slots i none (omega (arith, h.fits));
        },
      )
]
