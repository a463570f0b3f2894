-- ===== src/Vector/Lists.antt =====
-- What a vector promises: a list with insertion, removal and replacement at an index.
use junk.Prelude.{ℕ, zero, suc, ◌≤◌, ◌<◌, ◌≡◌, refl, ap, List, [], ◌∷◌, arith, length, get_or}

module _ {X : Type 0} where
  unfoldable pub insert_at : List X → ℕ → X → List X
  insert_at xs zero x = x ∷ xs
  insert_at [] (suc i) x = x ∷ []
  insert_at (y ∷ ys) (suc i) x = y ∷ insert_at ys i x

  unfoldable pub delete_at : List X → ℕ → List X
  delete_at [] i = []
  delete_at (y ∷ ys) zero = ys
  delete_at (y ∷ ys) (suc i) = y ∷ delete_at ys i

  -- Replacement; at the end of the list, it adds an element.
  unfoldable pub put_at : List X → ℕ → X → List X
  put_at [] i x = x ∷ []
  put_at (y ∷ ys) zero x = x ∷ ys
  put_at (y ∷ ys) (suc i) x = y ∷ put_at ys i x

  pub length-insert_at : (xs : List X) (i : ℕ) (x : X) → length (insert_at xs i x) ≡ suc (length xs)
  unfolding insert_at
  length-insert_at xs zero x = refl
  length-insert_at [] (suc i) x = refl
  length-insert_at (y ∷ ys) (suc i) x = ap suc (length-insert_at ys i x)

  pub insert_at_below :
      (xs : List X) (i j : ℕ) (x d : X)
      → i ≤ length xs
      → j < i
      → get_or (insert_at xs i x) j d ≡ get_or xs j d
  unfolding insert_at
  insert_at_below xs zero j x d le lt = absurd (omega arith)
  insert_at_below [] (suc i) j x d le lt = absurd (omega arith)
  insert_at_below (y ∷ ys) (suc i) zero x d le lt = refl
  insert_at_below (y ∷ ys) (suc i) (suc j) x d le lt =
      insert_at_below ys i j x d (omega arith) (omega arith)

  pub insert_at_here :
      (xs : List X) (i : ℕ) (x d : X) → i ≤ length xs → get_or (insert_at xs i x) i d ≡ x
  unfolding insert_at
  insert_at_here xs zero x d le = refl
  insert_at_here [] (suc i) x d le = absurd (omega arith)
  insert_at_here (y ∷ ys) (suc i) x d le = insert_at_here ys i x d (omega arith)

  pub insert_at_above :
      (xs : List X) (i j : ℕ) (x d : X)
      → i ≤ length xs
      → i ≤ j
      → get_or (insert_at xs i x) (suc j) d ≡ get_or xs j d
  unfolding insert_at
  insert_at_above xs zero j x d le lt = refl
  insert_at_above [] (suc i) j x d le lt = absurd (omega arith)
  insert_at_above (y ∷ ys) (suc i) zero x d le lt = absurd (omega arith)
  insert_at_above (y ∷ ys) (suc i) (suc j) x d le lt =
      insert_at_above ys i j x d (omega arith) (omega arith)

  pub length-delete_at :
      (xs : List X) (i : ℕ) → i < length xs → suc (length (delete_at xs i)) ≡ length xs
  unfolding delete_at
  length-delete_at [] i h = absurd (omega arith)
  length-delete_at (y ∷ ys) zero h = refl
  length-delete_at (y ∷ ys) (suc i) h = ap suc (length-delete_at ys i (omega arith))

  pub delete_at_below :
      (xs : List X) (i j : ℕ) (d : X) → j < i → get_or (delete_at xs i) j d ≡ get_or xs j d
  unfolding delete_at
  delete_at_below [] i j d lt = refl
  delete_at_below (y ∷ ys) zero j d lt = absurd (omega arith)
  delete_at_below (y ∷ ys) (suc i) zero d lt = refl
  delete_at_below (y ∷ ys) (suc i) (suc j) d lt = delete_at_below ys i j d (omega arith)

  pub delete_at_above :
      (xs : List X) (i j : ℕ) (d : X) → i ≤ j → get_or (delete_at xs i) j d ≡ get_or xs (suc j) d
  unfolding delete_at
  delete_at_above [] i j d le = refl
  delete_at_above (y ∷ ys) zero j d le = refl
  delete_at_above (y ∷ ys) (suc i) zero d le = absurd (omega arith)
  delete_at_above (y ∷ ys) (suc i) (suc j) d le = delete_at_above ys i j d (omega arith)

  pub put_at_here : (xs : List X) (i : ℕ) (x d : X) → i ≤ length xs → get_or (put_at xs i x) i d ≡ x
  unfolding put_at
  put_at_here [] zero x d le = refl
  put_at_here [] (suc i) x d le = absurd (omega arith)
  put_at_here (y ∷ ys) zero x d le = refl
  put_at_here (y ∷ ys) (suc i) x d le = put_at_here ys i x d (omega arith)

  pub put_at_below :
      (xs : List X) (i j : ℕ) (x d : X)
      → i ≤ length xs
      → j < i
      → get_or (put_at xs i x) j d ≡ get_or xs j d
  unfolding put_at
  put_at_below [] zero j x d le lt = absurd (omega arith)
  put_at_below [] (suc i) j x d le lt = absurd (omega arith)
  put_at_below (y ∷ ys) zero j x d le lt = absurd (omega arith)
  put_at_below (y ∷ ys) (suc i) zero x d le lt = refl
  put_at_below (y ∷ ys) (suc i) (suc j) x d le lt =
      put_at_below ys i j x d (omega arith) (omega arith)

  pub put_at_above :
      (xs : List X) (i j : ℕ) (x d : X)
      → i < length xs
      → i < j
      → get_or (put_at xs i x) j d ≡ get_or xs j d
  unfolding put_at
  put_at_above [] i j x d le lt = absurd (omega arith)
  put_at_above (y ∷ ys) i zero x d le lt = absurd (omega arith)
  put_at_above (y ∷ ys) zero (suc j) x d le lt = refl
  put_at_above (y ∷ ys) (suc i) (suc j) x d le lt =
      put_at_above ys i j x d (omega arith) (omega arith)

  pub length-put_at_inside :
      (xs : List X) (i : ℕ) (x : X) → i < length xs → length (put_at xs i x) ≡ length xs
  unfolding put_at
  length-put_at_inside [] i x lt = absurd (omega arith)
  length-put_at_inside (y ∷ ys) zero x lt = refl
  length-put_at_inside (y ∷ ys) (suc i) x lt = ap suc (length-put_at_inside ys i x (omega arith))

  pub length-put_at_end : (xs : List X) (x : X) → length (put_at xs (length xs) x) ≡ suc (length xs)
  unfolding put_at
  length-put_at_end [] x = refl
  length-put_at_end (y ∷ ys) x = ap suc (length-put_at_end ys x)
