-- ===== src/Modbus/Slots.antt =====
-- The slots of libplctag/src/libplctag/protocols/mb/modbus.c for the requests in flight.
use junk.Prelude.{
  ℕ, suc, ◌≡◌, refl, ◌∙◌, true, false, Bool, List, [], ◌∷◌, some, ◌==◌, ◌||◌, arith, inl, inr,
  Bool-cases, if_first, if_second,
}
use junk.Modbus.{search_slots, has_slot, clear_slots}

-- Each slot without the number stays as it is.
pub clear_slots_kept : (id : ℕ) (ss : List ℕ) → has_slot id ss ≡ false → clear_slots id ss ≡ ss
unfolding has_slot clear_slots
clear_slots_kept id [] h = refl
clear_slots_kept id (s ∷ ss) h =
    ground (arith, λ (k : has_slot id ss ≡ false). clear_slots_kept id ss k)

-- A slot is free.
unfoldable pub has_free : List ℕ → Bool
has_free [] = false
has_free (s ∷ ss) = s == 0 || has_free ss

-- What a search that finds a slot gives.
pub record Taken (id : ℕ) (ss : List ℕ) : Type 0 where
  pub slot : ℕ
  pub slots : List ℕ
  pub found : search_slots id ss ≡ some (slot, slots)
  pub there : has_slot id slots ≡ true
  pub cleared : has_slot id ss ≡ false → clear_slots id slots ≡ ss

Taken-here : (id s : ℕ) (ss : List ℕ) → (s == 0) ≡ true → Taken id (s ∷ ss)
unfolding search_slots has_slot clear_slots
Taken-here id s ss e = record {
  slot = 0;
  slots = id ∷ ss;
  found = if_first _ _ e;
  there = ground arith;
  cleared = λ h. ground (arith, λ (k : has_slot id ss ≡ false). clear_slots_kept id ss k);
}

Taken-later : (id s : ℕ) (ss : List ℕ) → (s == 0) ≡ false → Taken id ss → Taken id (s ∷ ss)
unfolding search_slots has_slot clear_slots
Taken-later id s ss e t = record {
  slot = suc t.slot;
  slots = s ∷ t.slots;
  found = if_second _ _ e ∙ (rw t.found refl);
  there = ground (arith, t.there);
  cleared = λ h. ground (arith, λ (k : has_slot id ss ≡ false). t.cleared k);
}

pub search_slots-Taken : (id : ℕ) (ss : List ℕ) → has_free ss ≡ true → Taken id ss
unfolding has_free
search_slots-Taken id [] h = absurd (ground arith)
search_slots-Taken id (s ∷ ss) h = elim (Bool-cases (s == 0)) [
  | inl e ↦ Taken-here id s ss e
  | inr e ↦ Taken-later id s ss e (search_slots-Taken id ss (ground arith))
]
