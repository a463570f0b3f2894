-- ===== src/Operation/Steps.antt =====
-- The steps of the threads that share a tag: each is what one thread does to it while it holds
-- the tag's mutex, in libplctag/src/libplctag/lib/lib.c.
use junk.Prelude.{ℕ, ◌≡◌, true, false, none, some, ℤ, ◌&&◌}
use junk.Event.{Calls}
use junk.Operation.{Live, VtableFunc, Vtable, handle_on, plc_tag_abort_impl, plc_tag_status_impl}
use junk.Operation.Tickler.{plc_tag_generic_tickler, tick_protocol}
use junk.Operation.Transfer.{begin_read, begin_write, waited_read, waited_write}

-- What is in flight afterwards was so before.
pub record NoStart (t t' : Live) : Type 0 where
  pub no_read : t'.read_in_flight ≡ true → t.read_in_flight ≡ true
  pub no_write : t'.write_in_flight ≡ true → t.write_in_flight ≡ true

-- A function of a protocol puts nothing in flight; it may take something out.
abbrev pub StartsNothing : VtableFunc → Type 0
StartsNothing none = Unit
StartsNothing (some f) = (t : Live) → NoStart t (f t).0

pub record IsQuiet (vt : Vtable) : Type 0 where
  pub abort : StartsNothing vt.abort
  pub read : StartsNothing vt.read
  pub get_status : StartsNothing vt.get_status
  pub tickler : StartsNothing vt.tickler
  pub write : StartsNothing vt.write
  pub wake_plc : StartsNothing vt.wake_plc

abbrev pub IsExclusive : Live → Type 0
IsExclusive t = (t.read_in_flight && t.write_in_flight) ≡ false

-- What one thread does to the tag while it holds the mutex.
pub data Step (vt : Vtable) (t : Live) : Live → Type 0 where
  tick : (now current_time : ℕ) → Step vt t (plc_tag_generic_tickler vt now current_time t)
  protocol : Step vt t (tick_protocol vt.tickler t)
  ask_status : Step vt t (plc_tag_status_impl vt t).0
  ask_abort : (others : Live → Live) → Step vt t (plc_tag_abort_impl vt others t).0
  read_begins : (now : ℕ) → Step vt t (begin_read vt now t).tag
  read_ends : (r : ℤ × Calls) → Step vt t (waited_read (t, r)).0
  write_begins : Step vt t (begin_write vt t).tag
  write_ends : (r : ℤ × Calls) → Step vt t (waited_write (t, r)).0
  data_set : Step vt t (record t { tag_is_dirty = true })
  callbacks : Step vt t (handle_on t).0

pub data Reach (vt : Vtable) (t : Live) : Live → Type 0 where
  here : Reach vt t t
  next : {u v : Live} → Reach vt t u → Step vt u v → Reach vt t v
