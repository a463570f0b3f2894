-- ===== src/Lib.antt =====
-- A model of the core of libplctag, the C library under libplctag/ with which the programs of this
-- repository read and write the tags of a PLC.
--
-- The program keeps an object per tag: a buffer of bytes that holds the tag's value as the PLC
-- stores it, its size, the byte order of the PLC's data types, a status, and flags. The client
-- knows a tag by its handle. The public functions of libplctag/src/libplctag/lib/lib.c look the
-- handle up in a table and then read or change the tag under its mutex; the protocol modules move
-- the buffer to and from the PLC.
--
-- Files:
-- - Prelude.antt and Prelude/: Boolean tests, the integers, lists, and bits in a byte.
-- - Status.antt: the status codes of libplctag/src/libplctag/lib/libplctag.h.
-- - Memory.antt: a byte buffer and the multi-byte words in it. `read_word` and `write_word` are
--   the sums and assignments that each accessor of a number writes out.
-- - Tag.antt: `struct tag_byte_order_s` and `TAG_BASE_STRUCT` of
--   libplctag/src/libplctag/lib/tag.h, `lookup_tag`, and the steps that all accessors share.
-- - Tag/Number.antt: the twenty accessors from `plc_tag_get_uint64` to `plc_tag_set_float32`.
-- - Tag/Bit.antt: `plc_tag_get_bit`, `plc_tag_set_bit` and their `_impl` functions.
-- - Tag/Raw.antt: `plc_tag_set_raw_bytes`, `plc_tag_get_raw_bytes`.
-- - Tag/Size.antt: `plc_tag_get_size`, `plc_tag_set_size`, `resize_tag_buffer_unsafe`,
--   `resize_tag_buffer_at_offset_unsafe`, with `mem_move` and `mem_realloc` of
--   libplctag/src/platform/posix/platform.c.
-- - Tag/String.antt and Tag/String/Setting.antt: the accessors of strings, and the functions that
--   measure a string in the buffer; `mem_set` of the platform. The offset of a string is taken
--   not to be negative.
-- - Tag/Order.antt: `check_byte_order_str`. Tag/Attributes.antt: `set_tag_byte_order`, over the
--   attributes of libplctag/src/utils/attr.c, seen through their getters.
-- - Hashtable.antt: the table of libplctag/src/utils/hashtable.c, in which lib.c keeps the tags:
--   `hashtable_create`, `hashtable_get`, `hashtable_put`, `hashtable_remove` and their helpers.
--   Hashtable/Visiting.antt: the functions that go through its slots.
-- - Handle.antt: `tag_id_inc` and `add_tag_lookup` of lib.c, which give a tag its handle in that
--   table.
-- - Event.antt: `tag_raise_event` of libplctag/src/libplctag/lib/tag.h and
--   `plc_tag_generic_handle_event_callbacks` of lib.c, the events of a tag.
-- - Vector.antt: the growing array of libplctag/src/utils/vector.c, with the functions of the same
--   names. The protocols keep their sessions and requests in it.
-- - Operation.antt: `plc_tag_abort` and `plc_tag_status` of lib.c with their `_impl` functions.
-- - Operation/Transfer.antt: `plc_tag_read`, `plc_tag_write`.
-- - Operation/Tickler.antt: `plc_tag_generic_tickler`, and what `tag_tickler_func` does with a tag.
-- - Operation/Steps.antt: what the threads do to a tag, in any order.
-- - Modbus.antt: the state of a PLC and a tag in libplctag/src/libplctag/protocols/mb/modbus.c, and
--   the slots for requests in flight. Modbus/Requests.antt and Modbus/Responses.antt: the frames;
--   Modbus/Operations.antt: `tickle_tag` up to its call of the generic tickler, and the functions
--   of the tag's table; Modbus/Connection.antt: `send_request`, `receive_response` and a
--   round of `modbus_plc_handler`; Modbus/Exchange.antt: a request and its response between two
--   ticks.
-- - Attr.antt: the list of attributes of libplctag/src/utils/attr.c. Attr/Parser.antt: its parser of
--   attribute strings, with `str_split` of platform.c.
-- - Pccc.antt: the address and its encodings in libplctag/src/libplctag/protocols/ab/pccc.c.
--   Pccc/Parser.antt: `parse_pccc_logical_address`; Pccc/Types.antt and Pccc/Fields.antt: the types
--   of files and the fields that have names.
-- The children of a file prove its theorems, and the files Tests.antt run them on examples.
--
-- State is passed on explicitly. A function of the model has the name and the arguments of the C
-- function, takes the table of tags, and returns the new table and the C result. A result `none`
-- is undefined behaviour: an access outside a block, or through a null pointer. So a theorem that
-- names a result `some` also says that the code stays inside its memory. A loop is structural
-- recursion over its rounds. Only the two loops in which the hash table grows have no bound in the
-- code: they take a number of rounds, which is enough if it exceeds the size from which on
-- `mem_alloc` refuses, since each round asks for more. The loop of `hashtable_on_each`, whose
-- callback may change the table, takes one that is enough above the number of slots if the
-- callback leaves the table as it is.
--
-- An integer of C is an integer, and a word of w bits a number below 2 ^ w; the conversions
-- between signed and unsigned words are written out. The bounds check of the accessors overflows
-- for offsets near 2 ^ 31, where C leaves the result undefined; the model has it wrap around, so
-- that the check passes. A floating point number is its bit pattern. The functions hold a tag's
-- mutex while they use its buffer, so a call is one step. The C library's `realloc` is a
-- parameter, with the length of its blocks as the law; so are the hash function of utils/hash.c,
-- with no law, and what `mem_alloc` answers. `lookup_tag` sees the table of tags as a map.
--
-- The operations on a tag work over any protocol: its functions are parameters that may do
-- anything to the tag, but for the laws that a theorem names. The times that `time_ms` gives are
-- arguments, and so are the waits of a call with a timeout: each says what `cond_wait` returned,
-- what other threads did to the tag, and the time afterwards. Their list bounds the loop; it is
-- long enough if one of the waits fails or lasts until the timeout. The client's callback is any
-- function on the fields of the events in Event.antt; in the operations it leaves them alone.
--
-- Not modelled: the creation and the destruction of a tag; the protocols but for Modbus and the
-- addresses of PCCC; of Modbus the creation of tags and PLCs, the list of the tags, and the
-- sockets, whose results are arguments (in Modbus/Exchange.antt the connection carries a request
-- and its response in one step); output and logging, but for the byte that the trace of the bit
-- accessors reads; the reference counts, which the accessors take and give back in balance; the
-- programs that use the library.
mod Prelude
pub mod Status
pub mod Memory
pub mod Hashtable
pub mod Handle
pub mod Event
pub mod Operation
pub mod Vector
pub mod Tag
pub mod Modbus
pub mod Attr
pub mod Pccc
