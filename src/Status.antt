-- ===== src/Status.antt =====
-- The status codes of libplctag/src/libplctag/lib/libplctag.h, as C integers.
use junk.Prelude.{ℤ, pos, negsuc}

abbrev pub status_ok : ℤ
status_ok = pos 0

abbrev pub err_bad_data : ℤ
err_bad_data = negsuc 3

abbrev pub err_bad_config : ℤ
err_bad_config = negsuc 1

abbrev pub err_bad_param : ℤ
err_bad_param = negsuc 6

abbrev pub err_not_allowed : ℤ
err_not_allowed = negsuc 17

abbrev pub err_not_found : ℤ
err_not_found = negsuc 18

abbrev pub err_no_data : ℤ
err_no_data = negsuc 20

abbrev pub err_no_mem : ℤ
err_no_mem = negsuc 22

abbrev pub err_null_ptr : ℤ
err_null_ptr = negsuc 24

abbrev pub err_out_of_bounds : ℤ
err_out_of_bounds = negsuc 26

abbrev pub err_too_large : ℤ
err_too_large = negsuc 32

abbrev pub err_too_small : ℤ
err_too_small = negsuc 33

abbrev pub err_unsupported : ℤ
err_unsupported = negsuc 34

abbrev pub err_no_resources : ℤ
err_no_resources = negsuc 23

abbrev pub status_pending : ℤ
status_pending = pos 1

abbrev pub err_abort : ℤ
err_abort = negsuc 0

abbrev pub err_not_implemented : ℤ
err_not_implemented = negsuc 19

abbrev pub err_busy : ℤ
err_busy = negsuc 38

abbrev pub err_bad_connection : ℤ
err_bad_connection = negsuc 2

abbrev pub err_no_match : ℤ
err_no_match = negsuc 21

abbrev pub err_remote_err : ℤ
err_remote_err = negsuc 28

abbrev pub err_timeout : ℤ
err_timeout = negsuc 31

abbrev pub err_partial : ℤ
err_partial = negsuc 37
