-- ===== src/Store/Validation.antt =====
-- The checks of persista/store/validation.py on numbers and on a store's state.
use persista.Common.{ℤ, Bool, Result, ok, err, value_error, runtime_error, if◌then◌else◌}
use persista.Common.Int.{is_below_one}

unfoldable pub validate_batch_size : ℤ → Result (Unit {0})
validate_batch_size batch_size = if is_below_one batch_size then err value_error else ok tt

-- The argument is `store.closed`.
unfoldable pub check_is_open : Bool → Result (Unit {0})
check_is_open closed = if closed then err runtime_error else ok tt

unfoldable pub check_is_closed : Bool → Result (Unit {0})
check_is_closed closed = if closed then ok tt else err runtime_error
