-- ===== src/Hid/Bounds.antt =====
-- The reassembler's storage: `etl::vector<uint8_t, Capacity>` is never asked for more than it has.
use qcremote.Prelude.{
  length, get_or, take, drop, length-append, ℕ, ◌+◌, ◌≤◌, ◌<◌, ◌≡◌, refl, Bool, true, false, List,
  [], ◌++◌, arith,
}
use qcremote.Hid.Report.{hid_header_size}
use qcremote.Hid.Reassembler.{HidReassembler, cleared, size_mod, is_last_flag, fail, store, feed}

pub record IsValid (capacity : ℕ) (r : HidReassembler) : Type 0 where
  pub fits : length r.buffer ≤ capacity
  pub emptied : r.overflowing ≡ true → r.buffer ≡ []
  pub sized : r.overflow_size < size_mod

pub cleared-IsValid : (capacity : ℕ) → IsValid capacity cleared
cleared-IsValid capacity = record { fits = omega arith; emptied = λ e. refl; sized = omega arith }

store-IsValid :
    (capacity : ℕ) (r : HidReassembler) (is_last : Bool) (chunk : List ℕ)
    → IsValid capacity r
    → IsValid capacity (store capacity r is_last chunk).1
unfolding store
store-IsValid capacity r true chunk v =
    let sum : length (r.buffer ++ chunk) ≡ length r.buffer + length chunk =
      length-append r.buffer chunk in
    record { fits = ground arith; emptied = ground arith; sized = ground arith }
store-IsValid capacity r false chunk v =
    let sum : length (r.buffer ++ chunk) ≡ length r.buffer + length chunk =
      length-append r.buffer chunk in
    record { fits = ground arith; emptied = ground arith; sized = ground arith }

-- From a state within the capacity, whatever report arrives leaves a state within it: the buffer
-- holds at most `capacity` bytes, it is empty while a message overflows, and the size that is
-- tracked stays a 32-bit number.
pub feed-IsValid :
    (capacity : ℕ) (r : HidReassembler) (report : List ℕ)
    → IsValid capacity r
    → IsValid capacity (feed capacity r report).1
unfolding feed fail
feed-IsValid capacity r report v = ground (
  arith,
  cleared-IsValid capacity,
  store-IsValid capacity cleared (is_last_flag (get_or report 2 0))
      (take (get_or report 1 0) (drop hid_header_size report)) (cleared-IsValid capacity),
  store-IsValid capacity r (is_last_flag (get_or report 2 0))
      (take (get_or report 1 0) (drop hid_header_size report)) v,
)
