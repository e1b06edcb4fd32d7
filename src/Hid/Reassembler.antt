-- ===== src/Hid/Reassembler.antt =====
-- HidReassembler.hpp: reports are joined to messages of at most `capacity` bytes.
use qcremote.Prelude.{
  ℕ, ◌+◌, ◌%◌, ◌^◌, Bool, false, not, ◌&&◌, ◌||◌, List, [], ◌∷◌, ◌++◌, ltb, ◌==◌, if◌then◌else◌,
  length, get_or, take, drop, is_empty,
}
use qcremote.Hid.Report.{
  middle, first, last, single, flag_byte, hid_report_size, hid_header_size,
  hid_max_payload_per_report,
}

pub data Status : Type 0 where
  in_progress complete overflow malformed : Status

pub record HidReassembler : Type 0 where
  pub buffer : List ℕ
  pub overflowing : Bool
  pub overflow_size : ℕ

abbrev pub cleared : HidReassembler
cleared = record { buffer = []; overflowing = false; overflow_size = 0 }

unfoldable pub fail : HidReassembler → Status × HidReassembler
fail r = (malformed, record r { buffer = []; overflowing = false; overflow_size = 0 })

-- `size_t` is 32 bits wide on the boards.
abbrev pub size_mod : ℕ
size_mod = 2 ^ 32

abbrev pub is_first_flag : ℕ → Bool
is_first_flag flags = flags == flag_byte first || flags == flag_byte single

abbrev pub is_middle_flag : ℕ → Bool
is_middle_flag flags = flags == flag_byte middle

abbrev pub is_last_flag : ℕ → Bool
is_last_flag flags = flags == flag_byte last || flags == flag_byte single

module _ (capacity : ℕ) where
  -- From the test of `overflowing_` to the end of `feed`.
  unfoldable pub store : HidReassembler → Bool → List ℕ → Status × HidReassembler
  store r is_last chunk =
      if r.overflowing
      then (
        if is_last then overflow else in_progress,
        record r {
          overflow_size = (r.overflow_size + length chunk) % size_mod;
          overflowing = not is_last;
        },
      )
      else if ltb capacity (length r.buffer + length chunk)
      then (
        if is_last then overflow else in_progress,
        record r {
          buffer = [];
          overflowing = not is_last;
          overflow_size = (length r.buffer + length chunk) % size_mod;
        },
      )
      else (if is_last then complete else in_progress, record r { buffer = r.buffer ++ chunk })

  unfoldable pub feed : HidReassembler → List ℕ → Status × HidReassembler
  unfolding fail store
  feed r report =
      let chunk_len = get_or report 1 0 in
      let flags = get_or report 2 0 in
      let chunk = take chunk_len (drop hid_header_size report) in
      if not (length report == hid_report_size)
      then fail r
      else if ltb hid_max_payload_per_report chunk_len
      then fail r
      else if not (is_first_flag flags) && not (is_middle_flag flags) && not (is_last_flag flags)
      then fail r
      else if is_first_flag flags
      then store (record r { buffer = []; overflowing = false; overflow_size = 0 })
          (is_last_flag flags) chunk
      else if is_empty r.buffer && not r.overflowing
      then fail r
      else store r (is_last_flag flags) chunk

  -- Reports one after the other, with the status of each.
  unfoldable pub feed_all : HidReassembler → List (List ℕ) → List Status × HidReassembler
  unfolding feed
  feed_all r [] = ([], r)
  feed_all r (report ∷ rest) =
      let (status, r') = feed r report in
      let (statuses, r'') = feed_all r' rest in (status ∷ statuses, r'')
