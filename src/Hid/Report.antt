-- ===== src/Hid/Report.antt =====
-- Constants and flags of a HID report (HidReassembler.hpp).
use qcremote.Prelude.{ℕ, ◌-◌}

abbrev pub hid_report_size : ℕ
hid_report_size = 129

abbrev pub hid_header_size : ℕ
hid_header_size = 3

abbrev pub hid_max_payload_per_report : ℕ
hid_max_payload_per_report = hid_report_size - hid_header_size

pub data HidReportFlag : Type 0 where
  middle first last single : HidReportFlag

-- The enumerator's byte.
abbrev pub flag_byte : HidReportFlag → ℕ
flag_byte middle = 0x00
flag_byte first = 0x40
flag_byte last = 0x80
flag_byte single = 0xC0
