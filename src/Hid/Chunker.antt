-- ===== src/Hid/Chunker.antt =====
-- HidChunker.hpp: a message is cut into reports of 129 bytes.
use qcremote.Prelude.{
  ℕ, zero, suc, ◌+◌, ◌-◌, ◌%◌, Bool, true, false, not, ◌&&◌, ◌||◌, Option, none, some, List, [],
  ◌∷◌, ltb, leb, ◌==◌, if◌then◌else◌, length, get_or,
}
use qcremote.Hid.Report.{
  HidReportFlag, middle, first, last, single, flag_byte, hid_report_size,
  hid_max_payload_per_report,
}

pub record HidChunker : Type 0 where
  pub message : List ℕ
  pub report_id : ℕ
  pub offset : ℕ
  pub emitted_at_least_one : Bool

unfoldable pub chunker : List ℕ → ℕ → HidChunker
chunker message report_id = record {
  message = message;
  report_id = report_id;
  offset = 0;
  emitted_at_least_one = false;
}

unfoldable pub done : HidChunker → Bool
done c = c.emitted_at_least_one && leb (length c.message) c.offset

unfoldable pub flag_of : Bool → Bool → HidReportFlag
flag_of is_first is_last =
    if is_first && is_last
    then single
    else if is_first
    then first
    else if is_last
    then last
    else middle

-- The bytes i, i + 1, … of the payload, for the rounds that are left.
unfoldable pub fill_payload : List ℕ → ℕ → ℕ → ℕ → ℕ → List ℕ
fill_payload message offset chunk_len zero i = []
fill_payload message offset chunk_len (suc rounds) i =
    (if ltb i chunk_len then get_or message (offset + i) 0 else 0)
    ∷ fill_payload message offset chunk_len rounds (i + 1)

-- `none` is the answer `false`. The number is `outReport.size()`, the list what is written there.
unfoldable pub next : HidChunker → ℕ → Option (List ℕ × HidChunker)
unfolding done flag_of fill_payload
next c out_size =
    let remaining = length c.message - c.offset in
    let chunk_len : ℕ =
      if ltb remaining hid_max_payload_per_report then remaining else hid_max_payload_per_report in
    let flag = flag_of (c.offset == 0) (leb (length c.message) (c.offset + chunk_len)) in
    let payload = fill_payload c.message c.offset chunk_len hid_max_payload_per_report 0 in
    if not (out_size == hid_report_size) || done c
    then none
    else some (
      c.report_id ∷ chunk_len % 256 ∷ flag_byte flag ∷ payload,
      record c { offset = c.offset + chunk_len; emitted_at_least_one = true },
    )

-- `while (chunker.next(report))`: the reports in order, for as many rounds as the fuel allows.
unfoldable pub drain : ℕ → HidChunker → List (List ℕ)
unfolding next
drain zero c = []
drain (suc fuel) c = elim (next c hid_report_size) [
  | none ↦ []
  | some (report, c') ↦ report ∷ drain fuel c'
]

-- Each round but the last takes 126 bytes, so the message's length and one round more are enough.
unfoldable pub reports : List ℕ → ℕ → List (List ℕ)
unfolding chunker drain
reports message report_id = drain (length message + 1) (chunker message report_id)
