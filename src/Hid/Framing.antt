-- ===== src/Hid/Framing.antt =====
-- The two ends of the wire meet: what `HidChunker::next` writes, and what `HidReassembler::feed`
-- does with a report of that form.
use qcremote.Prelude.{
  ltb, leb, ◌==◌, if◌then◌else◌, lt→ltb, le→ltb, length, get_or, take, drop, replicate, is_empty,
  length-append, length-take, length-drop, length-replicate, take-append-drop, take-append,
  drop_cons, ℕ, zero, suc, ◌+◌, ◌-◌, ◌%◌, ◌≤◌, min, ◌≡◌, refl, sym, ap, ap₂, ◌∙◌, Bool, true, false,
  not, ◌&&◌, none, some, List, [], ◌∷◌, ◌++◌, arith,
}
use native.Mathlib.Nat.{add-zero}
use qcremote.Hid.Report.{HidReportFlag, flag_byte, hid_report_size, hid_max_payload_per_report}
use qcremote.Hid.Chunker.{HidChunker, done, flag_of, fill_payload, next}
use qcremote.Hid.Reassembler.{malformed, fail, HidReassembler, cleared, store, feed}

abbrev pub report_of : ℕ → HidReportFlag → List ℕ → List ℕ
report_of id flag chunk =
    id
    ∷ length chunk
    ∷ flag_byte flag
    ∷ (chunk ++ replicate (hid_max_payload_per_report - length chunk) 0)

fill_payload-zeros :
    (m : List ℕ) (offset len rounds i : ℕ)
    → len ≤ i
    → fill_payload m offset len rounds i ≡ replicate rounds 0
unfolding fill_payload
fill_payload-zeros m offset len zero i h = refl
fill_payload-zeros m offset len (suc rounds) i h =
    ap₂ ◌∷◌ (ground arith) (fill_payload-zeros m offset len rounds (i + 1) (omega arith))

fill_payload-chunk :
    (m : List ℕ) (offset len rounds i : ℕ) (xs post : List ℕ)
    → drop (offset + i) m ≡ xs ++ post
    → i + length xs ≡ len
    → length xs ≤ rounds
    → fill_payload m offset len rounds i ≡ xs ++ replicate (rounds - length xs) 0
fill_payload-chunk m offset len rounds i [] post e n h =
    fill_payload-zeros m offset len rounds i (omega arith) ∙ ap (λ k. replicate k 0) (omega arith)
fill_payload-chunk m offset len zero i (x ∷ xs) post e n h = absurd (omega arith)
fill_payload-chunk m offset len (suc rounds) i (x ∷ xs) post e n h =
    step (drop_cons (offset + i) m x (xs ++ post) 0 e).0 (
      fill_payload-chunk m offset len rounds (i + 1) xs post
        (rw shift (drop_cons (offset + i) m x (xs ++ post) 0 e).1) (omega arith) (omega arith))
  where
    shift : offset + (i + 1) ≡ suc (offset + i)
    shift = omega arith

    step :
        get_or m (offset + i) 0 ≡ x
        → fill_payload m offset len rounds (i + 1) ≡ xs ++ replicate (rounds - length xs) 0
        → fill_payload m offset len (suc rounds) i
          ≡ x ∷ (xs ++ replicate (suc rounds - suc (length xs)) 0)
    step here ih =
        let sub : suc rounds - suc (length xs) ≡ rounds - length xs = omega arith in
        unfold fill_payload in rw (sub, ih, here, lt→ltb i len (omega arith)) refl

chunk_size : (n : ℕ) → (if ltb n 126 then n else 126) ≡ min 126 n
chunk_size n = ground arith

last_test : (m o n : ℕ) → o ≤ m → m - o ≡ n → leb m (o + min 126 n) ≡ leb n 126
last_test m o n h e = ground arith

-- One round of the chunker, in terms of the bytes that are left.
pub next_lem :
    (c : HidChunker) (rest : List ℕ)
    → done c ≡ false
    → drop c.offset c.message ≡ rest
    → c.offset ≤ length c.message
    → next c hid_report_size
      ≡ some (
        report_of c.report_id (flag_of (c.offset == 0) (leb (length rest) 126)) (take 126 rest),
        record c { offset = c.offset + length (take 126 rest); emitted_at_least_one = true },
      )
unfolding next
next_lem c rest e d h =
    let bytes = length (take 126 rest) in
    let remaining : length c.message - c.offset ≡ length rest =
      sym (length-drop c.offset c.message) ∙ ap length d in
    let size : (if ltb (length rest) 126 then length rest else 126) ≡ bytes =
      chunk_size (length rest) ∙ sym (length-take 126 rest) in
    let whole : leb (length c.message) (c.offset + bytes) ≡ leb (length rest) 126 =
      rw (length-take 126 rest) (last_test (length c.message) c.offset (length rest) h remaining) in
    let bound : bytes ≤ 126 = omega (arith, length-take 126 rest) in
    let byte : bytes % 256 ≡ bytes = omega arith in
    let payload : fill_payload c.message c.offset bytes 126 0
        ≡ take 126 rest ++ replicate (126 - bytes) 0 =
      fill_payload-chunk c.message c.offset bytes 126 0 (take 126 rest) (drop 126 rest)
        (rw (add-zero, take-append-drop) d) (omega arith) bound in
    rw (e, remaining, size, whole, byte, payload) refl

pub next-done : (c : HidChunker) → done c ≡ true → next c hid_report_size ≡ none
unfolding next
next-done c e = rw e refl

-- The reassembler's view of a report of that form.
module _ (capacity : ℕ) (r : HidReassembler) (id : ℕ) (chunk : List ℕ) where
  payload_of : length chunk ≤ 126 → (pad : List ℕ) → take (length chunk) (chunk ++ pad) ≡ chunk
  payload_of h pad = take-append (length chunk) chunk pad refl

  size_of :
      length chunk ≤ 126
      → suc (suc (suc (length (chunk ++ replicate (126 - length chunk) 0)))) ≡ 129
  size_of h = omega (
    arith,
    length-append chunk (replicate (126 - length chunk) 0),
    length-replicate {A = ℕ} (126 - length chunk) 0,
  )

  pub feed_first :
      (is_last : Bool)
      → length chunk ≤ 126
      → feed capacity r (report_of id (flag_of true is_last) chunk)
        ≡ store capacity cleared is_last chunk
  unfolding feed flag_of
  feed_first true h = rw (size_of h, payload_of h, le→ltb 126 (length chunk) h) refl
  feed_first false h = rw (size_of h, payload_of h, le→ltb 126 (length chunk) h) refl

  pub feed_next :
      (is_last : Bool)
      → length chunk ≤ 126
      → (is_empty r.buffer && not r.overflowing) ≡ false
      → feed capacity r (report_of id (flag_of false is_last) chunk)
        ≡ store capacity r is_last chunk
  unfolding feed flag_of
  feed_next true h e = rw (size_of h, payload_of h, le→ltb 126 (length chunk) h, e) refl
  feed_next false h e = rw (size_of h, payload_of h, le→ltb 126 (length chunk) h, e) refl

  pub feed_orphan :
      (is_last : Bool)
      → length chunk ≤ 126
      → (is_empty r.buffer && not r.overflowing) ≡ true
      → feed capacity r (report_of id (flag_of false is_last) chunk) ≡ (malformed, cleared)
  unfolding feed flag_of fail
  feed_orphan true h e = rw (size_of h, payload_of h, le→ltb 126 (length chunk) h, e) refl
  feed_orphan false h e = rw (size_of h, payload_of h, le→ltb 126 (length chunk) h, e) refl
