-- ===== src/Session/Shift.antt =====
-- A report whose first 128 bytes are lost, on a controller that completes one transfer per packet: what
-- the partial report of QcHidBridge.hpp does with the reports behind it.
use qcremote.Prelude.{length, All, ℕ, ◌≡◌, refl, ap, ◌∙◌, List, [], ◌∷◌, arith}
use qcremote.Hid.Reassembler.{
  HidReassembler, Status, in_progress, complete, overflow, malformed, feed,
}
use qcremote.Session.{
  QcSession, message_capacity, handle_message, record_reassembly_overflow,
  record_reassembly_malformed, record_in_transfer,
}
use qcremote.Session.Bridge.{on_status, feed_report, on_report_in, receive}
use qcremote.Session.Transfers.{aligned, kept, verdict_keeps, first_part, second_part}

-- A report as two transfers: 128 bytes and one.
abbrev pub split_transfers : List (List ℕ × ℕ) → List (List ℕ)
split_transfers [] = []
split_transfers ((front, end) ∷ reports) = front ∷ (end ∷ []) ∷ split_transfers reports

abbrev pub last_end : ℕ → List (List ℕ × ℕ) → ℕ
last_end stray [] = stray
last_end stray ((front, end) ∷ reports) = last_end end reports

-- The verdict on a report leaves the bridge without a partial one.
verdict_aligned :
    (r : HidReassembler) (s : QcSession) (v : Status × HidReassembler)
    → (r' : HidReassembler) × (s' : QcSession) × (on_status (aligned r s) v ≡ aligned r' s')
unfolding on_status
verdict_aligned r s (in_progress, r') = (r', s, refl)
verdict_aligned r s (complete, r') = (r', handle_message s r'.buffer, refl)
verdict_aligned r s (overflow, r') = (r', record_reassembly_overflow s r'.overflow_size, refl)
verdict_aligned r s (malformed, r') = (r', record_reassembly_malformed s, refl)

-- The stray byte and the next report's front make 129 bytes, which are fed as a report.
stray_joins :
    (r : HidReassembler) (s : QcSession) (stray : ℕ) (front : List ℕ)
    → length front ≡ 128
    → on_report_in (kept (stray ∷ []) r s) front
      ≡ on_status (aligned r (record_in_transfer s)) (feed message_capacity r (stray ∷ front))
stray_joins r s stray front size =
    second_part r s stray [] front (omega arith)
    ∙ unfold feed_report in
      verdict_keeps (stray ∷ front) r (record_in_transfer s)
        (feed message_capacity r (stray ∷ front))

stays_out :
    (r : HidReassembler) (s : QcSession) (stray : ℕ) (reports : List (List ℕ × ℕ))
    → All (λ p. length p.0 ≡ 128) reports
    → (receive (kept (stray ∷ []) r s) (split_transfers reports)).partial_report
      ≡ last_end stray reports ∷ []
unfolding receive
stays_out r s stray [] h = refl
stays_out r s stray ((front, end) ∷ reports) h =
    let (r', s', e) =
      verdict_aligned r (record_in_transfer s) (feed message_capacity r (stray ∷ front)) in
    ap (λ b. (receive (on_report_in b (end ∷ [])) (split_transfers reports)).partial_report)
      (stray_joins r s stray front h.0 ∙ e)
    ∙ ap (λ b. (receive b (split_transfers reports)).partial_report)
        (first_part r' s' (end ∷ []) (omega arith))
    ∙ stays_out r' (record_in_transfer s') end reports h.1

-- With a stray byte kept, a report that comes as 128 bytes and one is not fed: the stray byte and the
-- 128 are, and the report's last byte is the next stray byte. So it goes for every report that follows,
-- however many there are: the bridge stays out of step by one byte.
pub out_of_step :
    (r : HidReassembler) (s : QcSession) (stray : ℕ) (reports : List (List ℕ × ℕ))
    → All (λ p. length p.0 ≡ 128) reports
    → ((front : List ℕ)
        → length front ≡ 128
        → on_report_in (kept (stray ∷ []) r s) front
          ≡ on_status (aligned r (record_in_transfer s)) (feed message_capacity r (stray ∷ front)))
      × ((receive (kept (stray ∷ []) r s) (split_transfers reports)).partial_report
          ≡ last_end stray reports ∷ [])
out_of_step r s stray reports h = (stray_joins r s stray, stays_out r s stray reports h)
