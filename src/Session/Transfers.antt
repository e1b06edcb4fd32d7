-- ===== src/Session/Transfers.antt =====
-- Transfers, from the reports of a message to handleMessage: whole ones and reports in two parts.
use qcremote.Prelude.{
  ltb, ◌==◌, le→ltb, ne→==, Bool-cases, length, replicate, length-append, ℕ, zero, suc, ◌+◌, ◌-◌,
  ◌/◌, ◌≤◌, ◌<◌, ◌≡◌, refl, sym, ap, ◌∙◌, ◌≢◌, inl, inr, true, false, List, [], ◌∷◌, ◌++◌, arith,
}
use qcremote.Hid.Chunker.{reports}
use qcremote.Hid.Reassembler.{
  HidReassembler, Status, in_progress, complete, overflow, malformed, fail, feed, feed_all,
}
use qcremote.Hid.RoundTrip.{outcome, feed_all-reports}
use qcremote.Session.{QcSession, message_capacity, handle_message, record_in_transfer}
use qcremote.Session.Bridge.{
  QcHidBridge, on_status, feed_report, drop_partial, join_partial, count_transfer, join_transfer,
  on_report_in, receive,
}

-- The session with `n` more transfers counted.
abbrev pub after_transfers : ℕ → QcSession → QcSession
after_transfers zero s = s
after_transfers (suc n) s = after_transfers n (record_in_transfer s)

feed_size :
    (r r' : HidReassembler) (report : List ℕ) (st : Status)
    → feed message_capacity r report ≡ (st, r')
    → st ≢ malformed
    → (length report == 129) ≡ true
unfolding feed fail
feed_size r r' report st e n = elim (Bool-cases (length report == 129)) [
  | inl whole ↦ whole
  | inr short ↦
      let failed : feed message_capacity r report ≡ fail r = simp short in
      absurd (n (ap (λ p. p.0) (sym e) ∙ ap (λ p. p.0) failed))
]

-- A transfer that is a whole report, with nothing kept from before.
whole_report :
    (b : QcHidBridge) (report : List ℕ) (st : Status) (r' : HidReassembler)
    → b.partial_report ≡ []
    → feed message_capacity b.reassembler report ≡ (st, r')
    → st ≢ malformed
    → on_report_in b report ≡ on_status (count_transfer b) (st, r')
whole_report b report st r' p e n =
    let size : (length report == 129) ≡ true = feed_size b.reassembler r' report st e n in
    let joined : on_report_in b report ≡ feed_report (count_transfer b) report =
      unfold on_report_in join_transfer count_transfer in simp (p, size) in
    joined ∙ unfold feed_report count_transfer in ap (on_status (count_transfer b)) e

-- The verdict replaces the reassembler, whatever it was.
verdict_replaces :
    (b : QcHidBridge) (r : HidReassembler) (v : Status × HidReassembler)
    → on_status (record b { reassembler = r }) v ≡ on_status b v
unfolding on_status
verdict_replaces b r (in_progress, r') = refl
verdict_replaces b r (complete, r') = refl
verdict_replaces b r (overflow, r') = refl
verdict_replaces b r (malformed, r') = refl

in_progress-malformed : in_progress ≢ malformed
in_progress-malformed e = cc

counted_verdict :
    (b : QcHidBridge) (r : HidReassembler)
    → on_status (count_transfer b) (in_progress, r)
      ≡ record b { reassembler = r; session = record_in_transfer b.session }
unfolding on_status count_transfer
counted_verdict b r = refl

abbrev first_status : List Status → Status
first_status [] = malformed
first_status (st ∷ sts) = st

abbrev other_statuses : List Status → List Status
other_statuses [] = []
other_statuses (st ∷ sts) = sts

receive_reports :
    (k : ℕ) (b : QcHidBridge) (ts : List (List ℕ)) (st : Status) (r' : HidReassembler)
    → b.partial_report ≡ []
    → st ≢ malformed
    → feed_all message_capacity b.reassembler ts ≡ (replicate k in_progress ++ st ∷ [], r')
    → receive b ts ≡ on_status (record b { session = after_transfers (suc k) b.session }) (st, r')
unfolding receive feed_all count_transfer
receive_reports k b [] st r' p n e =
    absurd
      (omega (arith, ap (λ v. length v.0) e, length-append (replicate k in_progress) (st ∷ [])))
receive_reports zero b (t ∷ []) st r' p n e =
    let verdict : feed message_capacity b.reassembler t ≡ (st, r') =
      λ i. (first_status (e i).0, (e i).1) in
    whole_report b t st r' p verdict n
receive_reports zero b (t ∷ u ∷ ts) st r' p n e = absurd (omega (arith, ap (λ v. length v.0) e))
receive_reports (suc k) b (t ∷ ts) st r' p n e =
    let r1 : HidReassembler = (feed message_capacity b.reassembler t).1 in
    let b1 : QcHidBridge = record b { reassembler = r1; session = record_in_transfer b.session } in
    let verdict : feed message_capacity b.reassembler t ≡ (in_progress, r1) =
      λ i. (first_status (e i).0, r1) in
    let rest : feed_all message_capacity r1 ts ≡ (replicate k in_progress ++ st ∷ [], r') =
      λ i. (other_statuses (e i).0, (e i).1) in
    let step : on_report_in b t ≡ b1 =
      whole_report b t in_progress r1 p verdict in_progress-malformed ∙ counted_verdict b r1 in
    ap (λ x. receive x ts) step
    ∙ receive_reports k b1 ts st r' p n rest
    ∙ verdict_replaces (record b { session = after_transfers (suc (suc k)) b.session }) r1 (st, r')

outcome_whole : (m : List ℕ) → length m ≤ message_capacity → outcome message_capacity m ≡ complete
outcome_whole m h = rw (le→ltb message_capacity (length m) h) refl

-- Whatever the reassembler held: the reports that the chunker makes of a message of at most 131072
-- bytes, received one by one with no part of a report kept from before, hand the message to
-- handleMessage once, whole, after as many counted transfers as there are reports: one for every full
-- 126 bytes with more to come, and the last.
pub receive-reports :
    (b : QcHidBridge) (m : List ℕ) (id : ℕ)
    → b.partial_report ≡ []
    → length m ≤ message_capacity
    → receive b (reports m id) ≡ record b {
      reassembler = record { buffer = m; overflowing = false; overflow_size = 0 };
      session = handle_message (after_transfers (suc ((length m - 1) / 126)) b.session) m;
    }
receive-reports b m id p h =
    let fits : ltb message_capacity (length m) ≡ false = le→ltb message_capacity (length m) h in
    let r' : HidReassembler = record { buffer = m; overflowing = false; overflow_size = 0 } in
    let all : feed_all message_capacity b.reassembler (reports m id)
        ≡ (replicate ((length m - 1) / 126) in_progress ++ complete ∷ [], r') =
      feed_all-reports message_capacity id m b.reassembler ∙ rw fits refl in
    receive_reports ((length m - 1) / 126) b (reports m id) complete r' p (λ e. cc) all
    ∙ unfold on_status in refl

abbrev pub aligned : HidReassembler → QcSession → QcHidBridge
aligned r s = record { partial_report = []; reassembler = r; session = s }

abbrev pub kept : List ℕ → HidReassembler → QcSession → QcHidBridge
kept part r s = record { partial_report = part; reassembler = r; session = s }

-- The verdict leaves the kept part as it is.
pub verdict_keeps :
    (part : List ℕ) (r : HidReassembler) (s : QcSession) (v : Status × HidReassembler)
    → record (on_status (kept part r s) v) { partial_report = [] } ≡ on_status (aligned r s) v
unfolding on_status
verdict_keeps part r s (in_progress, r') = refl
verdict_keeps part r s (complete, r') = refl
verdict_keeps part r s (overflow, r') = refl
verdict_keeps part r s (malformed, r') = refl

pub first_part :
    (r : HidReassembler) (s : QcSession) (x : List ℕ)
    → length x < 129
    → on_report_in (aligned r s) x ≡ kept x r (record_in_transfer s)
unfolding on_report_in join_transfer count_transfer join_partial drop_partial
first_part r s x h =
    rw
      (
        ne→== (length x) 129 (λ e. omega arith),
        le→ltb 129 (0 + length x) (omega arith),
        ne→== (length x) 129 (λ e. omega arith),
      )
      refl

pub second_part :
    (r : HidReassembler) (s : QcSession) (a : ℕ) (x y : List ℕ)
    → length (a ∷ (x ++ y)) ≡ 129
    → on_report_in (kept (a ∷ x) r s) y
      ≡ record (feed_report (kept (a ∷ (x ++ y)) r (record_in_transfer s)) (a ∷ (x ++ y))) {
        partial_report = [];
      }
unfolding on_report_in join_transfer count_transfer join_partial drop_partial
second_part r s a x y size =
    rw (le→ltb 129 (suc (length x) + length y) (omega (arith, length-append x y)), size) refl

in_one :
    (r : HidReassembler) (s : QcSession) (report : List ℕ)
    → length report ≡ 129
    → on_report_in (aligned r s) report ≡ feed_report (aligned r (record_in_transfer s)) report
unfolding on_report_in join_transfer count_transfer
in_one r s report size = rw size refl

-- A report that comes in two transfers, none of them empty, is handled as if it had come in one, but
-- for the count of the transfers.
pub split_report :
    (r : HidReassembler) (s : QcSession) (x y : List ℕ)
    → 0 < length x
    → 0 < length y
    → length x + length y ≡ 129
    → receive (aligned r s) (x ∷ y ∷ []) ≡ on_report_in (count_transfer (aligned r s)) (x ++ y)
unfolding receive count_transfer
split_report r s [] y hx hy size = absurd (omega arith)
split_report r s (a ∷ x) y hx hy size =
    let s1 : QcSession = record_in_transfer s in
    let joined : length (a ∷ (x ++ y)) ≡ 129 = omega (arith, length-append x y) in
    ap (λ b. on_report_in b y) (first_part r s (a ∷ x) (omega arith))
    ∙ second_part r s1 a x y joined
    ∙ unfold feed_report in
      verdict_keeps (a ∷ (x ++ y)) r (record_in_transfer s1)
        (feed message_capacity r (a ∷ (x ++ y)))
      ∙ sym (in_one r s1 (a ∷ (x ++ y)) joined)
