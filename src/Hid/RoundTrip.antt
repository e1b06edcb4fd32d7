-- ===== src/Hid/RoundTrip.antt =====
-- A message that the chunker cuts up comes out of the reassembler whole, or its size does.
use qcremote.Prelude.{
  ltb, leb, ◌==◌, if◌then◌else◌, le→leb, lt→leb, ne→==, Bool-cases, length, take, drop, replicate,
  is_empty, length-append, length-take, length-drop, take-length, take-append-take, ℕ, zero, suc,
  ◌+◌, ◌-◌, ◌/◌, ◌%◌, ◌≤◌, ◌<◌, min, ◌≡◌, refl, sym, ap, ◌∙◌, inl, inr, Bool, true, false, not,
  ◌&&◌, some, List, [], ◌∷◌, ◌++◌, arith,
}
use qcremote.Hid.Chunker.{HidChunker, chunker, done, flag_of, next, drain, reports}
use qcremote.Hid.Reassembler.{
  HidReassembler, Status, in_progress, complete, overflow, cleared, size_mod, store, feed, feed_all,
}
use qcremote.Hid.Framing.{report_of, next_lem, next-done, feed_first, feed_next}

-- The state after the bytes `pre` of a message that goes on.
abbrev assembled : ℕ → List ℕ → HidReassembler
assembled capacity pre =
    if ltb capacity (length pre)
    then record { buffer = []; overflowing = true; overflow_size = length pre % size_mod }
    else record { buffer = pre; overflowing = false; overflow_size = 0 }

-- The status of a message's last report, and the state that it leaves.
abbrev pub outcome : ℕ → List ℕ → Status
outcome capacity m = if ltb capacity (length m) then overflow else complete

abbrev pub holding : ℕ → List ℕ → HidReassembler
holding capacity m =
    if ltb capacity (length m)
    then record { buffer = []; overflowing = false; overflow_size = length m % size_mod }
    else record { buffer = m; overflowing = false; overflow_size = 0 }

store_more :
    (capacity : ℕ) (pre chunk : List ℕ)
    → store capacity (assembled capacity pre) false chunk
      ≡ (in_progress, assembled capacity (pre ++ chunk))
unfolding store
store_more capacity pre chunk = rw (length-append pre chunk) (ground arith)

store_last :
    (capacity : ℕ) (pre chunk : List ℕ)
    → store capacity (assembled capacity pre) true chunk
      ≡ (outcome capacity (pre ++ chunk), holding capacity (pre ++ chunk))
unfolding store
store_last capacity pre chunk = rw (length-append pre chunk) (ground arith)

goes_on :
    (capacity : ℕ) (pre : List ℕ)
    → 0 < length pre
    → (is_empty (assembled capacity pre).buffer && not (assembled capacity pre).overflowing) ≡ false
goes_on capacity [] h = absurd (omega arith)
goes_on capacity (x ∷ pre) h = ground arith

drain_step :
    (fuel : ℕ) (c c' : HidChunker) (report : List ℕ)
    → next c 129 ≡ some (report, c')
    → drain (suc fuel) c ≡ report ∷ drain fuel c'
unfolding drain
drain_step fuel c c' report e = rw (e, drain) refl

drain-done : (fuel : ℕ) (c : HidChunker) → done c ≡ true → drain fuel c ≡ []
unfolding drain
drain-done zero c e = refl
drain-done (suc fuel) c e = rw (next-done c e, drain) refl

feed_all_step :
    (capacity : ℕ) (r r' r'' : HidReassembler) (report : List ℕ) (rest : List (List ℕ)) (s : Status)
    (ss : List Status)
    → feed capacity r report ≡ (s, r')
    → feed_all capacity r' rest ≡ (ss, r'')
    → feed_all capacity r (report ∷ rest) ≡ (s ∷ ss, r'')
unfolding feed_all
feed_all_step capacity r r' r'' report rest s ss e f = rw (e, f) refl

rounds_step : (m n : ℕ) → n + 126 < m → (m - n - 1) / 126 ≡ suc ((m - (n + 126) - 1) / 126)
rounds_step m n h = omega arith

module _ (capacity id : ℕ) (m : List ℕ) where
  abbrev at : ℕ → Bool → HidChunker
  at n emitted = record { message = m; report_id = id; offset = n; emitted_at_least_one = emitted }

  abbrev chunk_at : ℕ → List ℕ
  chunk_at n = take 126 (drop n m)

  length-chunk_at : (n : ℕ) → length (chunk_at n) ≡ min 126 (length m - n)
  length-chunk_at n = length-take 126 (drop n m) ∙ ap (min 126) (length-drop n m)

  chunk_fits : (n : ℕ) → length (chunk_at n) ≤ 126
  chunk_fits n = omega (arith, length-chunk_at n)

  round :
      (n : ℕ) (emitted is_first is_last : Bool)
      → n ≤ length m
      → done (at n emitted) ≡ false
      → (n == 0) ≡ is_first
      → leb (length (drop n m)) 126 ≡ is_last
      → next (at n emitted) 129
        ≡ some (
          report_of id (flag_of is_first is_last) (chunk_at n),
          at (n + length (chunk_at n)) true,
        )
  round n emitted is_first is_last h d f l =
      next_lem (at n emitted) (drop n m) d refl h ∙ rw (f, l) refl

  -- The state `r` takes the report of this round as one that follows the first `n` bytes.
  abbrev Accepts : HidReassembler → ℕ → Bool → Type 0
  Accepts r n is_first =
      (is_last : Bool)
      → feed capacity r (report_of id (flag_of is_first is_last) (chunk_at n))
        ≡ store capacity (assembled capacity (take n m)) is_last (chunk_at n)

  later_Accepts : (n : ℕ) → 0 < n → n < length m → Accepts (assembled capacity (take n m)) n false
  later_Accepts n p h is_last =
      feed_next capacity _ id (chunk_at n) is_last (chunk_fits n)
        (goes_on capacity (take n m) (omega (arith, length-take n m)))

  take-chunk_at : (n : ℕ) → take n m ++ chunk_at n ≡ take (n + 126) m
  take-chunk_at n = take-append-take n 126 m

  done-at : (n : ℕ) → length m ≤ n → done (at n true) ≡ true
  unfolding done
  done-at n h = le→leb (length m) n h

  not_done-at : (n : ℕ) → n < length m → done (at n true) ≡ false
  unfolding done
  not_done-at n h = lt→leb (length m) n h

  module _ (fuel n : ℕ) (emitted is_first : Bool) (r : HidReassembler)
      (accepts : Accepts r n is_first) (within : n ≤ length m)
      (open_yet : done (at n emitted) ≡ false) (first_test : (n == 0) ≡ is_first) where
    last_step :
        leb (length (drop n m)) 126 ≡ true
        → feed_all capacity r (drain (suc fuel) (at n emitted))
          ≡ (outcome capacity m ∷ [], holding capacity m)
    last_step l =
        let rest : length (drop n m) ≤ 126 = ground arith in
        let size : length (chunk_at n) ≡ length m - n =
          omega (arith, length-chunk_at n, length-drop n m) in
        let whole : take n m ++ chunk_at n ≡ m =
          take-chunk_at n ∙ take-length (n + 126) m (omega (arith, length-drop n m)) in
        let stored : feed capacity r (report_of id (flag_of is_first true) (chunk_at n))
            ≡ (outcome capacity m, holding capacity m) =
          accepts true
          ∙ store_last capacity (take n m) (chunk_at n)
          ∙ ap (λ t. (outcome capacity t, holding capacity t)) whole in
        rw
          (
            drain_step fuel _ _ _ (round n emitted is_first true within open_yet first_test l),
            drain-done fuel _ (done-at (n + length (chunk_at n)) (omega arith)),
          )
          (feed_all_step capacity r _ _ _ [] _ [] stored (unfold feed_all in refl))

    more_step :
        leb (length (drop n m)) 126 ≡ false
        → (ss : List Status) (r'' : HidReassembler)
        → feed_all capacity (assembled capacity (take (n + 126) m)) (drain fuel (at (n + 126) true))
          ≡ (ss, r'')
        → feed_all capacity r (drain (suc fuel) (at n emitted)) ≡ (in_progress ∷ ss, r'')
    more_step g ss r'' ih =
        let rest : 126 < length (drop n m) = ground arith in
        let size : length (chunk_at n) ≡ 126 = omega (arith, length-chunk_at n, length-drop n m) in
        let stored : feed capacity r (report_of id (flag_of is_first false) (chunk_at n))
            ≡ (in_progress, assembled capacity (take (n + 126) m)) =
          accepts false
          ∙ store_more capacity (take n m) (chunk_at n)
          ∙ ap (λ t. (in_progress, assembled capacity t)) (take-chunk_at n) in
        let taken : drain (suc fuel) (at n emitted)
            ≡ report_of id (flag_of is_first false) (chunk_at n) ∷ drain fuel (at (n + 126) true) =
          drain_step fuel _ _ _ (round n emitted is_first false within open_yet first_test g)
          ∙ ap
              (λ k.
                report_of id (flag_of is_first false) (chunk_at n) ∷ drain fuel (at (n + k) true))
              size in
        rw taken (feed_all_step capacity r _ r'' _ _ _ ss stored ih)

  run_from :
      (fuel n : ℕ) (emitted is_first : Bool) (r : HidReassembler)
      → Accepts r n is_first
      → n ≤ length m
      → done (at n emitted) ≡ false
      → (n == 0) ≡ is_first
      → length m < fuel + n
      → feed_all capacity r (drain fuel (at n emitted)) ≡ (
        replicate ((length m - n - 1) / 126) in_progress ++ outcome capacity m ∷ [],
        holding capacity m,
      )
  run_from zero n emitted is_first r a h d z f = absurd (omega arith)
  run_from (suc fuel) n emitted is_first r a h d z f =
      elim (Bool-cases (leb (length (drop n m)) 126)) [
        | inl l ↦
            let rest : length (drop n m) ≤ 126 = ground arith in
            let count : (length m - n - 1) / 126 ≡ 0 = omega (arith, length-drop n m) in
            rw count (last_step fuel n emitted is_first r a h d z l)
        | inr g ↦
            let rest : 126 < length (drop n m) = ground arith in
            let size : n + 126 < length m = omega (arith, length-drop n m) in
            rw (rounds_step (length m) n size) (
              more_step fuel n emitted is_first r a h d z g _ _ (
                run_from fuel (n + 126) true false (assembled capacity (take (n + 126) m))
                  (later_Accepts (n + 126) (omega arith) size) (omega arith)
                  (not_done-at (n + 126) size) (ne→== (n + 126) 0 (omega arith)) (omega arith)))
      ]

-- Whatever state the reassembler was left in, fed the reports that the chunker makes of a message
-- it answers InProgress to each but the last, one for every full 126 bytes with more to come.
-- The last is answered Complete with the message as the buffer if the message fits the capacity,
-- and Overflow with the message's size modulo 2^32 and an empty buffer if it does not.
pub feed_all-reports :
    (capacity id : ℕ) (m : List ℕ) (r : HidReassembler)
    → feed_all capacity r (reports m id) ≡ (
      replicate ((length m - 1) / 126) in_progress ++ outcome capacity m ∷ [],
      holding capacity m,
    )
unfolding reports chunker done
feed_all-reports capacity id m r =
    let start : assembled capacity [] ≡ cleared = ground arith in
    let rounds : length m - 0 - 1 ≡ length m - 1 = omega arith in
    let all : feed_all capacity r (drain (length m + 1) (at capacity id m 0 false)) ≡ (
      replicate ((length m - 0 - 1) / 126) in_progress ++ outcome capacity m ∷ [],
      holding capacity m,
    ) =
      run_from capacity id m (length m + 1) 0 false true r
        (λ is_last.
          feed_first capacity r id (chunk_at capacity id m 0) is_last (chunk_fits capacity id m 0)
          ∙ ap (λ t. store capacity t is_last (take 126 m)) (sym start))
        (omega arith) refl refl (omega arith) in
    rw (← rounds) all
