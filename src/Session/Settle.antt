-- ===== src/Session/Settle.antt =====
-- waitForInTrafficToSettle (QcSession.hpp): the polls of the IN transfers before the File READ.
use qcremote.Prelude.{
  ltb, leb, if◌then◌else◌, Bool-cases, length, ℕ, zero, suc, ◌+◌, ◌-◌, ◌*◌, ◌%◌, ◌^◌, ◌≤◌, ◌<◌, ◌≡◌,
  refl, ◌⊎◌, inl, inr, Bool, true, false, not, ◌&&◌, ◌||◌, Option, none, some, List, [], ◌∷◌, arith,
}

abbrev pub settled_max_transfers_per_poll : ℕ
settled_max_transfers_per_poll = 5

abbrev pub settle_no_burst_ms : ℕ
settle_no_burst_ms = 1600

abbrev pub settle_max_ms : ℕ
settle_max_ms = 6000

-- A round of the loop: the time since the start, and the value of `totalInTransfers_`.
pub record Poll : Type 0 where
  pub elapsed : ℕ
  pub transfers : ℕ

abbrev pub is_busy : ℕ → Poll → Bool
is_busy last p = ltb settled_max_transfers_per_poll ((p.transfers + 2 ^ 32 - last) % 2 ^ 32)

-- The poll at which the loop returns; `none` where the polls run out first.
unfoldable pub settle : ℕ → Bool → List Poll → Option Poll
settle last saw_burst [] = none
settle last saw_burst (p ∷ ps) =
    let rest = settle p.transfers (saw_burst || is_busy last p) ps in
    if not (is_busy last p) && (saw_burst || leb settle_no_burst_ms p.elapsed)
    then some p
    else if leb settle_max_ms p.elapsed
    then some p
    else rest

-- A sleep between two polls takes 200 ms at least.
abbrev pub Spaced : ℕ → List Poll → Type 0
Spaced before [] = Unit {0}
Spaced before (p ∷ ps) = (before + 200 ≤ p.elapsed) × Spaced p.elapsed ps

-- The loop may end: the time is up, or the poll is quiet after a burst or after 1.6 s.
abbrev pub Due : ℕ → Bool → Poll → Type 0
Due last saw_burst p =
    (6000 ≤ p.elapsed) ⊎ ((is_busy last p ≡ false) × ((saw_burst ≡ true) ⊎ (1600 ≤ p.elapsed)))

-- The first poll at which it may, each poll measured against the one before.
pub data FirstDue : ℕ → Bool → List Poll → Poll → Type 0 where
  here :
      {last : ℕ} {saw_burst : Bool} {p : Poll} {ps : List Poll}
      → Due last saw_burst p
      → FirstDue last saw_burst (p ∷ ps) p
  later :
      {last : ℕ} {saw_burst : Bool} {p q : Poll} {ps : List Poll}
      → ¬ Due last saw_burst p
      → FirstDue p.transfers (saw_burst || is_busy last p) ps q
      → FirstDue last saw_burst (p ∷ ps) q

quiet_due :
    (last : ℕ) (saw : Bool) (p : Poll)
    → (not (is_busy last p) && (saw || leb 1600 p.elapsed)) ≡ true
    → (is_busy last p ≡ false) × ((saw ≡ true) ⊎ (1600 ≤ p.elapsed))
quiet_due last true p e = (ground arith, inl refl)
quiet_due last false p e = (ground arith, inr (ground arith))

not-Due :
    (last : ℕ) (saw : Bool) (p : Poll)
    → (not (is_busy last p) && (saw || leb 1600 p.elapsed)) ≡ false
    → leb 6000 p.elapsed ≡ false
    → ¬ Due last saw p
not-Due last saw p on early (inl up) = absurd (ground arith)
not-Due last saw p on early (inr (calm, inl burst)) = absurd (ground arith)
not-Due last saw p on early (inr (calm, inr late)) = absurd (ground arith)

settle_within :
    (last : ℕ) (saw_burst : Bool) (before n : ℕ) (ps : List Poll)
    → Spaced before ps
    → n ≤ length ps
    → 0 < n
    → 6000 ≤ before + n * 200
    → (p : Poll) × (settle last saw_burst ps ≡ some p) × FirstDue last saw_burst ps p
unfolding settle
settle_within last saw before n [] s h k big = absurd (omega arith)
settle_within last saw before zero (p ∷ ps) s h k big = absurd (omega arith)
settle_within last saw before (suc n) (p ∷ ps) s h k big =
    elim (Bool-cases (not (is_busy last p) && (saw || leb 1600 p.elapsed))) [
      | inl quiet ↦ (p, rw quiet refl, here (inr (quiet_due last saw p quiet)))
      | inr on ↦ elim (Bool-cases (leb 6000 p.elapsed)) [
        | inl up ↦ (p, rw (on, up) refl, here (inl (ground arith)))
        | inr early ↦
            let (q, e, f) =
              settle_within p.transfers (saw || is_busy last p) p.elapsed n ps s.1 (omega arith)
                (ground (arith, s.0)) (ground (arith, s.0)) in
            (q, rw (on, early) e, later (not-Due last saw p on early) f)
      ]
    ]

-- Polls that are 200 ms apart or more: the loop returns after at most 30 of them, at the first one that
-- is due. A poll is due 6 s after the start, or earlier if at most five transfers came since the one
-- before and either an earlier poll had more or 1.6 s have passed.
pub settle_ends :
    (last : ℕ) (ps : List Poll)
    → Spaced 0 ps
    → 30 ≤ length ps
    → (p : Poll) × (settle last false ps ≡ some p) × FirstDue last false ps p
settle_ends last ps s h = settle_within last false 0 30 ps s h (omega arith) (omega arith)
