-- ===== src/Tally/Counts.antt =====
-- What the tally counts, against the commands that it was given.
use qcremote.Prelude.{
  ltb, ◌==◌, if◌then◌else◌, ==_self, ==→eq, Bool-cases, Option-cases, length, length-append, ℕ, suc,
  ◌+◌, ◌%◌, ◌^◌, ◌≤◌, ◌<◌, ◌≡◌, refl, sym, ap, ◌∙◌, ◌⊎◌, inl, inr, true, false, Option, none, some,
  List, [], ◌∷◌, ◌++◌, arith,
}
use qcremote.Tally.{
  TallyEntry, QcMessageTally, started, start, bump, new_entry, record_command, record_all,
}

abbrev pub occurrences : ℕ → List ℕ → ℕ
occurrences c [] = 0
occurrences c (d ∷ ds) = let rest = occurrences c ds in if d == c then suc rest else rest

-- The first entry of the command.
abbrev pub entry_of : ℕ → List TallyEntry → Option ℕ
entry_of c [] = none
entry_of c (e ∷ es) = let rest = entry_of c es in if e.command == c then some e.count else rest

abbrev one_more : Option ℕ → Option ℕ
one_more none = none
one_more (some n) = some ((n + 1) % 2 ^ 32)

-- A bump changes the entry of its own command only, and adds none.
bump-entry_of :
    (d c : ℕ) (es es' : List TallyEntry)
    → bump d es ≡ some es'
    → (entry_of c es' ≡ (if d == c then one_more (entry_of c es) else entry_of c es))
      × (length es' ≡ length es)
unfolding bump
bump-entry_of d c [] es' h = cc
bump-entry_of d c (e ∷ es) es' h = elim (Bool-cases (e.command == d)) [
  | inl own ↦
      let eq : record e { count = (e.count + 1) % 2 ^ 32 } ∷ es ≡ es' = ground arith in
      rw (← eq) (ground arith)
  | inr other ↦ elim (Option-cases (bump d es)) [
    | inl missing ↦ absurd (ground arith)
    | inr (rest, found) ↦
        let eq : e ∷ rest ≡ es' = ground arith in
        let (same, size) = bump-entry_of d c es rest found in
        rw (← eq) (rw same (ground arith), omega (arith, size))
  ]
]

bump-none : (d : ℕ) (es : List TallyEntry) → bump d es ≡ none → entry_of d es ≡ none
unfolding bump
bump-none d [] h = refl
bump-none d (e ∷ es) h = ground (arith, bump-none d es)

entry_of-append :
    (c : ℕ) (es : List TallyEntry) (new : TallyEntry)
    → entry_of c (es ++ new ∷ []) ≡ elim (entry_of c es) [
      | some n ↦ some n
      | none ↦ if new.command == c then some new.count else none
    ]
entry_of-append c [] new = refl
entry_of-append c (e ∷ es) new = ground (arith, entry_of-append c es new)

none-bump : (d : ℕ) (es : List TallyEntry) → entry_of d es ≡ none → bump d es ≡ none
unfolding bump
none-bump d [] h = refl
none-bump d (e ∷ es) h = ground (arith, none-bump d es)

-- One call of `record` on an active tally, as the command `c` sees it.
record Recorded (d c : ℕ) (t t' : QcMessageTally) : Type 0 where
  active : t'.active ≡ true
  no_shorter : length t.entries ≤ length t'.entries
  others : (d == c) ≡ false → entry_of c t'.entries ≡ entry_of c t.entries
  again : (n : ℕ) → entry_of d t.entries ≡ some n → entry_of d t'.entries ≡ some ((n + 1) % 2 ^ 32)
  anew :
      entry_of d t.entries ≡ none
      → ((entry_of d t'.entries ≡ some 1) × (length t.entries < 24))
        ⊎ ((entry_of d t'.entries ≡ none) × (24 ≤ length t.entries))

record_command-Recorded :
    (d c : ℕ) (t : QcMessageTally) → t.active ≡ true → Recorded d c t (record_command d t)
record_command-Recorded d c t a = elim (Option-cases (bump d t.entries)) [
  | inl missing ↦ elim (Bool-cases (ltb (length t.entries) 24)) [
    | inl room ↦
        let grown : record_command d t
            ≡ record t { entries = t.entries ++ record { command = d; count = 1 } ∷ [] } =
          unfold record_command new_entry in simp (a, missing, room) in
        rw grown (record {
          active = a;
          no_shorter =
              omega (arith, length-append t.entries (record { command = d; count = 1 } ∷ []));
          others = λ o.
              rw (entry_of-append c t.entries (record { command = d; count = 1 })) (ground arith);
          again = λ n e. absurd (ground (arith, bump-none d t.entries missing));
          anew = λ e. inl (
            rw (entry_of-append d t.entries (record { command = d; count = 1 }), e) (ground arith),
            ground arith,
          );
        })
    | inr full ↦
        let counted : record_command d t ≡ record t { other_count = (t.other_count + 1) % 2 ^ 32 } =
          unfold record_command new_entry in simp (a, missing, full) in
        rw counted (record {
          active = a;
          no_shorter = omega arith;
          others = λ o. refl;
          again = λ n e. absurd (ground (arith, bump-none d t.entries missing));
          anew = λ e. inr (e, ground arith);
        })
  ]
  | inr (es, found) ↦
      let bumped : record_command d t ≡ record t { entries = es } =
        unfold record_command in simp (a, found) in
      rw bumped (record {
        active = a;
        no_shorter = omega (arith, (bump-entry_of d d t.entries es found).1);
        others = λ o. (bump-entry_of d c t.entries es found).0 ∙ rw o refl;
        again = λ n e. (bump-entry_of d d t.entries es found).0 ∙ rw (==_self d, e) refl;
        anew = λ e. absurd (ground (arith, none-bump d t.entries e));
      })
]

-- A command that has an entry is counted there.
counts_on :
    (c n : ℕ) (t : QcMessageTally) (ds : List ℕ)
    → t.active ≡ true
    → entry_of c t.entries ≡ some n
    → n + length ds < 2 ^ 32
    → entry_of c (record_all t ds).entries ≡ some (n + occurrences c ds)
unfolding record_all
counts_on c n t [] a e h = e ∙ ap some (omega arith)
counts_on c n t (d ∷ ds) a e h =
    let r = record_command-Recorded d c t a in
    elim (Bool-cases (d == c)) [
      | inl own ↦
          let eq : d ≡ c = ==→eq d c own in
          let one : (n + 1) % 2 ^ 32 ≡ n + 1 = omega arith in
          let here : entry_of c (record_command d t).entries ≡ some (n + 1) =
            ap (λ x. entry_of x (record_command d t).entries) (sym eq)
            ∙ r.again n (ap (λ x. entry_of x t.entries) eq ∙ e)
            ∙ ap some one in
          counts_on c (n + 1) (record_command d t) ds r.active here (omega arith)
          ∙ ap some (rw own (omega arith))
      | inr other ↦
          counts_on c n (record_command d t) ds r.active (r.others other ∙ e) (omega arith)
          ∙ ap some (rw other refl)
    ]

abbrev Untracked : ℕ → QcMessageTally → Type 0
Untracked c t = (entry_of c t.entries ≡ none) × (24 ≤ length t.entries)

stays_out :
    (c : ℕ) (t : QcMessageTally) (ds : List ℕ)
    → t.active ≡ true
    → Untracked c t
    → Untracked c (record_all t ds)
unfolding record_all
stays_out c t [] a u = u
stays_out c t (d ∷ ds) a u =
    let r = record_command-Recorded d c t a in
    stays_out c (record_command d t) ds r.active (still r, omega (arith, u.1, r.no_shorter))
  where
    still : Recorded d c t (record_command d t) → entry_of c (record_command d t).entries ≡ none
    still r = elim (Bool-cases (d == c)) [
      | inl own ↦
          let eq : d ≡ c = ==→eq d c own in
          elim (r.anew (ap (λ x. entry_of x t.entries) eq ∙ u.0)) [
            | inl new ↦ absurd (omega (arith, new.1, u.1))
            | inr out ↦ ap (λ x. entry_of x (record_command d t).entries) (sym eq) ∙ out.0
          ]
      | inr other ↦ r.others other ∙ u.0
    ]

-- A command without an entry: it gets one and is counted in full, or finds the slots taken.
abbrev pub Counted : ℕ → List ℕ → List TallyEntry → Type 0
Counted c ds es =
    (entry_of c es ≡ some (occurrences c ds))
    ⊎ ((entry_of c es ≡ none) × ((occurrences c ds ≡ 0) ⊎ (24 ≤ length es)))

counts_new :
    (c : ℕ) (t : QcMessageTally) (ds : List ℕ)
    → t.active ≡ true
    → entry_of c t.entries ≡ none
    → length ds < 2 ^ 32
    → Counted c ds (record_all t ds).entries
unfolding record_all
counts_new c t [] a e h = inr (e, inl refl)
counts_new c t (d ∷ ds) a e h =
    let r = record_command-Recorded d c t a in
    elim (Bool-cases (d == c)) [
      | inl own ↦
          let eq : d ≡ c = ==→eq d c own in
          let look : entry_of c (record_command d t).entries
              ≡ entry_of d (record_command d t).entries =
            ap (λ x. entry_of x (record_command d t).entries) (sym eq) in
          elim (r.anew (ap (λ x. entry_of x t.entries) eq ∙ e)) [
            | inl new ↦ inl (
                counts_on c 1 (record_command d t) ds r.active (look ∙ new.0) (omega arith)
                ∙ ap some (rw own (omega arith)))
            | inr out ↦
                let u =
                  stays_out c (record_command d t) ds r.active
                    (look ∙ out.0, omega (arith, out.1, r.no_shorter)) in
                inr (u.0, inr u.1)
          ]
      | inr other ↦
          rw other
            (counts_new c (record_command d t) ds r.active (r.others other ∙ e) (omega arith))
    ]

-- A tally that is started and given fewer than 2^32 commands has, for each command, an entry with the
-- number of times that it came, or no entry: then it never came, or all 24 entries are taken.
pub record_all-start :
    (t : QcMessageTally) (c : ℕ) (ds : List ℕ)
    → length ds < 2 ^ 32
    → Counted c ds (record_all (start t) ds).entries
unfolding start
record_all-start t c ds h = counts_new c started ds refl refl h
