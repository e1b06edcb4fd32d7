-- ===== src/Json/Strings.antt =====
-- The strings of QcCatalogJson.hpp, read back as JSON has them.
use qcremote.Prelude.{
  ltb, ◌==◌, if◌then◌else◌, ==→eq, Bool-cases, length, keep, ℕ, ◌+◌, ◌*◌, ◌≤◌, ◌≡◌, refl, inl, inr,
  Bool, true, false, not, ◌||◌, Option, none, some, List, [], ◌∷◌, ◌++◌, append_assoc,
}
use qcremote.Json.{escape, append_quoted}
use qcremote.Json.Append.{escaped, append_quoted_lem}

abbrev prepend : ℕ → Option (List ℕ × List ℕ) → Option (List ℕ × List ℕ)
prepend c none = none
prepend c (some (text, rest)) = some (c ∷ text, rest)

-- A JSON string from behind its opening quote on, with what follows it; the flag is whether a backslash
-- stands before. A bare control character, a missing end and an escape that the encoder does not use
-- are errors.
abbrev pub read_string : Bool → List ℕ → Option (List ℕ × List ℕ)
read_string is_escaped [] = none
read_string true (c ∷ text) =
    let more = read_string false text in
    if c == 34 || c == 92 then prepend c more else if c == 110 then prepend 10 more else none
read_string false (c ∷ text) =
    let more = read_string false text in
    let behind = read_string true text in
    if c == 34
    then some ([], text)
    else if c == 92
    then behind
    else if ltb c 0x20
    then none
    else prepend c more

-- The characters that are written: all but control characters other than the line feed.
abbrev pub is_shown : ℕ → Bool
is_shown c = c == 10 || not (ltb c 0x20)

read_escaped :
    (text rest : List ℕ)
    → read_string false (escaped text ++ 34 ∷ rest) ≡ some (keep is_shown text, rest)
unfolding escape
read_escaped [] rest = refl
read_escaped (c ∷ text) rest =
    let more = read_escaped text rest in
    elim (Bool-cases (c == 34)) [
      | inl quote ↦ rw (==→eq c 34 quote, more) refl
      | inr n34 ↦ elim (Bool-cases (c == 92)) [
        | inl backslash ↦ rw (==→eq c 92 backslash, more) refl
        | inr n92 ↦ elim (Bool-cases (c == 10)) [
          | inl line ↦ rw (==→eq c 10 line, more) refl
          | inr n10 ↦ elim (Bool-cases (ltb c 0x20)) [
            | inl low ↦ rw (n34, n92, n10, low) more
            | inr high ↦ rw (n34, n92, n10, high, n34, n92, high, more) refl
          ]
        ]
      ]
    ]

-- What append_quoted writes reads back: with room for every character escaped and the quotes, the
-- append adds a quote and a text that a reader of JSON strings takes up to the closing quote, and to
-- the text without its control characters other than the line feed, whatever follows it.
pub append_quoted_reads :
    (capacity : ℕ) (out text rest : List ℕ)
    → length out + 2 * length text + 2 ≤ capacity
    → (written : List ℕ) × (append_quoted capacity out text ≡ out ++ 34 ∷ written)
      × (read_string false (written ++ rest) ≡ some (keep is_shown text, rest))
append_quoted_reads capacity out text rest room = (
  escaped text ++ 34 ∷ [],
  append_quoted_lem capacity out text room,
  rw (append_assoc (escaped text) (34 ∷ []) rest) (read_escaped text rest),
)
