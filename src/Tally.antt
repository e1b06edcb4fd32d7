-- ===== src/Tally.antt =====
-- QcMessageTally.hpp: messages counted by command, in 24 slots and a counter for the others.
pub mod Counts
mod Tests
use qcremote.Prelude.{
  ltb, ◌==◌, if◌then◌else◌, length, ℕ, ◌+◌, ◌%◌, ◌^◌, Bool, true, false, not, Option, none, some,
  List, [], ◌∷◌, ◌++◌,
}

abbrev pub max_distinct_commands : ℕ
max_distinct_commands = 24

pub record TallyEntry : Type 0 where
  pub command : ℕ
  pub count : ℕ

-- `entries` are the first `entryCount_` slots of `entries_`.
pub record QcMessageTally : Type 0 where
  pub active : Bool
  pub entries : List TallyEntry
  pub other_count : ℕ

abbrev pub started : QcMessageTally
started = record { active = true; entries = []; other_count = 0 }

abbrev pub unstarted : QcMessageTally
unstarted = record { active = false; entries = []; other_count = 0 }

unfoldable pub start : QcMessageTally → QcMessageTally
start t = record t { active = true; entries = []; other_count = 0 }

-- The loop of `record`: `none` where it runs through.
unfoldable pub bump : ℕ → List TallyEntry → Option (List TallyEntry)
bump command [] = none
bump command (e ∷ es) =
    if e.command == command
    then some (record e { count = (e.count + 1) % 2 ^ 32 } ∷ es)
    else elim (bump command es) [ none ↦ none | some es' ↦ some (e ∷ es') ]

-- What follows the loop.
unfoldable pub new_entry : ℕ → QcMessageTally → QcMessageTally
new_entry command t =
    if ltb (length t.entries) max_distinct_commands
    then record t { entries = t.entries ++ record { command = command; count = 1 } ∷ [] }
    else record t { other_count = (t.other_count + 1) % 2 ^ 32 }

unfoldable pub record_command : ℕ → QcMessageTally → QcMessageTally
record_command command t = if not t.active then t else elim (bump command t.entries) [
  | some entries ↦ record t { entries = entries }
  | none ↦ new_entry command t
]

unfoldable pub stop : QcMessageTally → QcMessageTally
stop t = record t { active = false }

unfoldable pub record_all : QcMessageTally → List ℕ → QcMessageTally
record_all t [] = t
record_all t (c ∷ cs) = record_all (record_command c t) cs
