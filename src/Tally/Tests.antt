-- ===== src/Tally/Tests.antt =====
-- Runs of the tally.
use qcremote.Prelude.{ℕ, ◌≡◌, refl, some, List, [], ◌∷◌}
use qcremote.Tally.{unstarted, start, record_all, stop, record_command, bump, new_entry}
use qcremote.Tally.Counts.{entry_of}

abbrev commands : List ℕ
commands = 13 ∷ 33 ∷ 13 ∷ 4 ∷ 13 ∷ []

count_13 : entry_of 13 (record_all (start unstarted) commands).entries ≡ some 3
unfolding record_all start record_command bump new_entry
count_13 = refl

stopped : record_all (stop unstarted) commands ≡ unstarted
unfolding record_all stop record_command
stopped = refl
