-- ===== src/Catalog/Lookup.antt =====
-- The presets of a folder, by its identity: what an update of its slot or a new folder changes.
use qcremote.Prelude.{
  ◌==◌, if◌then◌else◌, length, ℕ, zero, suc, ◌≡◌, refl, Bool, true, ◌&&◌, none, some, List, [], ◌∷◌,
  ◌++◌, arith,
}
use qcremote.Catalog.{PresetEntry, Folder, has_id, find_slot, update_slot, slot_presets}

-- The presets of the first folder with this identity.
unfoldable pub stored : ℕ → ℕ → List Folder → List PresetEntry
stored len hash [] = []
stored len hash (f ∷ fs) = if has_id len hash f then f.presets else stored len hash fs

abbrev pub push : PresetEntry → Folder → Folder
push e f = record f { presets = f.presets ++ e ∷ [] }

abbrev pub same_id : ℕ → ℕ → ℕ → ℕ → Bool
same_id len hash len' hash' = len == len' && hash == hash'

pub found-slot_presets :
    (len hash : ℕ) (fs : List Folder) (i : ℕ)
    → find_slot len hash fs ≡ some i
    → slot_presets i fs ≡ stored len hash fs
unfolding find_slot slot_presets stored
found-slot_presets len hash [] i e = cc
found-slot_presets len hash (f ∷ fs) zero e = ground arith
found-slot_presets len hash (f ∷ fs) (suc i) e = ground (arith, found-slot_presets len hash fs i)

pub stored-update_slot :
    (len hash len' hash' : ℕ) (e : PresetEntry) (fs : List Folder) (i : ℕ)
    → find_slot len hash fs ≡ some i
    → stored len' hash' (update_slot i (push e) fs)
      ≡ (if same_id len hash len' hash' then stored len hash fs ++ e ∷ [] else stored len' hash' fs)
unfolding find_slot update_slot stored
stored-update_slot len hash len' hash' e [] i h = cc
stored-update_slot len hash len' hash' e (f ∷ fs) zero h = ground arith
stored-update_slot len hash len' hash' e (f ∷ fs) (suc i) h =
    ground (arith, stored-update_slot len hash len' hash' e fs i)

-- A new folder without presets changes what is stored for nobody, and is where the search ends.
pub stored-append :
    (len hash : ℕ) (fs : List Folder) (new : Folder)
    → new.presets ≡ []
    → stored len hash (fs ++ new ∷ []) ≡ stored len hash fs
unfolding stored
stored-append len hash [] new e = ground arith
stored-append len hash (f ∷ fs) new e = ground (arith, stored-append len hash fs new e)

pub find_slot-append :
    (len hash : ℕ) (fs : List Folder) (new : Folder)
    → find_slot len hash fs ≡ none
    → has_id len hash new ≡ true
    → find_slot len hash (fs ++ new ∷ []) ≡ some (length fs)
unfolding find_slot
find_slot-append len hash [] new e h = rw h refl
find_slot-append len hash (f ∷ fs) new e h = ground (arith, find_slot-append len hash fs new)

pub slot_presets-append :
    (fs : List Folder) (new : Folder) → slot_presets (length fs) (fs ++ new ∷ []) ≡ new.presets
unfolding slot_presets
slot_presets-append [] new = refl
slot_presets-append (f ∷ fs) new = slot_presets-append fs new

pub not_found-stored :
    (len hash : ℕ) (fs : List Folder) → find_slot len hash fs ≡ none → stored len hash fs ≡ []
unfolding find_slot stored
not_found-stored len hash [] e = refl
not_found-stored len hash (f ∷ fs) e = ground (arith, not_found-stored len hash fs)
