-- ===== src/Catalog/Tests.antt =====
-- Runs of the catalog, and the theorems at concrete inputs.
use qcremote.Prelude.{length, keep, ℕ, ◌≡◌, refl, ◌⊎◌, true, false, List, [], ◌∷◌, map, arith}
use qcremote.Prelude.Text.{truncating, codes}
use qcremote.Messages.File.{FilePreset}
use qcremote.Catalog.{
  PresetCatalog, reset, overflowed, fnv1a64, label_for, new_entry, add_preset, add_presets,
  find_folder, find_slot, add_to_new, store_preset, add_folder, slot_presets, new_folder,
  update_slot,
}
use qcremote.Catalog.Steps.{held, Outcome, add_preset-Outcome}
use qcremote.Catalog.Contents.{is_named, belongs, accounted, all_accounted, complete_contents}

abbrev preset : List ℕ → List ℕ → ℕ → FilePreset
preset key name index = record {
  folder_key = key;
  folder_name = [];
  folder_is_factory = false;
  preset_name = name;
  index = index;
}

abbrev empty : PresetCatalog
empty = record {
  folders = [];
  preset_count = 0;
  folder_overflow_count = 0;
  preset_overflow_count = 0;
  generation = 0;
}

abbrev stream : List FilePreset
stream =
    preset (codes "f") (codes "A") 0
    ∷ preset (codes "f") [] 1
    ∷ preset (codes "g") (codes "B") 0
    ∷ preset (codes "f") (codes "C") 2
    ∷ []

-- The published test vector of FNV-1a.
fnv1a64_a : fnv1a64 (codes "a") ≡ 0xaf63dc4c8601ec8c
unfolding fnv1a64
fnv1a64_a = refl

label_downloads : label_for (preset (codes "cloud-0-1") (codes "A") 0) ≡ codes "Downloads"
unfolding label_for
label_downloads = refl

count_stream : (add_presets truncating (reset empty) stream).preset_count ≡ 3
unfolding add_presets reset add_preset find_folder find_slot add_to_new store_preset add_folder
    slot_presets new_folder update_slot fnv1a64
count_stream = refl

no_overflow : overflowed (add_presets truncating (reset empty) stream) ≡ false
unfolding overflowed add_presets reset add_preset find_folder find_slot add_to_new store_preset
    add_folder slot_presets new_folder update_slot fnv1a64
no_overflow = refl

add_preset-Outcome_example :
    let p = preset (codes "f") (codes "A") 0 in
    ((false ≡ true) × (add_preset truncating empty p ≡ empty))
    ⊎ ((false ≡ false) × (Outcome truncating empty p (add_preset truncating empty p)))
add_preset-Outcome_example = add_preset-Outcome truncating empty (preset (codes "f") (codes "A") 0)

all_accounted_example :
    accounted (add_presets truncating (reset empty) stream) ≡ length (keep is_named stream)
all_accounted_example = all_accounted truncating empty stream (omega arith)

complete_contents_example :
    held (add_presets truncating (reset empty) stream) 1 (fnv1a64 (codes "f"))
    ≡ map (new_entry truncating) (keep (belongs 1 (fnv1a64 (codes "f"))) stream)
complete_contents_example =
    complete_contents truncating empty stream 1 (fnv1a64 (codes "f")) (omega arith) no_overflow
