-- ===== src/Catalog.antt =====
-- QcPresetCatalog.hpp: the presets of the File stream, by folder, in storage of fixed capacity.
pub mod Lookup
pub mod Steps
pub mod Contents
pub mod Snapshot
mod Tests
use qcremote.Prelude.{
  ltb, leb, ◌==◌, if◌then◌else◌, length, is_empty, ℕ, zero, suc, ◌+◌, ◌*◌, ◌%◌, ◌^◌, bit_xor, Bool,
  not, ◌&&◌, ◌||◌, Option, none, some, List, [], ◌∷◌, ◌++◌,
}
use qcremote.Prelude.Text.{EtlString, codes, same_bytes}
use qcremote.Messages.File.{FilePreset}

abbrev pub max_folders : ℕ
max_folders = 8

abbrev pub max_presets_per_folder : ℕ
max_presets_per_folder = 64

abbrev pub name_capacity : ℕ
name_capacity = 32

abbrev pub word_mod : ℕ
word_mod = 2 ^ 32

pub record PresetEntry : Type 0 where
  pub index : ℕ
  pub name : List ℕ

pub record Folder : Type 0 where
  pub key_length : ℕ
  pub key_hash : ℕ
  pub key : List ℕ
  pub name : List ℕ
  pub presets : List PresetEntry

-- `folders` are the first `folderCount_` slots of `folders_`.
pub record PresetCatalog : Type 0 where
  pub folders : List Folder
  pub preset_count : ℕ
  pub folder_overflow_count : ℕ
  pub preset_overflow_count : ℕ
  pub generation : ℕ

unfoldable pub reset : PresetCatalog → PresetCatalog
reset c = record {
  folders = [];
  preset_count = 0;
  folder_overflow_count = 0;
  preset_overflow_count = 0;
  generation = (c.generation + 1) % word_mod;
}

unfoldable pub overflowed : PresetCatalog → Bool
overflowed c = ltb 0 c.folder_overflow_count || ltb 0 c.preset_overflow_count

unfoldable pub label_for : FilePreset → List ℕ
label_for p =
    if not (is_empty p.folder_name)
    then p.folder_name
    else if same_bytes p.folder_key (codes "cloud-0-1")
    then codes "Downloads"
    else p.folder_key

unfoldable pub fnv1a64_loop : ℕ → List ℕ → ℕ
fnv1a64_loop hash [] = hash
fnv1a64_loop hash (c ∷ cs) = fnv1a64_loop (bit_xor hash c * 0x100000001b3 % 2 ^ 64) cs

unfoldable pub fnv1a64 : List ℕ → ℕ
unfolding fnv1a64_loop
fnv1a64 bytes = fnv1a64_loop 0xcbf29ce484222325 bytes

-- The test of findFolder, and the slot that its loop stops at.
abbrev pub has_id : ℕ → ℕ → Folder → Bool
has_id len hash f = f.key_length == len && f.key_hash == hash

unfoldable pub find_slot : ℕ → ℕ → List Folder → Option ℕ
find_slot len hash [] = none
find_slot len hash (f ∷ fs) =
    if has_id len hash f
    then some 0
    else elim (find_slot len hash fs) [ none ↦ none | some i ↦ some (suc i) ]

abbrev pub key_size : List ℕ → ℕ
key_size key = length key % word_mod

unfoldable pub find_folder : PresetCatalog → List ℕ → Option ℕ
find_folder c key = find_slot (key_size key) (fnv1a64 key) c.folders

-- A write through a pointer to the slot `i`.
unfoldable pub update_slot : ℕ → (Folder → Folder) → List Folder → List Folder
update_slot i g [] = []
update_slot zero g (f ∷ fs) = g f ∷ fs
update_slot (suc i) g (f ∷ fs) = f ∷ update_slot i g fs

unfoldable pub slot_presets : ℕ → List Folder → List PresetEntry
slot_presets i [] = []
slot_presets zero (f ∷ fs) = f.presets
slot_presets (suc i) (f ∷ fs) = slot_presets i fs

module _ (etl : EtlString) where
  unfoldable pub new_folder : FilePreset → Folder
  new_folder p = record {
    key_length = key_size p.folder_key;
    key_hash = fnv1a64 p.folder_key;
    key = etl.assign name_capacity p.folder_key;
    name = etl.assign name_capacity (label_for p);
    presets = [];
  }

  -- `nullptr` is `none`.
  unfoldable pub add_folder : PresetCatalog → FilePreset → Option ℕ × PresetCatalog
  add_folder c p =
      if leb max_folders (length c.folders)
      then (none, record c { folder_overflow_count = (c.folder_overflow_count + 1) % word_mod })
      else (some (length c.folders), record c { folders = c.folders ++ new_folder p ∷ [] })

  abbrev pub new_entry : FilePreset → PresetEntry
  new_entry p = record { index = p.index; name = etl.assign name_capacity p.preset_name }

  -- The end of addPreset, on the folder that was found or added.
  unfoldable pub store_preset : PresetCatalog → FilePreset → Option ℕ → PresetCatalog
  store_preset c p none = c
  store_preset c p (some i) =
      if leb max_presets_per_folder (length (slot_presets i c.folders))
      then record c { preset_overflow_count = (c.preset_overflow_count + 1) % word_mod }
      else record c {
        folders =
            update_slot i (λ f. record f { presets = f.presets ++ new_entry p ∷ [] }) c.folders;
        preset_count = (c.preset_count + 1) % word_mod;
      }

  unfoldable pub add_to_new : Option ℕ × PresetCatalog → FilePreset → PresetCatalog
  add_to_new (slot, c) p = store_preset c p slot

  unfoldable pub add_preset : PresetCatalog → FilePreset → PresetCatalog
  add_preset c p = if is_empty p.preset_name then c else elim (find_folder c p.folder_key) [
    | some i ↦ store_preset c p (some i)
    | none ↦ add_to_new (add_folder c p) p
  ]

  -- The callback of decodeFile, on the presets in order.
  unfoldable pub add_presets : PresetCatalog → List FilePreset → PresetCatalog
  add_presets c [] = c
  add_presets c (p ∷ ps) = add_presets (add_preset c p) ps
