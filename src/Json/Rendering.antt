-- ===== src/Json/Rendering.antt =====
-- The document of a snapshot, without a buffer, and the parts of a snapshot that may be shown.
use qcremote.Prelude.{
  if◌then◌else◌, length, All, ℕ, ◌%◌, ◌^◌, ◌≤◌, ◌≡◌, Bool, true, false, List, [], ◌∷◌, ◌++◌,
}
use qcremote.Prelude.Text.{codes}
use qcremote.Catalog.{PresetEntry}
use qcremote.Catalog.Snapshot.{FolderEntry, QcCatalogSnapshot}
use qcremote.Json.Append.{quoted, decimal}

abbrev pub preset_text : PresetEntry → List ℕ
preset_text p =
    (((codes "{\"index\":" ++ decimal p.index) ++ codes ",\"name\":") ++ quoted p.name) ++ codes "}"

abbrev pub comma : Bool → List ℕ
comma is_first = if is_first then [] else codes ","

abbrev pub presets_text : Bool → List PresetEntry → List ℕ
presets_text is_first [] = []
presets_text is_first (p ∷ ps) = comma is_first ++ (preset_text p ++ presets_text false ps)

abbrev pub opening_text : FolderEntry → List ℕ
opening_text f = (codes "{\"name\":" ++ quoted f.name) ++ codes ",\"presets\":["

abbrev pub folder_text : FolderEntry → List ℕ
folder_text f = opening_text f ++ (presets_text true f.presets ++ codes "]}")

abbrev pub folders_text : Bool → List FolderEntry → List ℕ
folders_text is_first [] = []
folders_text is_first (f ∷ fs) = comma is_first ++ (folder_text f ++ folders_text false fs)

abbrev pub header_text : QcCatalogSnapshot → List ℕ
header_text s =
    (((codes "{\"generation\":" ++ decimal s.generation) ++ codes ",\"presetCount\":")
      ++ decimal (s.preset_count % 2 ^ 32))
    ++ codes ",\"folders\":["

abbrev pub end_text : Bool → List ℕ
end_text incomplete =
    (codes "],\"incomplete\":" ++ (if incomplete then codes "true" else codes "false")) ++ codes "}"

-- The document of a snapshot, in a buffer without bounds.
abbrev pub document : QcCatalogSnapshot → List ℕ
document s = (header_text s ++ folders_text true s.folders) ++ end_text s.incomplete

-- The folders that are shown, and whether something is left out: at least one folder or preset, by a cut
-- between two folders, or between two presets of the last one shown.
pub data Shown : List FolderEntry → List FolderEntry → Bool → Type 0 where
  all : Shown [] [] false
  cut : {f : FolderEntry} {fs : List FolderEntry} → Shown (f ∷ fs) [] true
  cut_in :
      {f : FolderEntry} {fs : List FolderEntry} {some_presets : List PresetEntry} (p : PresetEntry)
      (rest : List PresetEntry)
      → f.presets ≡ some_presets ++ p ∷ rest
      → Shown (f ∷ fs) (record f { presets = some_presets } ∷ []) true
  next :
      {f : FolderEntry} {fs shown : List FolderEntry} {left_out : Bool}
      → Shown fs shown left_out
      → Shown (f ∷ fs) (f ∷ shown) left_out

abbrev pub ShortPreset : PresetEntry → Type 0
ShortPreset p = length p.name ≤ 32

abbrev pub ShortFolder : FolderEntry → Type 0
ShortFolder f = (length f.name ≤ 32) × All ShortPreset f.presets
