-- ===== src/Catalog/Snapshot.antt =====
-- QcCatalogSnapshot.hpp: the copy of the catalog that a transport is given.
use qcremote.Prelude.{
  ℕ, ◌≡◌, sym, ap, ◌∙◌, Bool, false, List, [], ◌∷◌, ◌++◌, map, append-nil, append_assoc,
}
use qcremote.Catalog.{PresetEntry, Folder, PresetCatalog}

pub record FolderEntry : Type 0 where
  pub name : List ℕ
  pub presets : List PresetEntry

pub record QcCatalogSnapshot : Type 0 where
  pub folders : List FolderEntry
  pub preset_count : ℕ
  pub incomplete : Bool
  pub generation : ℕ

abbrev pub blank_snapshot : QcCatalogSnapshot
blank_snapshot = record { folders = []; preset_count = 0; incomplete = false; generation = 0 }

-- The inner loop. `out` has the folder's own capacity, so `emplace_back` finds room.
unfoldable pub copy_presets : List PresetEntry → List PresetEntry → List PresetEntry
copy_presets out [] = out
copy_presets out (p ∷ ps) = copy_presets (out ++ record { index = p.index; name = p.name } ∷ []) ps

unfoldable pub copy_folders : List FolderEntry → List Folder → List FolderEntry
copy_folders out [] = out
copy_folders out (f ∷ fs) =
    copy_folders (out ++ record { name = f.name; presets = copy_presets [] f.presets } ∷ []) fs

unfoldable pub copy_catalog_snapshot : PresetCatalog → Bool → QcCatalogSnapshot
copy_catalog_snapshot catalog incomplete = record {
  folders = copy_folders [] catalog.folders;
  preset_count = catalog.preset_count;
  incomplete = incomplete;
  generation = catalog.generation;
}

copy_presets_lem : (out ps : List PresetEntry) → copy_presets out ps ≡ out ++ ps
unfolding copy_presets
copy_presets_lem out [] = sym (append-nil out)
copy_presets_lem out (p ∷ ps) = copy_presets_lem (out ++ p ∷ []) ps ∙ append_assoc out (p ∷ []) ps

abbrev pub folder_entry : Folder → FolderEntry
folder_entry f = record { name = f.name; presets = f.presets }

copy_folders_lem :
    (out : List FolderEntry) (fs : List Folder) → copy_folders out fs ≡ out ++ map folder_entry fs
unfolding copy_folders
copy_folders_lem out [] = sym (append-nil out)
copy_folders_lem out (f ∷ fs) =
    let entry : FolderEntry = record { name = f.name; presets = copy_presets [] f.presets } in
    let same : entry ≡ folder_entry f =
      λ i. record { name = f.name; presets = copy_presets_lem [] f.presets i } in
    copy_folders_lem (out ++ entry ∷ []) fs
    ∙ append_assoc out (entry ∷ []) (map folder_entry fs)
    ∙ ap (λ t. out ++ t ∷ map folder_entry fs) same

-- The two loops copy every folder with its name and presets, in order.
pub copy_catalog_snapshot_lem :
    (catalog : PresetCatalog) (incomplete : Bool)
    → copy_catalog_snapshot catalog incomplete ≡ record {
      folders = map folder_entry catalog.folders;
      preset_count = catalog.preset_count;
      incomplete = incomplete;
      generation = catalog.generation;
    }
unfolding copy_catalog_snapshot
copy_catalog_snapshot_lem catalog incomplete = λ i. record {
  folders = copy_folders_lem [] catalog.folders i;
  preset_count = catalog.preset_count;
  incomplete = incomplete;
  generation = catalog.generation;
}
