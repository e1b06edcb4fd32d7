-- ===== src/Printer.antt =====
-- QcPresetPrinter.hpp: the thread that logs the listing, folder by folder, while the catalog may change
-- between the blocks that its mutex guards.
pub mod Extends
pub mod Growth
pub mod Listing
mod Tests
use qcremote.Prelude.{
  ltb, ◌==◌, if◌then◌else◌, length, take, drop, replicate, ℕ, zero, suc, min, Bool, true, false,
  not, Option, none, some, List, [], ◌∷◌, ◌++◌,
}
use qcremote.Prelude.Text.{EtlString}
use qcremote.Catalog.{Folder, PresetCatalog, PresetEntry, add_preset, max_presets_per_folder, reset}
use qcremote.Messages.File.{FilePreset}

-- `has_catalog` is whether `catalog` points to the session's catalog, the only one there is.
pub record PendingRequest : Type 0 where
  pub has_catalog : Bool
  pub generation : ℕ
  pub incomplete : Bool

abbrev pub no_request : PendingRequest
no_request = record { has_catalog = false; generation = 0; incomplete = false }

-- `print_request_sem` is a semaphore whose limit is 1.
pub record QcPresetPrinter : Type 0 where
  pub thread_started : Bool
  pub print_request_sem : Bool
  pub pending_request : PendingRequest
  pub folder_snapshot : List PresetEntry

abbrev pub new_printer : QcPresetPrinter
new_printer = record {
  thread_started = false;
  print_request_sem = false;
  pending_request = no_request;
  folder_snapshot = replicate max_presets_per_folder (record { index = 0; name = [] });
}

unfoldable pub start_printer : QcPresetPrinter → QcPresetPrinter
start_printer p = if p.thread_started then p else record p { thread_started = true }

unfoldable pub request_print : QcPresetPrinter → PresetCatalog → Bool → QcPresetPrinter
request_print p catalog incomplete = record p {
  pending_request = record {
    has_catalog = true;
    generation = catalog.generation;
    incomplete = incomplete;
  };
  print_request_sem = true;
}

-- `run` up to printCatalog: k_sem_take, which waits while nothing is requested, and the copy.
unfoldable pub take_request : QcPresetPrinter → Option (PendingRequest × QcPresetPrinter)
take_request p =
    if p.print_request_sem
    then some (p.pending_request, record p { print_request_sem = false })
    else none

-- The array `dest` after the loop of copyPresetEntries.
unfoldable pub copied : List PresetEntry → List PresetEntry → List PresetEntry
copied [] dest = dest
copied (s ∷ source) [] = []
copied (s ∷ source) (d ∷ dest) = s ∷ copied source dest

unfoldable pub copy_preset_entries : List PresetEntry → List PresetEntry → List PresetEntry × ℕ
copy_preset_entries source dest = (copied source dest, min (length source) (length dest))

-- The lines of the log.
pub data Line : Type 0 where
  reset_before : Line
  totals : (folders presets : ℕ) (incomplete : Bool) → Line
  rejected : ℕ → Line
  dropped : ℕ → Line
  folder_line : List ℕ → ℕ → Line
  preset_line : ℕ → List ℕ → Line
  stopped_early : Line

-- What happens to the catalog while its mutex is free.
pub data CatalogOp : Type 0 where
  adds : FilePreset → CatalogOp
  resets : CatalogOp

abbrev pub first_gap : List (List CatalogOp) → List CatalogOp
first_gap [] = []
first_gap (ops ∷ gaps) = ops

unfoldable pub folder_at : ℕ → List Folder → Option Folder
folder_at i [] = none
folder_at zero (f ∷ fs) = some f
folder_at (suc i) (f ∷ fs) = folder_at i fs

abbrev pub entry_lines : List PresetEntry → List Line
entry_lines [] = []
entry_lines (p ∷ ps) = preset_line p.index p.name ∷ entry_lines ps

abbrev pub header_lines : PresetCatalog → Bool → List Line
header_lines c incomplete =
    totals (length c.folders) c.preset_count incomplete
    ∷ ((if ltb 0 c.folder_overflow_count then rejected c.folder_overflow_count ∷ [] else [])
        ++ (if ltb 0 c.preset_overflow_count then dropped c.preset_overflow_count ∷ [] else []))

module _ (etl : EtlString) where
  unfoldable pub run_ops : PresetCatalog → List CatalogOp → PresetCatalog
  run_ops c [] = c
  run_ops c (adds p ∷ ops) = run_ops (add_preset etl c p) ops
  run_ops c (resets ∷ ops) = run_ops (reset c) ops

  -- The loop, from the folder `i` on with `left` to go; `gaps` are the operations on the catalog before
  -- each of its guarded blocks. The answer has the scratch array as the loop leaves it.
  unfoldable pub print_folders :
      (left i generation : ℕ) (c : PresetCatalog) (gaps : List (List CatalogOp))
      (scratch : List PresetEntry)
      → List Line × List PresetEntry
  print_folders zero i generation c gaps scratch = ([], scratch)
  print_folders (suc left) i generation c gaps scratch =
      let d = run_ops c (first_gap gaps) in
      if not (d.generation == generation)
      then (stopped_early ∷ [], scratch)
      else elim (folder_at i d.folders) [
        | none ↦ ([], scratch)
        | some f ↦
            let (copy, count) = copy_preset_entries f.presets scratch in
            let (lines, end) = print_folders left (suc i) generation d (drop 1 gaps) copy in
            (folder_line f.name count ∷ (entry_lines (take count copy) ++ lines), end)
      ]

  unfoldable pub print_catalog :
      PresetCatalog
      → ℕ
      → Bool
      → List (List CatalogOp)
      → List PresetEntry
      → List Line × List PresetEntry
  print_catalog c generation incomplete gaps scratch =
      let (lines, end) = print_folders (length c.folders) 0 generation c gaps scratch in
      if not (c.generation == generation)
      then (reset_before ∷ [], scratch)
      else (header_lines c incomplete ++ lines, end)
