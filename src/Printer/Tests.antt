-- ===== src/Printer/Tests.antt =====
-- A listing that is printed while a preset is added to it, and the theorem at it.
use qcremote.Prelude.{◌≡◌, refl, true, false, List, [], ◌∷◌, ◌++◌, arith}
use qcremote.Printer.Listing.{Printed, print_catalog-Printed}
use qcremote.Catalog.{PresetCatalog, PresetEntry, reset}
use qcremote.Prelude.Text.{EtlString, codes, truncating}
use qcremote.Printer.{
  Line, folder_line, header_lines, new_printer, preset_line, print_catalog, reset_before,
  stopped_early, totals, resets, print_folders, run_ops, folder_at, copy_preset_entries, copied,
}

abbrev whole : EtlString
whole = truncating

abbrev catalog : PresetCatalog
catalog = record {
  folders =
      record {
        key_length = 1;
        key_hash = 7;
        key = codes "k";
        name = codes "My";
        presets = record { index = 0; name = codes "A" } ∷ [];
      }
      ∷ [];
  preset_count = 1;
  folder_overflow_count = 0;
  preset_overflow_count = 0;
  generation = 3;
}

abbrev scratch : List PresetEntry
scratch = new_printer.folder_snapshot

-- A listing of one folder, and the same with a reset before that folder.
printed_listing :
    (print_catalog whole catalog 3 false [] scratch).0
    ≡ totals 1 1 false ∷ folder_line (codes "My") 1 ∷ preset_line 0 (codes "A") ∷ []
unfolding print_catalog print_folders run_ops folder_at copy_preset_entries copied
printed_listing = refl

replaced_listing :
    (print_catalog whole catalog 3 true ((resets ∷ []) ∷ []) scratch).0
    ≡ totals 1 1 true ∷ stopped_early ∷ []
unfolding print_catalog print_folders run_ops reset
replaced_listing = refl

stale_request : (print_catalog whole catalog 2 false [] scratch).0 ≡ reset_before ∷ []
unfolding print_catalog
stale_request = refl

print_catalog-Printed_example :
    (lines : List Line) × ((print_catalog whole catalog 3 false ((resets ∷ []) ∷ []) scratch).0
      ≡ header_lines catalog false ++ lines)
    × Printed whole catalog ((resets ∷ []) ∷ []) 0 catalog.folders lines
print_catalog-Printed_example =
    print_catalog-Printed whole catalog false ((resets ∷ []) ∷ []) scratch (omega arith)
      (omega arith, tt) refl (omega arith, tt)
