-- ===== src/Printer/Listing.antt =====
-- QcPresetPrinter.hpp: what printCatalog logs of a listing that is still filled or replaced meanwhile.
use qcremote.Prelude.{
  ◌==◌, ==_self, Bool-cases, length, take, drop, All, length-append, ℕ, suc, ◌≤◌, ◌<◌, min, ◌≡◌,
  refl, sym, ap, ◌∙◌, inl, inr, Bool, true, false, some, List, [], ◌∷◌, ◌++◌, append_assoc, arith,
}
use qcremote.Printer.Extends.{Extends-self, folder_at-Extends}
use qcremote.Prelude.Text.{EtlString}
use qcremote.Catalog.{Folder, PresetCatalog, PresetEntry, max_presets_per_folder, word_mod}
use qcremote.Printer.Growth.{
  Grown, has_reset, resets_in, IsSmall, folder_at-IsSmall, run_ops-Grown, run_ops-reset,
  Grown-trans,
}
use qcremote.Printer.{
  CatalogOp, Line, copy_preset_entries, entry_lines, first_gap, folder_line, print_folders,
  stopped_early, folder_at, header_lines, print_catalog, run_ops, copied,
}

copied_lem :
    (source dest : List PresetEntry)
    → copied source dest ≡ take (length dest) source ++ drop (length source) dest
unfolding copied
copied_lem [] [] = refl
copied_lem [] (d ∷ dest) = refl
copied_lem (s ∷ source) [] = refl
copied_lem (s ∷ source) (d ∷ dest) = ap (λ t. s ∷ t) (copied_lem source dest)

-- copyPresetEntries copies as many entries as both sides have, and leaves the rest of the array.
pub copy_preset_entries_lem :
    (source dest : List PresetEntry)
    → copy_preset_entries source dest
      ≡ (take (length dest) source ++ drop (length source) dest, min (length source) (length dest))
unfolding copy_preset_entries
copy_preset_entries_lem source dest = rw (copied_lem source dest) refl

-- An array that is large enough takes the whole source.
copied_whole :
    (source dest : List PresetEntry)
    → length source ≤ length dest
    → (take (length source) (copied source dest) ≡ source)
      × (length (copied source dest) ≡ length dest)
unfolding copied
copied_whole [] dest h = (refl, refl)
copied_whole (s ∷ source) [] h = ground arith
copied_whole (s ∷ source) (d ∷ dest) h =
    let (whole, size) = copied_whole source dest (omega arith) in
    (ap (λ t. s ∷ t) whole, ap suc size)

-- The folders of a listing as they are logged, from the folder `i` on, while the catalog `c` goes through
-- the operations of `gaps`: each folder as the catalog has it after the operations before its block,
-- under its name, with all the presets that it then holds, which are those it had at the start and those
-- that it got since; up to the first block before which the catalog was reset.
pub data Printed (etl : EtlString)
    : PresetCatalog → List (List CatalogOp) → ℕ → List Folder → List Line → Type 0 where
  all_printed :
      {c : PresetCatalog} {gaps : List (List CatalogOp)} {i : ℕ} → Printed etl c gaps i [] []
  replaced :
      {c : PresetCatalog} {gaps : List (List CatalogOp)} {i : ℕ} {f : Folder} {fs : List Folder}
      → has_reset (first_gap gaps) ≡ true
      → Printed etl c gaps i (f ∷ fs) (stopped_early ∷ [])
  printed :
      {c : PresetCatalog} {gaps : List (List CatalogOp)} {i : ℕ} {f : Folder} {fs : List Folder}
      {lines : List Line} (g : Folder) (more : List PresetEntry)
      → has_reset (first_gap gaps) ≡ false
      → folder_at i (run_ops etl c (first_gap gaps)).folders ≡ some g
      → g.name ≡ f.name
      → g.presets ≡ f.presets ++ more
      → Printed etl (run_ops etl c (first_gap gaps)) (drop 1 gaps) (suc i) fs lines
      → Printed etl c gaps i
          (f ∷ fs)
          (folder_line g.name (length g.presets) ∷ (entry_lines g.presets ++ lines))

abbrev pub FewResets : List CatalogOp → Type 0
FewResets ops = resets_in ops < word_mod

next_gaps :
    (gaps : List (List CatalogOp))
    → All FewResets gaps
    → FewResets (first_gap gaps) × All FewResets (drop 1 gaps)
next_gaps [] few = (omega arith, tt)
next_gaps (ops ∷ gaps) few = few

-- What is logged of one folder.
folder_lines :
    (g : Folder) (scratch : List PresetEntry) (lines : List Line)
    → length g.presets ≤ length scratch
    → (folder_line g.name (min (length g.presets) (length scratch))
        ∷ (entry_lines (take (min (length g.presets) (length scratch)) (copied g.presets scratch))
            ++ lines))
      ≡ (folder_line g.name (length g.presets) ∷ (entry_lines g.presets ++ lines))
folder_lines g scratch lines fits =
    let least : min (length g.presets) (length scratch) ≡ length g.presets = omega arith in
    rw (least, (copied_whole g.presets scratch fits).0) refl

module _ (etl : EtlString) (c₀ : PresetCatalog) (small_generation : c₀.generation < word_mod) where
  print_folders-Printed :
      (done fs : List Folder) (i : ℕ) (c : PresetCatalog) (gaps : List (List CatalogOp))
      (scratch : List PresetEntry)
      → c₀.folders ≡ done ++ fs
      → i ≡ length done
      → Grown c₀ c
      → length scratch ≡ max_presets_per_folder
      → All FewResets gaps
      → Printed etl c gaps i fs (print_folders etl (length fs) i c₀.generation c gaps scratch).0
  unfolding print_folders copy_preset_entries
  print_folders-Printed done [] i c gaps scratch e at grown size few = all_printed
  print_folders-Printed done (f ∷ fs) i c gaps scratch e at grown size few =
      elim (Bool-cases (has_reset (first_gap gaps))) [
        | inl gone ↦
            let other : ((run_ops etl c (first_gap gaps)).generation == c₀.generation) ≡ false =
              rw (← grown.same_generation) (
                run_ops-reset etl c (first_gap gaps) (rw grown.same_generation small_generation)
                  (next_gaps gaps few).0 gone) in
            rw other (replaced gone)
        | inr kept ↦
            let d = run_ops etl c (first_gap gaps) in
            let now : Grown c₀ d =
              Grown-trans grown (run_ops-Grown etl c (first_gap gaps) grown.small kept) in
            let same : (d.generation == c₀.generation) ≡ true =
              rw now.same_generation (==_self c₀.generation) in
            let (g, more, there, n, p) = folder_at-Extends done f fs (rw e at now.extends) in
            let found : folder_at i d.folders ≡ some g = rw at there in
            let fits : length g.presets ≤ length scratch =
              rw size (folder_at-IsSmall i d.folders g found now.small) in
            rw (same, found, folder_lines g scratch _ fits)
              (printed g more kept found n p (
                print_folders-Printed (done ++ f ∷ []) fs (suc i) d (drop 1 gaps)
                  (copied g.presets scratch) (e ∙ sym (append_assoc done (f ∷ []) fs))
                  (omega (arith, length-append done (f ∷ []))) now
                  ((copied_whole g.presets scratch fits).1 ∙ size) (next_gaps gaps few).1))
      ]

-- A request for the catalog's present generation, printed while the catalog takes more presets or is
-- reset in between, at most 2^32 - 1 times between two blocks: the head has the totals of the catalog
-- at the first block, and then come its folders, in order, each as the catalog has it at that folder's
-- block: under its name, with exactly the presets that it holds then, which are those it held at the
-- first block and those added since. If the catalog is reset before one of the blocks, the listing ends
-- there and says so, and no folder of the new listing is logged; else every folder is there.
pub print_catalog-Printed :
    (etl : EtlString) (c : PresetCatalog) (incomplete : Bool) (gaps : List (List CatalogOp))
    (scratch : List PresetEntry)
    → c.generation < word_mod
    → IsSmall c.folders
    → length scratch ≡ max_presets_per_folder
    → All FewResets gaps
    → (lines : List Line) × ((print_catalog etl c c.generation incomplete gaps scratch).0
        ≡ header_lines c incomplete ++ lines)
      × Printed etl c gaps 0 c.folders lines
unfolding print_catalog
print_catalog-Printed etl c incomplete gaps scratch h small size few = (
  (print_folders etl (length c.folders) 0 c.generation c gaps scratch).0,
  rw (==_self c.generation) refl,
  print_folders-Printed etl c h [] c.folders 0 c gaps scratch refl refl
      (record { same_generation = refl; extends = Extends-self c.folders; small = small }) size few,
)
