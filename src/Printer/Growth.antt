-- ===== src/Printer/Growth.antt =====
-- QcPresetCatalog.hpp as QcPresetPrinter.hpp sees it: without a reset the listing only grows, and with
-- one it has another generation.
use qcremote.Prelude.{
  leb, ◌==◌, Bool-cases, Option-cases, length, is_empty, All, length-append, All-append, ℕ, zero,
  suc, ◌+◌, ◌%◌, ◌≤◌, ◌<◌, ◌≡◌, refl, ◌∙◌, inl, inr, Bool, true, false, Option, none, some, List,
  [], ◌∷◌, ◌++◌, arith,
}
use qcremote.Printer.Extends.{
  Extends, Extends-append, Extends-self, Extends-trans, Extends-update_slot,
}
use qcremote.Printer.{folder_at, CatalogOp, run_ops, adds, resets}
use qcremote.Messages.File.{FilePreset}
use qcremote.Prelude.Text.{EtlString}
use qcremote.Catalog.{
  new_entry, Folder, PresetCatalog, PresetEntry, add_folder, add_preset, add_to_new, find_folder,
  max_presets_per_folder, new_folder, slot_presets, store_preset, update_slot, word_mod, reset,
}

abbrev pub IsSmall : List Folder → Type 0
IsSmall fs = All (λ f. length f.presets ≤ max_presets_per_folder) fs

update_slot-IsSmall :
    (i : ℕ) (e : PresetEntry) (fs : List Folder)
    → length (slot_presets i fs) < max_presets_per_folder
    → IsSmall fs
    → IsSmall (update_slot i (λ f. record f { presets = f.presets ++ e ∷ [] }) fs)
unfolding update_slot slot_presets
update_slot-IsSmall i e [] h s = tt
update_slot-IsSmall zero e (f ∷ fs) h s = (omega (arith, length-append f.presets (e ∷ [])), s.1)
update_slot-IsSmall (suc i) e (f ∷ fs) h s = (s.0, update_slot-IsSmall i e fs h s.1)

pub folder_at-IsSmall :
    (i : ℕ) (fs : List Folder) (g : Folder)
    → folder_at i fs ≡ some g
    → IsSmall fs
    → length g.presets ≤ max_presets_per_folder
unfolding folder_at
folder_at-IsSmall i [] g e s = ground arith
folder_at-IsSmall zero (f ∷ fs) g e s = let same : f ≡ g = cc in rw (← same) s.0
folder_at-IsSmall (suc i) (f ∷ fs) g e s = folder_at-IsSmall i fs g e s.1

-- What stays through calls of addPreset.
pub record Grown (c d : PresetCatalog) : Type 0 where
  pub same_generation : d.generation ≡ c.generation
  pub extends : Extends c.folders d.folders
  pub small : IsSmall d.folders

abbrev pub has_reset : List CatalogOp → Bool
has_reset [] = false
has_reset (adds p ∷ ops) = has_reset ops
has_reset (resets ∷ ops) = true

abbrev pub resets_in : List CatalogOp → ℕ
resets_in [] = 0
resets_in (adds p ∷ ops) = resets_in ops
resets_in (resets ∷ ops) = suc (resets_in ops)

pub Grown-trans : {c d e : PresetCatalog} → Grown c d → Grown d e → Grown c e
Grown-trans g h = record {
  same_generation = h.same_generation ∙ g.same_generation;
  extends = Extends-trans g.extends h.extends;
  small = h.small;
}

has_reset_pos : (ops : List CatalogOp) → has_reset ops ≡ true → 0 < resets_in ops
has_reset_pos [] h = ground arith
has_reset_pos (adds p ∷ ops) h = has_reset_pos ops h
has_reset_pos (resets ∷ ops) h = omega arith

module _ (etl : EtlString) where
  store_preset-Grown :
      (c d : PresetCatalog) (p : FilePreset) (slot : Option ℕ)
      → Grown c d
      → Grown c (store_preset etl d p slot)
  unfolding store_preset
  store_preset-Grown c d p none g = g
  store_preset-Grown c d p (some i) g =
      elim (Bool-cases (leb 64 (length (slot_presets i d.folders)))) [
        | inl full ↦
            rw full
              (record { same_generation = g.same_generation; extends = g.extends; small = g.small })
        | inr room ↦ rw room (record {
          same_generation = g.same_generation;
          extends = Extends-trans g.extends (Extends-update_slot i (new_entry etl p) d.folders);
          small = update_slot-IsSmall i (new_entry etl p) d.folders (ground arith) g.small;
        })
      ]

  add_preset-Grown :
      (c : PresetCatalog) (p : FilePreset) → IsSmall c.folders → Grown c (add_preset etl c p)
  unfolding add_preset add_to_new add_folder
  add_preset-Grown c p s =
      let same : Grown c c = record {
        same_generation = refl;
        extends = Extends-self c.folders;
        small = s;
      } in
      elim (Bool-cases (is_empty p.preset_name)) [
        | inl unnamed ↦ rw unnamed same
        | inr named ↦ elim (Option-cases (find_folder c p.folder_key)) [
          | inr (i, found) ↦ rw (named, found) (store_preset-Grown c c p (some i) same)
          | inl missing ↦ elim (Bool-cases (leb 8 (length c.folders))) [
            | inl full ↦
                rw (named, missing, full)
                  (store_preset-Grown c _ p none (record {
                    same_generation = refl;
                    extends = Extends-self c.folders;
                    small = s;
                  }))
            | inr free ↦
                rw (named, missing, free)
                  (store_preset-Grown c _ p (some (length c.folders)) (record {
                    same_generation = refl;
                    extends = Extends-append c.folders (new_folder etl p);
                    small =
                        All-append _ c.folders (new_folder etl p ∷ []) s
                          (unfold new_folder in omega arith, tt);
                  }))
          ]
        ]
      ]

  generation-add_preset :
      (c : PresetCatalog) (p : FilePreset) → (add_preset etl c p).generation ≡ c.generation
  unfolding add_preset add_to_new add_folder store_preset
  generation-add_preset c p = ground arith

  generation-reset : (c : PresetCatalog) → (reset c).generation ≡ (c.generation + 1) % word_mod
  unfolding reset
  generation-reset c = refl

  -- Without a reset.
  pub run_ops-Grown :
      (c : PresetCatalog) (ops : List CatalogOp)
      → IsSmall c.folders
      → has_reset ops ≡ false
      → Grown c (run_ops etl c ops)
  unfolding run_ops
  run_ops-Grown c [] s h = record {
    same_generation = refl;
    extends = Extends-self c.folders;
    small = s;
  }
  run_ops-Grown c (adds p ∷ ops) s h =
      let g = add_preset-Grown c p s in
      Grown-trans g (run_ops-Grown (add_preset etl c p) ops g.small h)
  run_ops-Grown c (resets ∷ ops) s h = ground arith

  generation-run_ops :
      (c : PresetCatalog) (ops : List CatalogOp)
      → c.generation < word_mod
      → (run_ops etl c ops).generation ≡ (c.generation + resets_in ops) % word_mod
  unfolding run_ops
  generation-run_ops c [] h = omega arith
  generation-run_ops c (adds p ∷ ops) h =
      let e = generation-add_preset c p in
      generation-run_ops (add_preset etl c p) ops (rw e h) ∙ rw e refl
  generation-run_ops c (resets ∷ ops) h =
      omega
        (arith, generation-run_ops (reset c) ops (unfold reset in omega arith), generation-reset c)

  -- With one, the generation is another: it takes 2^32 resets to come back to it.
  pub run_ops-reset :
      (c : PresetCatalog) (ops : List CatalogOp)
      → c.generation < word_mod
      → resets_in ops < word_mod
      → has_reset ops ≡ true
      → ((run_ops etl c ops).generation == c.generation) ≡ false
  run_ops-reset c ops h few r =
      rw (generation-run_ops c ops h) (ground (arith, has_reset_pos ops r))
