-- ===== src/Catalog/Steps.antt =====
-- One call of addPreset: the preset is ignored, kept or counted as rejected.
use qcremote.Prelude.{
  leb, if◌then◌else◌, ==_self, Bool-cases, Option-cases, length, is_empty, ℕ, ◌+◌, ◌%◌, ◌≤◌, ◌<◌,
  ◌≡◌, refl, ap, ◌∙◌, ◌⊎◌, inl, inr, Bool, true, false, none, some, List, [], ◌∷◌, ◌++◌, arith,
}
use qcremote.Prelude.Text.{EtlString}
use qcremote.Messages.File.{FilePreset}
use qcremote.Catalog.{
  max_folders, max_presets_per_folder, PresetEntry, PresetCatalog, word_mod, has_id, find_slot,
  find_folder, key_size, fnv1a64, slot_presets, new_folder, add_folder, new_entry, store_preset,
  add_to_new, add_preset,
}
use qcremote.Catalog.Lookup.{
  slot_presets-append, not_found-stored, stored, same_id, found-slot_presets, stored-update_slot,
  stored-append, find_slot-append,
}

-- The presets that the catalog holds for a folder key.
abbrev pub held : PresetCatalog → ℕ → ℕ → List PresetEntry
held c len hash = stored len hash c.folders

abbrev pub id_of_key : List ℕ → ℕ → ℕ → Bool
id_of_key key = same_id (key_size key) (fnv1a64 key)

-- The presets that the catalog holds for the folder of this one.
abbrev pub held_by : PresetCatalog → FilePreset → List PresetEntry
held_by c p = held c (key_size p.folder_key) (fnv1a64 p.folder_key)

module _ (etl : EtlString) (c : PresetCatalog) (p : FilePreset) where
  -- Nothing is rejected, and every folder has what it had, the preset's own with the preset behind.
  pub record Kept (c' : PresetCatalog) : Type 0 where
    pub slot_free : find_folder c p.folder_key ≡ none → length c.folders < max_folders
    pub room : length (held_by c p) < max_presets_per_folder
    pub counted : c'.preset_count ≡ (c.preset_count + 1) % word_mod
    pub no_folder_overflow : c'.folder_overflow_count ≡ c.folder_overflow_count
    pub no_preset_overflow : c'.preset_overflow_count ≡ c.preset_overflow_count
    pub stores :
        (len hash : ℕ)
        → held c' len hash ≡ (
            if id_of_key p.folder_key len hash
            then held_by c p ++ new_entry etl p ∷ []
            else held c len hash)

  pub record Rejected (c' : PresetCatalog) : Type 0 where
    pub folders_same : c'.folders ≡ c.folders
    pub count_same : c'.preset_count ≡ c.preset_count
    pub counted :
        ((find_folder c p.folder_key ≡ none)
          × (max_folders ≤ length c.folders)
          × (c'.folder_overflow_count ≡ (c.folder_overflow_count + 1) % word_mod)
          × (c'.preset_overflow_count ≡ c.preset_overflow_count))
        ⊎ ((max_presets_per_folder ≤ length (held_by c p))
            × (c'.folder_overflow_count ≡ c.folder_overflow_count)
            × (c'.preset_overflow_count ≡ (c.preset_overflow_count + 1) % word_mod))

  abbrev pub Outcome : PresetCatalog → Type 0
  Outcome c' = (Kept c') ⊎ (Rejected c')

module _ (etl : EtlString) (p : FilePreset) where
  -- Storing into a slot that the search finds, in a catalog that holds what `c` held.
  store_found :
      (c d : PresetCatalog) (i : ℕ)
      → find_slot (key_size p.folder_key) (fnv1a64 p.folder_key) d.folders ≡ some i
      → ((len hash : ℕ) → held d len hash ≡ held c len hash)
      → d.preset_count ≡ c.preset_count
      → d.folder_overflow_count ≡ c.folder_overflow_count
      → d.preset_overflow_count ≡ c.preset_overflow_count
      → leb 64 (length (slot_presets i d.folders)) ≡ false
      → (find_folder c p.folder_key ≡ none → length c.folders < max_folders)
      → length (held_by c p) < max_presets_per_folder
      → Kept etl c p (store_preset etl d p (some i))
  unfolding store_preset
  store_found c d i found same n o q room free less = record {
    slot_free = free;
    room = less;
    counted = rw room (ap (λ t. (t + 1) % word_mod) n);
    no_folder_overflow = rw room o;
    no_preset_overflow = rw room q;
    stores = λ len hash. rw room (
        stored-update_slot (key_size p.folder_key) (fnv1a64 p.folder_key) len hash (new_entry etl p)
          d.folders i found
        ∙ rw (same len hash, same (key_size p.folder_key) (fnv1a64 p.folder_key)) refl);
  }

  store_full :
      (c : PresetCatalog) (i : ℕ)
      → leb 64 (length (slot_presets i c.folders)) ≡ true
      → max_presets_per_folder ≤ length (held_by c p)
      → Rejected etl c p (store_preset etl c p (some i))
  unfolding store_preset
  store_full c i full more = record {
    folders_same = rw full refl;
    count_same = rw full refl;
    counted = inr (more, rw full refl, rw full refl);
  }

  new_folder-has_id :
      has_id (key_size p.folder_key) (fnv1a64 p.folder_key) (new_folder etl p) ≡ true
  unfolding new_folder
  new_folder-has_id = rw (==_self (key_size p.folder_key), ==_self (fnv1a64 p.folder_key)) refl

  new_folder-presets : (new_folder etl p).presets ≡ []
  unfolding new_folder
  new_folder-presets = refl

  store_new :
      (c : PresetCatalog)
      → find_folder c p.folder_key ≡ none
      → Outcome etl c p (add_to_new etl (add_folder etl c p) p)
  unfolding add_folder add_to_new find_folder
  store_new c missing = elim (Bool-cases (leb 8 (length c.folders))) [
    | inl full ↦ rw full (
        inr (
          unfold store_preset in
          record {
            folders_same = refl;
            count_same = refl;
            counted = inl (missing, ground arith, refl, refl);
          }))
    | inr room ↦
        let d : PresetCatalog = record c { folders = c.folders ++ new_folder etl p ∷ [] } in
        let found : find_slot (key_size p.folder_key) (fnv1a64 p.folder_key) d.folders
            ≡ some (length c.folders) =
          find_slot-append _ _ c.folders (new_folder etl p) missing new_folder-has_id in
        let fresh : slot_presets (length c.folders) d.folders ≡ [] =
          slot_presets-append c.folders (new_folder etl p) ∙ new_folder-presets in
        let none_yet : held_by c p ≡ [] = not_found-stored _ _ c.folders missing in
        rw room (
          inl (
            store_found c d (length c.folders) found
              (λ len hash. stored-append len hash c.folders (new_folder etl p) new_folder-presets)
              refl refl refl (rw fresh refl) (λ e. ground arith) (rw none_yet (omega arith))))
  ]

  store_old :
      (c : PresetCatalog) (i : ℕ)
      → find_folder c p.folder_key ≡ some i
      → Outcome etl c p (store_preset etl c p (some i))
  store_old c i found =
      let at : slot_presets i c.folders ≡ held_by c p =
        found-slot_presets (key_size p.folder_key) (fnv1a64 p.folder_key) c.folders i
          (unfold find_folder in found) in
      elim (Bool-cases (leb 64 (length (slot_presets i c.folders)))) [
        | inl full ↦ inr (store_full c i full (rw (← at) (ground arith)))
        | inr room ↦ inl (
            store_found c c i (unfold find_folder in found) (λ len hash. refl) refl refl refl room
              (λ e. cc) (rw (← at) (ground arith)))
      ]

-- A preset without a name changes nothing. A named one is kept, or rejected. It is kept as the last
-- preset of its folder, where the folder holds fewer than 64 and is known or one of 8 slots is free;
-- every other folder holds what it held, and the overflow counters stand. It is rejected where its
-- folder is new and no slot is free, or holds 64: then the catalog holds what it held, and the
-- counter of that case goes up by one. Folders are told apart by their keys' length and hash.
pub add_preset-Outcome :
    (etl : EtlString) (c : PresetCatalog) (p : FilePreset)
    → ((is_empty p.preset_name ≡ true) × (add_preset etl c p ≡ c))
      ⊎ ((is_empty p.preset_name ≡ false) × (Outcome etl c p (add_preset etl c p)))
unfolding add_preset
add_preset-Outcome etl c p = elim (Bool-cases (is_empty p.preset_name)) [
  | inl unnamed ↦ inl (unnamed, rw unnamed refl)
  | inr named ↦ inr (
    named,
    elim (Option-cases (find_folder c p.folder_key)) [
      | inl missing ↦ rw (named, missing, add_preset) (store_new etl p c missing)
      | inr (i, found) ↦ rw (named, found, add_preset) (store_old etl p c i found)
    ],
  )
]
