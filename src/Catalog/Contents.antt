-- ===== src/Catalog/Contents.antt =====
-- A whole stream of presets: every named one is accounted for, and a catalog that did not overflow
-- holds, folder by folder, the named presets in the order in which they came.
use qcremote.Prelude.{
  if◌then◌else◌, Bool-cases, length, is_empty, keep, length-append, ℕ, ◌+◌, ◌^◌, ◌≤◌, ◌<◌, ◌≡◌,
  refl, sym, ap, ap₂, ◌∙◌, ◌⊎◌, inl, inr, Bool, false, not, ◌&&◌, List, [], ◌∷◌, ◌++◌, map,
  append-nil, append_assoc, arith,
}
use mathlib.Core.List.{map-append}
use qcremote.Prelude.Text.{EtlString}
use qcremote.Messages.File.{FilePreset}
use qcremote.Catalog.{
  PresetCatalog, word_mod, reset, overflowed, new_entry, add_preset, add_presets, key_size, fnv1a64,
}
use qcremote.Catalog.Lookup.{stored}
use qcremote.Catalog.Steps.{held, held_by, id_of_key, add_preset-Outcome}

abbrev pub is_named : FilePreset → Bool
is_named p = not (is_empty p.preset_name)

-- The named presets of the folder with this identity.
abbrev pub belongs : ℕ → ℕ → FilePreset → Bool
belongs len hash p = is_named p && id_of_key p.folder_key len hash

abbrev pub accounted : PresetCatalog → ℕ
accounted c = c.preset_count + c.folder_overflow_count + c.preset_overflow_count

module _ (etl : EtlString) where
  -- From `c` to `c'` by these presets, with counters that do not wrap.
  record Counted (c : PresetCatalog) (ps : List FilePreset) (c' : PresetCatalog) : Type 0 where
    sum : accounted c' ≡ accounted c + length (keep is_named ps)
    folders_up : c.folder_overflow_count ≤ c'.folder_overflow_count
    presets_up : c.preset_overflow_count ≤ c'.preset_overflow_count
    -- Either an overflow counter went up, or the named presets are held.
    exact :
        (c.folder_overflow_count + c.preset_overflow_count
          < c'.folder_overflow_count + c'.preset_overflow_count)
        ⊎ ((len hash : ℕ)
            → held c' len hash
              ≡ held c len hash ++ map (new_entry etl) (keep (belongs len hash) ps))

  -- An update of the slot adds the preset to its own folder and to no other.
  joins :
      (c : PresetCatalog) (p : FilePreset) (len hash : ℕ)
      → (if id_of_key p.folder_key len hash
          then held_by c p ++ new_entry etl p ∷ []
          else held c len hash)
        ≡ held c len hash
          ++ map (new_entry etl) (if id_of_key p.folder_key len hash then p ∷ [] else [])
  joins c p len hash = elim (Bool-cases (id_of_key p.folder_key len hash)) [
    | inl own ↦
        let l : key_size p.folder_key ≡ len = ground arith in
        let k : fnv1a64 p.folder_key ≡ hash = ground arith in
        rw own (ap₂ (λ a b. held c a b ++ new_entry etl p ∷ []) l k)
    | inr other ↦ rw other (sym (append-nil (held c len hash)))
  ]

  add_preset-Counted :
      (c : PresetCatalog) (p : FilePreset)
      → accounted c + 1 < word_mod
      → Counted c (p ∷ []) (add_preset etl c p)
  add_preset-Counted c p h = elim (add_preset-Outcome etl c p) [
    | inl (unnamed, e) ↦ rw e (record {
      sum = rw unnamed (omega arith);
      folders_up = omega arith;
      presets_up = omega arith;
      exact = inr (λ len hash. rw unnamed (sym (append-nil (held c len hash))));
    })
    | inr (named, inl k) ↦ record {
      sum = rw named (omega (arith, k.counted, k.no_folder_overflow, k.no_preset_overflow));
      folders_up = omega (arith, k.no_folder_overflow);
      presets_up = omega (arith, k.no_preset_overflow);
      exact = inr (λ len hash. k.stores len hash ∙ rw named (joins c p len hash));
    }
    | inr (named, inr r) ↦ record {
      sum = rw named (ground (arith, r.counted, r.count_same));
      folders_up = ground (arith, r.counted);
      presets_up = ground (arith, r.counted);
      exact = inl (ground (arith, r.counted));
    }
  ]

  keep-cons :
      (test : FilePreset → Bool) (p : FilePreset) (ps : List FilePreset)
      → keep test (p ∷ ps) ≡ keep test (p ∷ []) ++ keep test ps
  keep-cons test p ps = ground arith

  held_more :
      (c d c' : PresetCatalog) (p : FilePreset) (ps : List FilePreset) (len hash : ℕ)
      → held d len hash ≡ held c len hash ++ map (new_entry etl) (keep (belongs len hash) (p ∷ []))
      → held c' len hash ≡ held d len hash ++ map (new_entry etl) (keep (belongs len hash) ps)
      → held c' len hash ≡ held c len hash ++ map (new_entry etl) (keep (belongs len hash) (p ∷ ps))
  held_more c d c' p ps len hash one more =
      more
      ∙ ap (λ t. t ++ map (new_entry etl) (keep (belongs len hash) ps)) one
      ∙ append_assoc (held c len hash) _ _
      ∙ ap (λ t. held c len hash ++ t)
          (sym (map-append (new_entry etl) (keep (belongs len hash) (p ∷ [])) _)
            ∙ ap (map (new_entry etl)) (sym (keep-cons (belongs len hash) p ps)))

  then_more :
      (c : PresetCatalog) (p : FilePreset) (ps : List FilePreset) (d c' : PresetCatalog)
      → Counted c (p ∷ []) d
      → Counted d ps c'
      → Counted c (p ∷ ps) c'
  then_more c p ps d c' one more = record {
    sum = omega (
      arith,
      one.sum,
      more.sum,
      ap length (keep-cons is_named p ps),
      length-append (keep is_named (p ∷ [])) (keep is_named ps),
    );
    folders_up = omega (arith, one.folders_up, more.folders_up);
    presets_up = omega (arith, one.presets_up, more.presets_up);
    exact = elim one.exact [
      | inl up ↦ inl (omega (arith, up, more.folders_up, more.presets_up))
      | inr held_one ↦ elim more.exact [
        | inl up ↦ inl (omega (arith, up, one.folders_up, one.presets_up))
        | inr held_rest ↦
            inr
              (λ len hash. held_more c d c' p ps len hash (held_one len hash) (held_rest len hash))
      ]
    ];
  }

  add_presets-Counted :
      (c : PresetCatalog) (ps : List FilePreset)
      → accounted c + length ps < word_mod
      → Counted c ps (add_presets etl c ps)
  unfolding add_presets
  add_presets-Counted c [] h = record {
    sum = omega arith;
    folders_up = omega arith;
    presets_up = omega arith;
    exact = inr (λ len hash. sym (append-nil (held c len hash)));
  }
  add_presets-Counted c (p ∷ ps) h =
      let one = add_preset-Counted c p (omega arith) in
      let named_one : length (keep is_named (p ∷ [])) ≤ 1 = ground arith in
      then_more c p ps (add_preset etl c p) (add_presets etl (add_preset etl c p) ps) one
        (add_presets-Counted (add_preset etl c p) ps (omega (arith, one.sum)))

-- Every named preset of a stream of fewer than 2^32 is accounted for, in a catalog that was reset: it
-- is counted as kept, or as one that had no slot or no room.
pub all_accounted :
    (etl : EtlString) (c : PresetCatalog) (ps : List FilePreset)
    → length ps < 2 ^ 32
    → accounted (add_presets etl (reset c) ps) ≡ length (keep is_named ps)
unfolding reset
all_accounted etl c ps h =
    omega (arith, (add_presets-Counted etl (reset c) ps (omega (arith, h))).sum)

-- A catalog that was reset, took a stream of fewer than 2^32 presets and does not say that it
-- overflowed holds all of it: for each folder identity, the entries of the named presets of that
-- folder, in the order of the stream.
pub complete_contents :
    (etl : EtlString) (c : PresetCatalog) (ps : List FilePreset) (len hash : ℕ)
    → length ps < 2 ^ 32
    → overflowed (add_presets etl (reset c) ps) ≡ false
    → held (add_presets etl (reset c) ps) len hash
      ≡ map (new_entry etl) (keep (belongs len hash) ps)
unfolding reset overflowed
complete_contents etl c ps len hash h o =
    elim (add_presets-Counted etl (reset c) ps (omega (arith, h))).exact [
      | inl up ↦ absurd (ground arith)
      | inr all ↦ all len hash ∙ unfold stored in refl
    ]
