-- ===== src/Json/Parts.antt =====
-- The parts of the document that encodeCatalogJson appends in one go, each whole where it has room.
use qcremote.Prelude.{
  if◌then◌else◌, length, length-append, ℕ, ◌+◌, ◌%◌, ◌^◌, ◌≤◌, ◌≡◌, refl, sym, ap, ◌∙◌, Bool, true,
  false, List, [], ◌++◌, append-nil, append_assoc, arith,
}
use qcremote.Prelude.Text.{codes}
use qcremote.Catalog.{PresetEntry}
use qcremote.Catalog.Snapshot.{FolderEntry, QcCatalogSnapshot}
use qcremote.Json.{append_comma, append_preset, open_folder, append_header, append_end}
use qcremote.Json.Append.{
  quoted, decimal, length-decimal, length-quoted, append_literal_lem, append_quoted_lem,
  append_uint_lem,
}
use qcremote.Json.Rendering.{preset_text, comma, opening_text, header_text, end_text}

module _ (cap : ℕ) where
  pub preset_written :
      (out : List ℕ) (p : PresetEntry)
      → length p.name ≤ 32
      → length out + 94 ≤ cap
      → (append_preset cap out p ≡ out ++ preset_text p) × (length (preset_text p) ≤ 94)
  unfolding append_preset
  preset_written out p short h =
      let a = codes "{\"index\":" in
      let b = decimal p.index in
      let c = codes ",\"name\":" in
      let d = quoted p.name in
      let sb : length b ≤ 10 = length-decimal p.index in
      let sd : length d ≤ 66 = omega (arith, length-quoted p.name) in
      let l1 = length-append out a in
      let l2 = length-append (out ++ a) b in
      let l3 = length-append ((out ++ a) ++ b) c in
      let l4 = length-append (((out ++ a) ++ b) ++ c) d in
      (
        rw
            (
              append_literal_lem cap out a (omega arith),
              append_uint_lem cap (out ++ a) p.index (omega arith),
              append_literal_lem cap ((out ++ a) ++ b) c (omega arith),
              append_quoted_lem cap (((out ++ a) ++ b) ++ c) p.name (omega arith),
              append_literal_lem cap ((((out ++ a) ++ b) ++ c) ++ d) (codes "}") (omega arith),
            )
            (simp append_assoc),
        omega (
          arith,
          length-append a b,
          length-append (a ++ b) c,
          length-append ((a ++ b) ++ c) d,
          length-append (((a ++ b) ++ c) ++ d) (codes "}"),
        ),
      )

  pub opening_written :
      (out : List ℕ) (f : FolderEntry)
      → length f.name ≤ 32
      → length out + 86 ≤ cap
      → (open_folder cap out f ≡ out ++ opening_text f) × (length (opening_text f) ≤ 86)
  unfolding open_folder
  opening_written out f short h =
      let a = codes "{\"name\":" in
      let b = quoted f.name in
      let c = codes ",\"presets\":[" in
      let sb : length b ≤ 66 = omega (arith, length-quoted f.name) in
      let l1 = length-append out a in
      let l2 = length-append (out ++ a) b in
      (
        rw
            (
              append_literal_lem cap out a (omega arith),
              append_quoted_lem cap (out ++ a) f.name (omega arith),
              append_literal_lem cap ((out ++ a) ++ b) c (omega arith),
            )
            (simp append_assoc),
        omega (arith, length-append a b, length-append (a ++ b) c),
      )

  pub comma_written :
      (out : List ℕ) (is_first : Bool)
      → length out + 1 ≤ cap
      → (append_comma cap out is_first ≡ out ++ comma is_first) × (length (comma is_first) ≤ 1)
  comma_written out true h = (sym (append-nil out), omega arith)
  comma_written out false h = (append_literal_lem cap out (codes ",") h, omega arith)

  pub header_written :
      (s : QcCatalogSnapshot)
      → 84 ≤ cap
      → (append_header cap s ≡ header_text s) × (length (header_text s) ≤ 63)
  unfolding append_header
  header_written s h =
      let a = codes "{\"generation\":" in
      let b = decimal s.generation in
      let c = codes ",\"presetCount\":" in
      let d = decimal (s.preset_count % 2 ^ 32) in
      let e = codes ",\"folders\":[" in
      let sb : length b ≤ 10 = length-decimal s.generation in
      let sd : length d ≤ 10 = length-decimal (s.preset_count % 2 ^ 32) in
      let l2 = length-append a b in
      let l3 = length-append (a ++ b) c in
      let l4 = length-append ((a ++ b) ++ c) d in
      let l5 = length-append (((a ++ b) ++ c) ++ d) e in
      (
        rw
            (
              append_literal_lem cap [] a (omega arith),
              append_uint_lem cap a s.generation (omega arith),
              append_literal_lem cap (a ++ b) c (omega arith),
              append_uint_lem cap ((a ++ b) ++ c) (s.preset_count % 2 ^ 32) (omega arith),
              append_literal_lem cap (((a ++ b) ++ c) ++ d) e (omega arith),
            )
            refl,
        omega arith,
      )

  pub end_written :
      (out : List ℕ) (incomplete : Bool)
      → length out + 21 ≤ cap
      → append_end cap out incomplete ≡ out ++ end_text incomplete
  unfolding append_end
  end_written out incomplete h =
      let a = codes "],\"incomplete\":" in
      let b = if incomplete then codes "true" else codes "false" in
      let sb : length b ≤ 5 = size incomplete in
      let l1 = length-append out a in
      let l2 = length-append (out ++ a) b in
      rw
        (
          append_literal_lem cap out a (omega arith),
          append_literal_lem cap (out ++ a) b (omega arith),
          append_literal_lem cap ((out ++ a) ++ b) (codes "}") (omega arith),
        )
        (ap (λ t. t ++ codes "}") (append_assoc out a b) ∙ append_assoc out (a ++ b) (codes "}"))
    where
      size : (i : Bool) → length (if i then codes "true" else codes "false") ≤ 5
      size true = omega arith
      size false = omega arith
