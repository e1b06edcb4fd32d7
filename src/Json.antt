-- ===== src/Json.antt =====
-- QcCatalogJson.hpp: the snapshot as a JSON text, in a buffer of fixed capacity.
pub mod Append
pub mod Rendering
pub mod Parts
pub mod Document
pub mod Strings
mod Tests
use qcremote.Prelude.{
  ltb, leb, ◌==◌, if◌then◌else◌, length, ℕ, zero, suc, ◌+◌, ◌/◌, ◌%◌, ◌^◌, Bool, true, false, ◌&&◌,
  ◌||◌, List, [], ◌∷◌, ◌++◌,
}
use qcremote.Prelude.Text.{codes}
use qcremote.Catalog.{PresetEntry}
use qcremote.Catalog.Snapshot.{FolderEntry, QcCatalogSnapshot}

abbrev pub reserve : ℕ
reserve = 160 + 23

-- The digits, lowest first; a 32-bit number has ten at most.
unfoldable pub digits : ℕ → ℕ → List ℕ
digits zero value = []
digits (suc room) value =
    let rest = digits room (value / 10) in
    (48 + value % 10) ∷ (if value / 10 == 0 then [] else rest)

unfoldable pub reverse_onto : List ℕ → List ℕ → List ℕ
reverse_onto [] out = out
reverse_onto (d ∷ ds) out = reverse_onto ds (d ∷ out)

-- What a character is written as.
unfoldable pub escape : ℕ → List ℕ
escape c =
    if c == 34
    then 92 ∷ 34 ∷ []
    else if c == 92
    then 92 ∷ 92 ∷ []
    else if c == 10
    then 92 ∷ 110 ∷ []
    else if ltb c 0x20
    then []
    else c ∷ []

module _ (capacity : ℕ) where
  abbrev pub is_full : List ℕ → Bool
  is_full out = leb capacity (length out)

  unfoldable pub append_literal : List ℕ → List ℕ → List ℕ
  append_literal out [] = out
  append_literal out (c ∷ text) =
      let rest = append_literal (out ++ c ∷ []) text in if is_full out then out else rest

  -- The pairs are guarded by a test for two characters of room.
  unfoldable pub append_json_escaped : List ℕ → List ℕ → List ℕ
  append_json_escaped out [] = out
  append_json_escaped out (c ∷ text) =
      let rest = append_json_escaped (out ++ escape c) text in
      if is_full out
      then out
      else if leb 2 (length (escape c)) && ltb capacity (length out + 2)
      then out
      else rest

  unfoldable pub append_char : List ℕ → ℕ → List ℕ
  append_char out c = if is_full out then out else out ++ c ∷ []

  unfoldable pub append_quoted : List ℕ → List ℕ → List ℕ
  append_quoted out text = append_char (append_json_escaped (append_char out 34) text) 34

  unfoldable pub append_uint : List ℕ → ℕ → List ℕ
  append_uint out value = append_literal out (reverse_onto (digits 10 value) [])

  abbrev pub room_for : ℕ → Bool
  room_for already = leb (already + reserve) capacity

  abbrev pub append_comma : List ℕ → Bool → List ℕ
  append_comma out is_first = if is_first then out else append_literal out (codes ",")

  unfoldable pub append_preset : List ℕ → PresetEntry → List ℕ
  append_preset out p =
      append_literal
        (append_quoted
          (append_literal (append_uint (append_literal out (codes "{\"index\":")) p.index)
            (codes ",\"name\":"))
          p.name)
        (codes "}")

  -- The inner loop: the buffer, and whether it stopped early.
  unfoldable pub encode_presets : List ℕ → Bool → List PresetEntry → List ℕ × Bool
  encode_presets out is_first [] = (out, false)
  encode_presets out is_first (p ∷ ps) =
      let rest = encode_presets (append_preset (append_comma out is_first) p) false ps in
      if room_for (length out) then rest else (out, true)

  unfoldable pub open_folder : List ℕ → FolderEntry → List ℕ
  open_folder out f =
      append_literal (append_quoted (append_literal out (codes "{\"name\":")) f.name)
        (codes ",\"presets\":[")

  unfoldable pub encode_folders : List ℕ → Bool → List FolderEntry → List ℕ × Bool
  encode_folders out is_first [] = (out, false)
  encode_folders out is_first (f ∷ fs) =
      let (inner, truncated) =
        encode_presets (open_folder (append_comma out is_first) f) true f.presets in
      let closed = append_literal inner (codes "]}") in
      let rest = encode_folders closed false fs in
      if room_for (length out) then (if truncated then (closed, true) else rest) else (out, true)

  unfoldable pub append_header : QcCatalogSnapshot → List ℕ
  append_header s =
      append_literal
        (append_uint
          (append_literal (append_uint (append_literal [] (codes "{\"generation\":")) s.generation)
            (codes ",\"presetCount\":"))
          (s.preset_count % 2 ^ 32))
        (codes ",\"folders\":[")

  unfoldable pub append_end : List ℕ → Bool → List ℕ
  append_end out incomplete =
      append_literal
        (append_literal (append_literal out (codes "],\"incomplete\":"))
          (if incomplete then codes "true" else codes "false"))
        (codes "}")

  unfoldable pub encode_catalog_json : QcCatalogSnapshot → List ℕ
  encode_catalog_json s =
      let (out, truncated) = encode_folders (append_header s) true s.folders in
      append_end out (s.incomplete || truncated)
