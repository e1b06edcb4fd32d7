-- ===== src/Messages/Listing.antt =====
-- decodeFile against its description: one preset for each file of the folder, numbered in order.
use qcremote.Prelude.{
  ◌==◌, if◌then◌else◌, Bool-cases, is_empty, keep, ℕ, ◌+◌, ◌-◌, ◌%◌, ◌^◌, ◌≡◌, refl, ap, ◌∙◌, inl,
  inr, true, false, not, Option, none, some, List, [], ◌∷◌, map, arith,
}
use qcremote.Proto.Reader.{Field, all_fields, run_fields}
use qcremote.Messages.File.{
  FilePreset, FileHeader, FolderMetadata, header_field, folder_field, product_field, is_file,
  files_loop, folder_presets, presets_of_header, decode_file,
}
use qcremote.Messages.LastField.{last_match, field_or, number_field, text_field, run_fields-part}
use qcremote.Messages.Decode.{last_flag, last_bytes}

abbrev pub metadata_of : List Field → FolderMetadata
metadata_of fs = record {
  folder_key = last_bytes 1 fs;
  folder_name = last_bytes 3 fs;
  folder_is_factory = last_flag 4 fs;
}

-- The name that a file's bytes hold.
abbrev pub name_of : Field → List ℕ
name_of f = last_bytes 3 (all_fields f.bytes)

abbrev pub preset_of : FolderMetadata → ℕ → List ℕ → FilePreset
preset_of m index name = record {
  folder_key = m.folder_key;
  folder_name = m.folder_name;
  folder_is_factory = m.folder_is_factory;
  preset_name = name;
  index = index;
}

-- Presets with these names, numbered from `index` on as a uint32_t counts.
abbrev pub numbered : FolderMetadata → ℕ → List (List ℕ) → List FilePreset
numbered m index [] = []
numbered m index (name ∷ names) = preset_of m index name ∷ numbered m ((index + 1) % 2 ^ 32) names

abbrev pub listing_of : List Field → List FilePreset
listing_of fs = numbered (metadata_of fs) 0 (map name_of (keep is_file fs))

product_name : (fs : List Field) → run_fields product_field [] fs ≡ last_bytes 3 fs
unfolding product_field
product_name fs =
    run_fields-part product_field (λ s. s) (text_field 3) (λ f. f.bytes) (λ s f. refl) [] fs

files_loop-numbered :
    (m : FolderMetadata) (index : ℕ) (fs : List Field)
    → files_loop m index fs ≡ numbered m index (map name_of (keep is_file fs))
unfolding files_loop
files_loop-numbered m index [] = refl
files_loop-numbered m index (f ∷ fs) = elim (Bool-cases (is_file f)) [
  | inl taken ↦
      rw (taken, product_name (all_fields f.bytes))
        (ap (λ t. preset_of m index (name_of f) ∷ t)
          (files_loop-numbered m ((index + 1) % 2 ^ 32) fs))
  | inr passed ↦ rw passed (files_loop-numbered m index fs)
]

abbrev blank_folder : FolderMetadata
blank_folder = record { folder_key = []; folder_name = []; folder_is_factory = false }

folder_metadata : (fs : List Field) → run_fields folder_field blank_folder fs ≡ metadata_of fs
unfolding folder_field
folder_metadata fs = λ i. record {
  folder_key =
      run_fields-part folder_field (λ s. s.folder_key) (text_field 1) (λ f. f.bytes)
        (λ s f. ground arith) blank_folder fs i;
  folder_name =
      run_fields-part folder_field (λ s. s.folder_name) (text_field 3) (λ f. f.bytes)
        (λ s f. ground arith) blank_folder fs i;
  folder_is_factory =
      run_fields-part folder_field (λ s. s.folder_is_factory) (number_field 4)
        (λ f. not (f.varint_value == 0)) (λ s f. ground arith) blank_folder fs i;
}

-- The two passes over a folder agree on what they see, wherever the metadata stands among the files.
pub folder_presets-listing_of :
    (folder : List ℕ) → folder_presets folder ≡ listing_of (all_fields folder)
unfolding folder_presets
folder_presets-listing_of folder =
    rw (folder_metadata (all_fields folder)) (files_loop-numbered _ 0 (all_fields folder))

abbrev blank_header : FileHeader
blank_header = record { type = 2 ^ 64 - 1; folder = none }

abbrev header_of : List Field → FileHeader
header_of fs = record {
  type = field_or (2 ^ 64 - 1) (λ f. f.varint_value) (last_match (number_field 3) fs);
  folder = field_or none (λ f. some f.bytes) (last_match (text_field 4) fs);
}

header_lem : (fs : List Field) → run_fields header_field blank_header fs ≡ header_of fs
unfolding header_field
header_lem fs = λ i. record {
  type =
      run_fields-part header_field (λ s. s.type) (number_field 3) (λ f. f.varint_value)
        (λ s f. ground arith) blank_header fs i;
  folder =
      run_fields-part header_field (λ s. s.folder) (text_field 4) (λ f. some f.bytes)
        (λ s f. ground arith) blank_header fs i;
}

abbrev pub presets_in : Field → List FilePreset
presets_in f = listing_of (all_fields f.bytes)

-- The presets that a File message should give: none unless its last type is 0, the presets' own, and
-- it has a folder; else those of its last folder.
abbrev pub expected : List Field → List FilePreset
expected fs =
    field_or []
      (λ t.
        if t.varint_value == 0 then field_or [] presets_in (last_match (text_field 4) fs) else [])
      (last_match (number_field 3) fs)

from_header :
    (t o : Option Field)
    → presets_of_header (record {
      type = field_or (2 ^ 64 - 1) (λ f. f.varint_value) t;
      folder = field_or none (λ f. some f.bytes) o;
    })
      ≡ field_or [] (λ f. if f.varint_value == 0 then field_or [] presets_in o else []) t
unfolding presets_of_header
from_header none none = refl
from_header none (some f) = refl
from_header (some g) none = ground arith
from_header (some g) (some f) = rw (folder_presets-listing_of f.bytes) refl

-- decodeFile answers false on empty input only, with no callback. On every other input it answers
-- true and hands over, in order, one preset for each file entry of the last folder, if the last type
-- is 0: each with the folder's last key, name and flag and its own last name, numbered 0, 1, 2, …
pub decode_file_lem :
    (bytes : List ℕ)
    → decode_file bytes
      ≡ (if is_empty bytes then (false, []) else (true, expected (all_fields bytes)))
unfolding decode_file
decode_file_lem [] = refl
decode_file_lem (b ∷ bs) =
    let fs = all_fields (b ∷ bs) in
    ap (λ (h : FileHeader). (true, presets_of_header h)) (header_lem fs)
    ∙ ap (λ (t : List FilePreset). (true, t))
        (from_header (last_match (number_field 3) fs) (last_match (text_field 4) fs))
