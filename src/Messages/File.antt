-- ===== src/Messages/File.antt =====
-- QcFileMessage.hpp: a File message is run over twice, and its presets go to a callback in order.
use qcremote.Prelude.{
  ◌==◌, if◌then◌else◌, is_empty, ℕ, ◌+◌, ◌-◌, ◌%◌, ◌^◌, Bool, true, false, not, ◌&&◌, Option, none,
  some, List, [], ◌∷◌,
}
use qcremote.Proto.Reader.{Field, all_fields, run_fields}
use qcremote.Messages.Replies.{is_varint, is_length_delimited}

pub record FilePreset : Type 0 where
  pub folder_key : List ℕ
  pub folder_name : List ℕ
  pub folder_is_factory : Bool
  pub preset_name : List ℕ
  pub index : ℕ

-- The int64_t `type` by its 64 bits: -1 before a field sets it. `folder` is `none` while `hasFolder`
-- is false.
pub record FileHeader : Type 0 where
  pub type : ℕ
  pub folder : Option (List ℕ)

unfoldable pub header_field : FileHeader → Field → FileHeader
header_field h f =
    if f.field_num == 3
    then (if is_varint f.wire_type then record h { type = f.varint_value } else h)
    else if f.field_num == 4
    then (if is_length_delimited f.wire_type then record h { folder = some f.bytes } else h)
    else h

pub record FolderMetadata : Type 0 where
  pub folder_key : List ℕ
  pub folder_name : List ℕ
  pub folder_is_factory : Bool

unfoldable pub folder_field : FolderMetadata → Field → FolderMetadata
folder_field m f =
    if f.field_num == 1
    then (if is_length_delimited f.wire_type then record m { folder_key = f.bytes } else m)
    else if f.field_num == 3
    then (if is_length_delimited f.wire_type then record m { folder_name = f.bytes } else m)
    else if f.field_num == 4
    then (if is_varint f.wire_type
        then record m { folder_is_factory = not (f.varint_value == 0) }
        else m)
    else m

unfoldable pub product_field : List ℕ → Field → List ℕ
product_field preset_name f =
    if f.field_num == 3 && is_length_delimited f.wire_type then f.bytes else preset_name

-- `if (field->fieldNum != 7 || field->wireType != LengthDelimited) continue;`
abbrev pub is_file : Field → Bool
is_file f = f.field_num == 7 && is_length_delimited f.wire_type

unfoldable pub files_loop : FolderMetadata → ℕ → List Field → List FilePreset
files_loop m index [] = []
files_loop m index (f ∷ fs) =
    let preset : FilePreset = record {
      folder_key = m.folder_key;
      folder_name = m.folder_name;
      folder_is_factory = m.folder_is_factory;
      preset_name = run_fields product_field [] (all_fields f.bytes);
      index = index;
    } in
    let taken = preset ∷ files_loop m ((index + 1) % 2 ^ 32) fs in
    let passed = files_loop m index fs in if is_file f then taken else passed

-- The two passes over the folder's bytes.
unfoldable pub folder_presets : List ℕ → List FilePreset
folder_presets folder =
    files_loop
      (run_fields folder_field
        (record { folder_key = []; folder_name = []; folder_is_factory = false })
        (all_fields folder))
      0 (all_fields folder)

unfoldable pub presets_of_header : FileHeader → List FilePreset
presets_of_header h = elim h.folder [
  | none ↦ []
  | some folder ↦ if h.type == 0 then folder_presets folder else []
]

-- What is returned, and the presets that the callback is given, in order.
unfoldable pub decode_file : List ℕ → Bool × List FilePreset
decode_file proto_bytes = if is_empty proto_bytes then (false, []) else (
  true,
  presets_of_header (
      run_fields header_field (record { type = 2 ^ 64 - 1; folder = none })
        (all_fields proto_bytes)),
)
