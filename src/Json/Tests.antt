-- ===== src/Json/Tests.antt =====
-- A run of the encoder, and the theorem at a concrete input.
use qcremote.Prelude.{
  length, keep, ℕ, ◌+◌, ◌<◌, ◌≡◌, refl, Bool, true, false, ◌||◌, some, List, [], ◌∷◌, ◌++◌, arith,
}
use qcremote.Json.Strings.{is_shown, read_string}
use qcremote.Prelude.Text.{codes}
use qcremote.Catalog.Snapshot.{FolderEntry, QcCatalogSnapshot, blank_snapshot}
use qcremote.Json.{
  encode_catalog_json, append_end, append_literal, encode_folders, append_header, append_uint,
  reverse_onto, digits, append_quoted,
}
use qcremote.Json.Rendering.{Shown, document}
use qcremote.Json.Strings.{append_quoted_reads, is_shown, read_string}
use qcremote.Json.Document.{encode_catalog_json_lem}

abbrev snapshot : QcCatalogSnapshot
snapshot = record {
  folders =
      record { name = codes "My"; presets = record { index = 7; name = codes "A\"" } ∷ [] } ∷ [];
  preset_count = 1;
  incomplete = false;
  generation = 2;
}

encode_blank :
    encode_catalog_json 300 blank_snapshot
    ≡ codes "{\"generation\":0,\"presetCount\":0,\"folders\":[],\"incomplete\":false}"
unfolding encode_catalog_json append_end append_literal encode_folders append_header append_uint
    reverse_onto digits
encode_blank = refl

encode_catalog_json_lem_example :
    (shown : List FolderEntry) × (left_out : Bool) × Shown snapshot.folders shown left_out
    × (encode_catalog_json 200 snapshot
        ≡ document (record snapshot { folders = shown; incomplete = false || left_out }))
    × (left_out ≡ true → 200 < length (encode_catalog_json 200 snapshot) + 183)
encode_catalog_json_lem_example =
    encode_catalog_json_lem 200 snapshot (omega arith) ((omega arith, (omega arith, tt)), tt)

append_quoted_reads_example :
    (written : List ℕ) × (append_quoted 64 (codes "[") (codes "A\"\\B") ≡ codes "[" ++ 34 ∷ written)
    × (read_string false (written ++ codes "]") ≡ some (keep is_shown (codes "A\"\\B"), codes "]"))
append_quoted_reads_example =
    append_quoted_reads 64 (codes "[") (codes "A\"\\B") (codes "]") (omega arith)
